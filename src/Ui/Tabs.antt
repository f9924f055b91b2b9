-- ===== src/Ui/Tabs.antt =====
-- The components of app/frontend/components/ui/tabs/tabs.tsx.
use opanel.Common.{String, Option, none, some, [], ◌∷◌, or_else}
use opanel.Dom.{Props, Node, foreign, str}
use opanel.Ui.Cn.{ClassLibs, Cva, lit}
use opanel.Ui.Part.{part}

abbrev pub tabs_list_variants : Cva
tabs_list_variants = record {
  base =
      "group/tabs-list inline-flex w-fit items-center justify-center rounded-xs p-[3px] text-muted-foreground group-data-horizontal/tabs:h-8 group-data-vertical/tabs:h-fit group-data-vertical/tabs:flex-col data-[variant=line]:rounded-none";
  variants =
      (
        "variant",
        ("default", "bg-muted")
            ∷ ("line", "gap-1 bg-transparent")
            ∷ (
              "pill",
              "gap-1 rounded-full border border-foreground/10 bg-background p-1.5 shadow-sm group-data-horizontal/tabs:h-auto",
            )
            ∷ [],
      )
      ∷ [];
  default_variants = ("variant", "default") ∷ [];
}

module _ {M : Type 0} (L : ClassLibs) where
  unfoldable pub tabs : Option String → Props M → Node M
  tabs orientation p =
      part L (foreign "Tabs.Root") "tabs"
        (("data-orientation", str (or_else orientation "horizontal")) ∷ [])
        (lit "group/tabs flex gap-2 data-horizontal:flex-col" ∷ []) p

  unfoldable pub tabs_list : Option String → Props M → Node M
  tabs_list variant p =
      part L (foreign "Tabs.List") "tabs-list"
        (("data-variant", str (or_else variant "default")) ∷ [])
        (lit (L.cva tabs_list_variants (("variant", some (or_else variant "default")) ∷ []) none)
          ∷ [])
        p

  unfoldable pub tabs_trigger : Props M → Node M
  tabs_trigger p =
      part L (foreign "Tabs.Trigger") "tabs-trigger" []
        (lit
            "relative inline-flex h-[calc(100%-1px)] flex-1 items-center justify-center gap-1.5 rounded-xs border border-transparent px-1.5 py-0.5 text-lg font-medium whitespace-nowrap text-foreground/60 transition-all group-data-vertical/tabs:w-full group-data-vertical/tabs:justify-start hover:text-foreground focus-visible:border-ring focus-visible:ring-3 focus-visible:ring-ring/50 focus-visible:outline-1 focus-visible:outline-ring disabled:pointer-events-none disabled:opacity-50 has-data-[icon=inline-end]:pr-1 has-data-[icon=inline-start]:pl-1 dark:text-muted-foreground dark:hover:text-foreground group-data-[variant=default]/tabs-list:data-active:shadow-2xl group-data-[variant=default]/tabs-list:data-active:shadow-(color:--shadow-surface) group-data-[variant=line]/tabs-list:data-active:shadow-none [&_svg]:pointer-events-none [&_svg]:shrink-0 [&_svg:not([class*='size-'])]:size-[18px]"
          ∷ lit
              "group-data-[variant=line]/tabs-list:bg-transparent group-data-[variant=line]/tabs-list:data-active:bg-transparent dark:group-data-[variant=line]/tabs-list:data-active:border-transparent dark:group-data-[variant=line]/tabs-list:data-active:bg-transparent"
          ∷ lit
              "data-active:bg-background data-active:text-foreground dark:data-active:border-input dark:data-active:bg-input/30 dark:data-active:text-foreground"
          ∷ lit
              "after:absolute after:bg-foreground after:opacity-0 after:transition-opacity group-data-horizontal/tabs:after:inset-x-0 group-data-horizontal/tabs:after:bottom-[-5px] group-data-horizontal/tabs:after:h-0.5 group-data-vertical/tabs:after:inset-y-0 group-data-vertical/tabs:after:-right-1 group-data-vertical/tabs:after:w-0.5 group-data-[variant=line]/tabs-list:data-active:after:opacity-100"
          ∷ lit
              "group-data-[variant=pill]/tabs-list:isolate group-data-[variant=pill]/tabs-list:h-auto group-data-[variant=pill]/tabs-list:rounded-full group-data-[variant=pill]/tabs-list:border-transparent group-data-[variant=pill]/tabs-list:px-5 group-data-[variant=pill]/tabs-list:py-2.5 group-data-[variant=pill]/tabs-list:text-foreground group-data-[variant=pill]/tabs-list:after:hidden group-data-[variant=pill]/tabs-list:hover:bg-foreground/5 group-data-[variant=pill]/tabs-list:data-active:bg-primary group-data-[variant=pill]/tabs-list:data-active:text-primary-foreground group-data-[variant=pill]/tabs-list:data-active:shadow-none dark:group-data-[variant=pill]/tabs-list:data-active:bg-primary"
          ∷ [])
        p

  unfoldable pub tabs_content : Props M → Node M
  tabs_content p =
      part L (foreign "Tabs.Content") "tabs-content" [] (lit "flex-1 text-lg outline-none" ∷ []) p
