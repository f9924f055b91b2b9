-- ===== src/Sidebar/Parts.antt =====
-- The components of app/frontend/components/layouts/sidebar/sidebar.tsx.
use opanel.Common.{String, Bool, false, Option, some, [], ◌∷◌, if◌then◌else◌, or_else}
use opanel.Dom.{Props, Node, host, foreign, str, bool, spread}
use opanel.Ui.Cn.{ClassLibs, Cva, cn, lit, falsy, given}
use opanel.Ui.Part.{part}
use opanel.Ui.Input.{input}
use opanel.Ui.Separator.{separator}

abbrev pub sidebar_menu_button_variants : Cva
sidebar_menu_button_variants = record {
  base =
      "peer/menu-button group/menu-button relative flex w-full cursor-pointer items-center gap-3 overflow-hidden rounded-md px-4 py-2.5 text-left text-lg text-sidebar-foreground/70 ring-sidebar-ring outline-hidden transition-[width,height,padding,background-color,color] group-has-data-[sidebar=menu-action]/menu-item:pr-11 group-data-[collapsible=icon]:size-10! group-data-[collapsible=icon]:justify-center group-data-[collapsible=icon]:p-2.5! group-data-[collapsible=icon]:[&_svg]:size-[22px] group-data-[collapsible=icon]:[&>span:not([data-slot=avatar])]:hidden group-data-[collapsible=icon]:[&>svg:first-child]:visible group-data-[collapsible=icon]:[&>svg:first-child]:opacity-100 hover:bg-sidebar-accent hover:text-sidebar-accent-foreground focus-visible:ring-2 active:bg-sidebar-accent active:text-sidebar-accent-foreground disabled:pointer-events-none disabled:cursor-not-allowed disabled:opacity-50 aria-disabled:pointer-events-none aria-disabled:opacity-50 data-open:hover:bg-sidebar-accent data-open:hover:text-sidebar-accent-foreground data-active:font-medium data-active:text-sidebar-accent-foreground [&_svg]:size-[18px] [&_svg]:shrink-0 [&_svg]:transition-[width,height] [&_svg]:duration-200 [&>span:last-child]:truncate";
  variants =
      (
        "variant",
        ("default", "hover:bg-sidebar-accent hover:text-sidebar-accent-foreground")
            ∷ (
              "outline",
              "bg-sidebar shadow-[0_0_0_1px_var(--sidebar-border)] hover:bg-sidebar-accent hover:text-sidebar-accent-foreground hover:shadow-[0_0_0_1px_var(--sidebar-accent)]",
            )
            ∷ [],
      )
      ∷ (
        "size",
        ("default", "h-12 text-lg")
            ∷ ("sm", "h-10 py-2 text-base")
            ∷ ("lg", "h-14 py-3 text-lg group-data-[collapsible=icon]:p-0!")
            ∷ [],
      )
      ∷ [];
  default_variants = ("variant", "default") ∷ ("size", "default") ∷ [];
}

module _ {M : Type 0} (L : ClassLibs) where
  unfoldable pub sidebar_inset : Props M → Node M
  sidebar_inset p =
      part L (host "main") "sidebar-inset" []
        (lit
            "relative flex w-full flex-1 flex-col bg-background md:peer-data-[variant=inset]:m-2 md:peer-data-[variant=inset]:ml-0 md:peer-data-[variant=inset]:rounded-xs md:peer-data-[variant=inset]:shadow-2xl md:peer-data-[variant=inset]:shadow-(color:--shadow-surface) md:peer-data-[variant=inset]:peer-data-[state=collapsed]:ml-2"
          ∷ [])
        p

  unfoldable pub sidebar_input : Option Bool → Option String → Props M → Node M
  unfolding input
  sidebar_input as_child input_type p = input L as_child input_type (record {
    class_name = some (cn L (lit "h-8 w-full bg-background shadow-none" ∷ given p.class_name ∷ []));
    attrs =
        spread (("data-slot", str "sidebar-input") ∷ ("data-sidebar", str "input") ∷ []) p.attrs;
    children = p.children;
  })

  unfoldable pub sidebar_header : Props M → Node M
  sidebar_header p =
      part L (host "div") "sidebar-header" (("data-sidebar", str "header") ∷ [])
        (lit "flex min-h-20 flex-col justify-center gap-3 p-3 group-data-[collapsible=icon]:p-1"
          ∷ [])
        p

  unfoldable pub sidebar_footer : Props M → Node M
  sidebar_footer p =
      part L (host "div") "sidebar-footer" (("data-sidebar", str "footer") ∷ [])
        (lit "flex flex-col gap-2 p-2 group-data-[collapsible=icon]:p-1" ∷ []) p

  unfoldable pub sidebar_separator : Option String → Option Bool → Props M → Node M
  unfolding separator
  sidebar_separator orientation decorative p = separator L orientation decorative (record {
    class_name = some (cn L (lit "mx-2 w-auto bg-sidebar-border" ∷ given p.class_name ∷ []));
    attrs =
        spread (("data-slot", str "sidebar-separator") ∷ ("data-sidebar", str "separator") ∷ [])
          p.attrs;
    children = p.children;
  })

  unfoldable pub sidebar_content : Props M → Node M
  sidebar_content p =
      part L (host "div") "sidebar-content" (("data-sidebar", str "content") ∷ [])
        (lit
            "no-scrollbar flex min-h-0 flex-1 flex-col gap-0 overflow-auto group-data-[collapsible=icon]:overflow-hidden"
          ∷ [])
        p

  unfoldable pub sidebar_group : Props M → Node M
  sidebar_group p =
      part L (host "div") "sidebar-group" (("data-sidebar", str "group") ∷ [])
        (lit "relative flex w-full min-w-0 flex-col p-2 group-data-[collapsible=icon]:p-1" ∷ []) p

  unfoldable pub sidebar_group_label : Option Bool → Props M → Node M
  sidebar_group_label as_child p =
      part L (if (or_else as_child false) then foreign "Slot.Root" else host "div")
        "sidebar-group-label" (("data-sidebar", str "group-label") ∷ [])
        (lit
            "flex h-8 shrink-0 items-center rounded-xs px-2 text-lg font-extralight text-sidebar-foreground/70 ring-sidebar-ring outline-hidden transition-[margin,opacity] duration-200 ease-linear group-data-[collapsible=icon]:-mt-8 group-data-[collapsible=icon]:opacity-0 focus-visible:ring-2 [&>svg]:size-[18px] [&>svg]:shrink-0"
          ∷ [])
        p

  unfoldable pub sidebar_group_action : Option Bool → Props M → Node M
  sidebar_group_action as_child p =
      part L (if (or_else as_child false) then foreign "Slot.Root" else host "button")
        "sidebar-group-action" (("data-sidebar", str "group-action") ∷ [])
        (lit
            "absolute top-3.5 right-3 flex aspect-square w-5 items-center justify-center rounded-xs p-0 text-sidebar-foreground ring-sidebar-ring outline-hidden transition-transform group-data-[collapsible=icon]:hidden after:absolute after:-inset-2 hover:bg-sidebar-accent hover:text-sidebar-accent-foreground focus-visible:ring-2 md:after:hidden [&>svg]:size-[18px] [&>svg]:shrink-0"
          ∷ [])
        p

  unfoldable pub sidebar_group_content : Props M → Node M
  sidebar_group_content p =
      part L (host "div") "sidebar-group-content" (("data-sidebar", str "group-content") ∷ [])
        (lit "w-full text-lg" ∷ []) p

  unfoldable pub sidebar_menu : Props M → Node M
  sidebar_menu p =
      part L (host "ul") "sidebar-menu" (("data-sidebar", str "menu") ∷ [])
        (lit "flex w-full min-w-0 flex-col gap-1" ∷ []) p

  unfoldable pub sidebar_menu_item : Props M → Node M
  sidebar_menu_item p =
      part L (host "li") "sidebar-menu-item" (("data-sidebar", str "menu-item") ∷ [])
        (lit "group/menu-item relative" ∷ []) p

  unfoldable pub sidebar_menu_action : Option Bool → Option Bool → Props M → Node M
  sidebar_menu_action as_child show_on_hover p =
      part L (if (or_else as_child false) then foreign "Slot.Root" else host "button")
        "sidebar-menu-action" (("data-sidebar", str "menu-action") ∷ [])
        (lit
            "absolute top-3 right-2 flex aspect-square w-6 items-center justify-center rounded-xs p-0 text-sidebar-foreground ring-sidebar-ring outline-hidden transition-transform group-data-[collapsible=icon]:hidden peer-hover/menu-button:text-sidebar-accent-foreground peer-data-[size=default]/menu-button:top-3 peer-data-[size=lg]/menu-button:top-4 peer-data-[size=sm]/menu-button:top-2 after:absolute after:-inset-2 hover:bg-sidebar-accent hover:text-sidebar-accent-foreground focus-visible:ring-2 md:after:hidden [&>svg]:size-[18px] [&>svg]:shrink-0"
          ∷ (if (or_else show_on_hover false)
              then lit
                  "group-focus-within/menu-item:opacity-100 group-hover/menu-item:opacity-100 peer-data-active/menu-button:text-sidebar-accent-foreground aria-expanded:opacity-100 md:opacity-0"
              else falsy)
          ∷ [])
        p

  unfoldable pub sidebar_menu_badge : Props M → Node M
  sidebar_menu_badge p =
      part L (host "div") "sidebar-menu-badge" (("data-sidebar", str "menu-badge") ∷ [])
        (lit
            "pointer-events-none absolute right-2 flex h-6 min-w-6 items-center justify-center rounded-xs px-1.5 text-xs font-medium text-sidebar-foreground tabular-nums select-none group-data-[collapsible=icon]:hidden peer-hover/menu-button:text-sidebar-accent-foreground peer-data-[size=default]/menu-button:top-3 peer-data-[size=lg]/menu-button:top-4 peer-data-[size=sm]/menu-button:top-2 peer-data-active/menu-button:text-sidebar-accent-foreground"
          ∷ [])
        p

  unfoldable pub sidebar_menu_sub : Props M → Node M
  sidebar_menu_sub p =
      part L (host "ul") "sidebar-menu-sub" (("data-sidebar", str "menu-sub") ∷ [])
        (lit
            "mx-4 flex min-w-0 translate-x-px flex-col gap-1 border-l border-sidebar-border px-3 py-1 group-data-[collapsible=icon]:hidden"
          ∷ [])
        p

  unfoldable pub sidebar_menu_sub_item : Props M → Node M
  sidebar_menu_sub_item p =
      part L (host "li") "sidebar-menu-sub-item" (("data-sidebar", str "menu-sub-item") ∷ [])
        (lit "group/menu-sub-item relative" ∷ []) p

  unfoldable pub sidebar_menu_sub_button :
      Option Bool → Option String → Option Bool → Props M → Node M
  sidebar_menu_sub_button as_child size is_active p =
      part L (if (or_else as_child false) then foreign "Slot.Root" else host "a")
        "sidebar-menu-sub-button"
        (("data-sidebar", str "menu-sub-button")
          ∷ ("data-size", str (or_else size "md"))
          ∷ ("data-active", bool (or_else is_active false))
          ∷ [])
        (lit
            "group/sidebar-sub-button relative flex h-11 min-w-0 -translate-x-px cursor-pointer items-center gap-3 overflow-hidden rounded-md px-3 text-sidebar-foreground/65 ring-sidebar-ring outline-hidden transition-[background-color,color] hover:bg-sidebar-accent hover:text-sidebar-accent-foreground focus-visible:ring-2 active:bg-sidebar-accent active:text-sidebar-accent-foreground disabled:pointer-events-none disabled:cursor-not-allowed disabled:opacity-50 aria-disabled:pointer-events-none aria-disabled:opacity-50 data-[size=md]:text-lg data-[size=sm]:text-base data-active:text-sidebar-accent-foreground [&>span:last-child]:truncate [&>svg]:size-[18px] [&>svg]:shrink-0 [&>svg]:text-sidebar-accent-foreground"
          ∷ [])
        p
