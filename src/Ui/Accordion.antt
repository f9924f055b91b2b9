-- ===== src/Ui/Accordion.antt =====
-- The components of app/frontend/components/ui/accordion/accordion.tsx.
use opanel.Common.{[], ◌∷◌}
use opanel.Dom.{Props, Node, element, host, foreign, str, many, spread}
use opanel.Ui.Cn.{ClassLibs, cn, lit, given}
use opanel.Ui.Part.{part}
use opanel.Ui.Icons.{icon}

module _ {M : Type 0} (L : ClassLibs) where
  unfoldable pub accordion : Props M → Node M
  accordion p = part L (foreign "Accordion.Root") "accordion" [] (lit "flex w-full flex-col" ∷ []) p

  unfoldable pub accordion_item : Props M → Node M
  accordion_item p =
      part L (foreign "Accordion.Item") "accordion-item" [] (lit "not-last:border-b" ∷ []) p

  unfoldable pub accordion_trigger : Props M → Node M
  accordion_trigger p = element (foreign "Accordion.Header") (("className", str "flex") ∷ []) (
      element (foreign "Accordion.Trigger")
        (spread
          (("data-slot", str "accordion-trigger")
            ∷ (
              "className",
              str (
                  cn L (
                    lit
                      "group/accordion-trigger relative flex flex-1 items-start justify-between rounded-xs border border-transparent py-2.5 text-left text-lg font-medium transition-all outline-none hover:underline focus-visible:border-ring focus-visible:ring-3 focus-visible:ring-ring/50 focus-visible:after:border-ring disabled:pointer-events-none disabled:opacity-50 **:data-[slot=accordion-trigger-icon]:ml-auto **:data-[slot=accordion-trigger-icon]:size-[18px] **:data-[slot=accordion-trigger-icon]:text-muted-foreground"
                    ∷ given p.class_name
                    ∷ [])),
            )
            ∷ [])
          p.attrs)
        (many (
          (p.children)
          ∷ (icon "chevronDown" (
              ("data-slot", str "accordion-trigger-icon")
              ∷ (
                "className",
                str "pointer-events-none shrink-0 group-aria-expanded/accordion-trigger:hidden",
              )
              ∷ []))
          ∷ (icon "chevronUp" (
              ("data-slot", str "accordion-trigger-icon")
              ∷ (
                "className",
                str
                    "pointer-events-none hidden shrink-0 group-aria-expanded/accordion-trigger:inline",
              )
              ∷ []))
          ∷ [])))

  unfoldable pub accordion_content : Props M → Node M
  accordion_content p =
      element (foreign "Accordion.Content")
        (spread
          (("data-slot", str "accordion-content")
            ∷ (
              "className",
              str
                  "overflow-hidden text-lg font-normal text-muted-foreground data-open:animate-accordion-down data-closed:animate-accordion-up",
            )
            ∷ [])
          p.attrs)
        (element (host "div")
          ((
            "className",
            str (
                cn L (
                  lit
                    "h-(--radix-accordion-content-height) pt-0 pb-2.5 [&_a]:underline [&_a]:underline-offset-3 [&_a]:hover:text-foreground [&_p:not(:last-child)]:mb-4"
                  ∷ given p.class_name
                  ∷ [])),
          )
            ∷ [])
          p.children)
