-- ===== src/Ui/Sheet.antt =====
-- The components of app/frontend/components/ui/sheet/sheet.tsx.
use opanel.Common.{String, Bool, true, Option, none, some, [], ◌∷◌, or_else}
use opanel.Dom.{
  Props, Node, nothing, text, element, host, foreign, str, bool, many, show_if, spread, all_attrs,
}
use opanel.Ui.Cn.{ClassLibs, cn, lit, given}
use opanel.Ui.Part.{part}
use opanel.Ui.Icons.{icon}
use opanel.Ui.Button.{button}

module _ {M : Type 0} (L : ClassLibs) where
  unfoldable pub sheet : Props M → Node M
  sheet p =
      element (foreign "Dialog.Root") (spread (("data-slot", str "sheet") ∷ []) (all_attrs p))
        p.children

  unfoldable pub sheet_trigger : Props M → Node M
  sheet_trigger p =
      element (foreign "Dialog.Trigger")
        (spread (("data-slot", str "sheet-trigger") ∷ []) (all_attrs p)) p.children

  unfoldable pub sheet_close : Props M → Node M
  sheet_close p =
      element (foreign "Dialog.Close")
        (spread (("data-slot", str "sheet-close") ∷ []) (all_attrs p)) p.children

  unfoldable pub sheet_portal : Props M → Node M
  sheet_portal p =
      element (foreign "Dialog.Portal")
        (spread (("data-slot", str "sheet-portal") ∷ []) (all_attrs p)) p.children

  unfoldable pub sheet_overlay : Props M → Node M
  sheet_overlay p =
      part L (foreign "Dialog.Overlay") "sheet-overlay" []
        (lit
            "fixed inset-0 z-50 bg-black/10 duration-100 supports-backdrop-filter:backdrop-blur-xs data-open:animate-in data-open:fade-in-0 data-closed:animate-out data-closed:fade-out-0"
          ∷ [])
        p

  unfoldable pub sheet_content : Option String → Option Bool → Props M → Node M
  unfolding button sheet_overlay sheet_portal
  sheet_content side show_close_button p = sheet_portal (record {
    class_name = none;
    attrs = [];
    children =
        (many (
          (sheet_overlay (record { class_name = none; attrs = []; children = nothing }))
          ∷ (element (foreign "Dialog.Content")
              (spread
                (("data-slot", str "sheet-content")
                  ∷ ("data-side", str (or_else side "right"))
                  ∷ (
                    "className",
                    str (
                        cn L (
                          lit
                            "fixed z-50 flex flex-col gap-4 bg-popover bg-clip-padding text-lg text-popover-foreground shadow-2xl shadow-(color:--shadow-surface) transition duration-200 ease-in-out data-[side=bottom]:inset-x-0 data-[side=bottom]:bottom-0 data-[side=bottom]:h-auto data-[side=bottom]:border-t data-[side=left]:inset-y-0 data-[side=left]:left-0 data-[side=left]:h-full data-[side=left]:w-3/4 data-[side=left]:border-r data-[side=right]:inset-y-0 data-[side=right]:right-0 data-[side=right]:h-full data-[side=right]:w-3/4 data-[side=right]:border-l data-[side=top]:inset-x-0 data-[side=top]:top-0 data-[side=top]:h-auto data-[side=top]:border-b data-[side=left]:sm:max-w-sm data-[side=right]:sm:max-w-sm data-open:animate-in data-open:fade-in-0 data-[side=bottom]:data-open:slide-in-from-bottom-10 data-[side=left]:data-open:slide-in-from-left-10 data-[side=right]:data-open:slide-in-from-right-10 data-[side=top]:data-open:slide-in-from-top-10 data-closed:animate-out data-closed:fade-out-0 data-[side=bottom]:data-closed:slide-out-to-bottom-10 data-[side=left]:data-closed:slide-out-to-left-10 data-[side=right]:data-closed:slide-out-to-right-10 data-[side=top]:data-closed:slide-out-to-top-10"
                          ∷ given p.class_name
                          ∷ [])),
                  )
                  ∷ [])
                p.attrs)
              (many (
                (p.children)
                ∷ (show_if (or_else show_close_button true) (
                    element (foreign "Dialog.Close")
                      (("data-slot", str "sheet-close") ∷ ("asChild", bool true) ∷ [])
                      (button L (some "ghost") (some "icon-sm") none (record {
                        class_name = some "absolute top-3 right-3";
                        attrs = [];
                        children =
                            (many (
                              (icon "close" ([]))
                              ∷ (element (host "span") (("className", str "sr-only") ∷ [])
                                  (text "Close"))
                              ∷ []));
                      }))))
                ∷ [])))
          ∷ []));
  })

  unfoldable pub sheet_header : Props M → Node M
  sheet_header p = part L (host "div") "sheet-header" [] (lit "flex flex-col gap-0.5 p-4" ∷ []) p

  unfoldable pub sheet_footer : Props M → Node M
  sheet_footer p =
      part L (host "div") "sheet-footer" [] (lit "mt-auto flex flex-col gap-2 p-4" ∷ []) p

  unfoldable pub sheet_title : Props M → Node M
  sheet_title p =
      part L (foreign "Dialog.Title") "sheet-title" []
        (lit "font-heading text-lg font-medium text-foreground" ∷ []) p

  unfoldable pub sheet_description : Props M → Node M
  sheet_description p =
      part L (foreign "Dialog.Description") "sheet-description" []
        (lit "text-base text-muted-foreground" ∷ []) p
