-- ===== src/Ui/Dialog.antt =====
-- The components of app/frontend/components/ui/dialog/dialog.tsx.
use opanel.Common.{Bool, true, false, Option, none, some, [], ◌∷◌, or_else}
use opanel.Dom.{
  Props, Node, nothing, text, element, host, foreign, str, bool, many, show_if, spread, all_attrs,
}
use opanel.Ui.Cn.{ClassLibs, cn, lit, given}
use opanel.Ui.Part.{part}
use opanel.Ui.Icons.{icon}
use opanel.Ui.Button.{button}

module _ {M : Type 0} (L : ClassLibs) where
  unfoldable pub modal : Props M → Node M
  modal p =
      element (foreign "Dialog.Root") (spread (("data-slot", str "modal") ∷ []) (all_attrs p))
        p.children

  unfoldable pub modal_trigger : Props M → Node M
  modal_trigger p =
      element (foreign "Dialog.Trigger")
        (spread (("data-slot", str "modal-trigger") ∷ []) (all_attrs p)) p.children

  unfoldable pub modal_portal : Props M → Node M
  modal_portal p =
      element (foreign "Dialog.Portal")
        (spread (("data-slot", str "modal-portal") ∷ []) (all_attrs p)) p.children

  unfoldable pub modal_close : Props M → Node M
  modal_close p =
      element (foreign "Dialog.Close")
        (spread (("data-slot", str "modal-close") ∷ []) (all_attrs p)) p.children

  unfoldable pub modal_overlay : Props M → Node M
  modal_overlay p =
      part L (foreign "Dialog.Overlay") "modal-overlay" []
        (lit
            "fixed inset-0 isolate z-50 bg-black/10 duration-100 supports-backdrop-filter:backdrop-blur-xs data-open:animate-in data-open:fade-in-0 data-closed:animate-out data-closed:fade-out-0"
          ∷ [])
        p

  unfoldable pub modal_content : Option Bool → Props M → Node M
  unfolding button modal_overlay modal_portal
  modal_content show_close_button p = modal_portal (record {
    class_name = none;
    attrs = [];
    children =
        (many (
          (modal_overlay (record { class_name = none; attrs = []; children = nothing }))
          ∷ (element (foreign "Dialog.Content")
              (spread
                (("data-slot", str "modal-content")
                  ∷ (
                    "className",
                    str (
                        cn L (
                          lit
                            "fixed top-1/2 left-1/2 z-50 grid w-full max-w-[calc(100%-2rem)] -translate-x-1/2 -translate-y-1/2 gap-4 rounded-md bg-popover p-4 text-lg text-popover-foreground shadow-2xl shadow-(color:--shadow-surface) duration-100 outline-none sm:max-w-sm data-open:animate-in data-open:fade-in-0 data-open:zoom-in-95 data-closed:animate-out data-closed:fade-out-0 data-closed:zoom-out-95"
                          ∷ given p.class_name
                          ∷ [])),
                  )
                  ∷ [])
                p.attrs)
              (many (
                (p.children)
                ∷ (show_if (or_else show_close_button true) (
                    element (foreign "Dialog.Close")
                      (("data-slot", str "modal-close") ∷ ("asChild", bool true) ∷ [])
                      (button L (some "ghost") (some "icon-sm") none (record {
                        class_name = some "absolute top-2 right-2";
                        attrs = [];
                        children =
                            (many (
                              (icon "close" ([]))
                              ∷ (element (host "span") (("className", str "sr-only") ∷ [])
                                  (text "Close"))
                              ∷ []));
                      }))))
                ∷ [])))
          ∷ []));
  })

  unfoldable pub modal_header : Props M → Node M
  modal_header p = part L (host "div") "modal-header" [] (lit "flex flex-col gap-2" ∷ []) p

  unfoldable pub modal_footer : Option Bool → Props M → Node M
  unfolding button
  modal_footer show_close_button p =
      element (host "div")
        (spread
          (("data-slot", str "modal-footer")
            ∷ (
              "className",
              str (
                  cn L (
                    lit
                      "-mx-4 -mb-4 flex flex-col-reverse gap-2 rounded-b-md border-t bg-muted/50 p-4 sm:flex-row sm:justify-end"
                    ∷ given p.class_name
                    ∷ [])),
            )
            ∷ [])
          p.attrs)
        (many (
          (p.children)
          ∷ (show_if (or_else show_close_button false) (
              element (foreign "Dialog.Close") (("asChild", bool true) ∷ []) (
                button L (some "outline") none none
                  (record { class_name = none; attrs = []; children = (text "Close") }))))
          ∷ []))

  unfoldable pub modal_title : Props M → Node M
  modal_title p =
      part L (foreign "Dialog.Title") "modal-title" []
        (lit "font-heading text-lg leading-none font-medium" ∷ []) p

  unfoldable pub modal_description : Props M → Node M
  modal_description p =
      part L (foreign "Dialog.Description") "modal-description" []
        (lit
            "text-base text-muted-foreground *:[a]:underline *:[a]:underline-offset-3 *:[a]:hover:text-foreground"
          ∷ [])
        p

  -- The names of before.
  abbrev pub dialog : Props M → Node M
  dialog = modal

  abbrev pub dialog_close : Props M → Node M
  dialog_close = modal_close

  abbrev pub dialog_content : Option Bool → Props M → Node M
  dialog_content = modal_content

  abbrev pub dialog_description : Props M → Node M
  dialog_description = modal_description

  abbrev pub dialog_footer : Option Bool → Props M → Node M
  dialog_footer = modal_footer

  abbrev pub dialog_header : Props M → Node M
  dialog_header = modal_header

  abbrev pub dialog_overlay : Props M → Node M
  dialog_overlay = modal_overlay

  abbrev pub dialog_portal : Props M → Node M
  dialog_portal = modal_portal

  abbrev pub dialog_title : Props M → Node M
  dialog_title = modal_title

  abbrev pub dialog_trigger : Props M → Node M
  dialog_trigger = modal_trigger
