-- ===== src/Ui/AlertDialog.antt =====
-- The components of app/frontend/components/ui/alert-dialog/alert-dialog.tsx.
use opanel.Common.{String, true, Option, none, some, [], ◌∷◌, or_else}
use opanel.Dom.{Props, Node, nothing, element, host, foreign, str, many, spread, all_attrs}
use opanel.Ui.Cn.{ClassLibs, lit}
use opanel.Ui.Part.{part}
use opanel.Ui.Button.{button}

module _ {M : Type 0} (L : ClassLibs) where
  unfoldable pub alert_dialog : Props M → Node M
  alert_dialog p =
      element (foreign "AlertDialog.Root")
        (spread (("data-slot", str "alert-dialog") ∷ []) (all_attrs p)) p.children

  unfoldable pub alert_dialog_trigger : Props M → Node M
  alert_dialog_trigger p =
      element (foreign "AlertDialog.Trigger")
        (spread (("data-slot", str "alert-dialog-trigger") ∷ []) (all_attrs p)) p.children

  unfoldable pub alert_dialog_portal : Props M → Node M
  alert_dialog_portal p =
      element (foreign "AlertDialog.Portal")
        (spread (("data-slot", str "alert-dialog-portal") ∷ []) (all_attrs p)) p.children

  unfoldable pub alert_dialog_overlay : Props M → Node M
  alert_dialog_overlay p =
      part L (foreign "AlertDialog.Overlay") "alert-dialog-overlay" []
        (lit
            "fixed inset-0 z-50 bg-black/10 duration-100 supports-backdrop-filter:backdrop-blur-xs data-open:animate-in data-open:fade-in-0 data-closed:animate-out data-closed:fade-out-0"
          ∷ [])
        p

  unfoldable pub alert_dialog_content : Option String → Props M → Node M
  unfolding alert_dialog_overlay alert_dialog_portal
  alert_dialog_content size p = alert_dialog_portal (record {
    class_name = none;
    attrs = [];
    children =
        (many (
          (alert_dialog_overlay (record { class_name = none; attrs = []; children = nothing }))
          ∷ (part L (foreign "AlertDialog.Content") "alert-dialog-content"
              (("data-size", str (or_else size "default")) ∷ [])
              (lit
                  "group/alert-dialog-content fixed top-1/2 left-1/2 z-50 grid w-full -translate-x-1/2 -translate-y-1/2 gap-4 rounded-xs bg-popover p-4 text-popover-foreground ring-1 ring-foreground/10 duration-100 outline-none data-[size=default]:max-w-xs data-[size=sm]:max-w-xs data-[size=default]:sm:max-w-sm data-open:animate-in data-open:fade-in-0 data-open:zoom-in-95 data-closed:animate-out data-closed:fade-out-0 data-closed:zoom-out-95"
                ∷ [])
              p)
          ∷ []));
  })

  unfoldable pub alert_dialog_header : Props M → Node M
  alert_dialog_header p =
      part L (host "div") "alert-dialog-header" []
        (lit
            "grid grid-rows-[auto_1fr] place-items-center gap-1.5 text-center has-data-[slot=alert-dialog-media]:grid-rows-[auto_auto_1fr] has-data-[slot=alert-dialog-media]:gap-x-4 sm:group-data-[size=default]/alert-dialog-content:place-items-start sm:group-data-[size=default]/alert-dialog-content:text-left sm:group-data-[size=default]/alert-dialog-content:has-data-[slot=alert-dialog-media]:grid-rows-[auto_1fr]"
          ∷ [])
        p

  unfoldable pub alert_dialog_footer : Props M → Node M
  alert_dialog_footer p =
      part L (host "div") "alert-dialog-footer" []
        (lit
            "-mx-4 -mb-4 flex flex-col-reverse gap-2 rounded-b-xs border-t bg-muted/50 p-4 group-data-[size=sm]/alert-dialog-content:grid group-data-[size=sm]/alert-dialog-content:grid-cols-2 sm:flex-row sm:justify-end"
          ∷ [])
        p

  unfoldable pub alert_dialog_media : Props M → Node M
  alert_dialog_media p =
      part L (host "div") "alert-dialog-media" []
        (lit
            "mb-2 inline-flex size-10 items-center justify-center rounded-xs bg-muted sm:group-data-[size=default]/alert-dialog-content:row-span-2 *:[svg:not([class*='size-'])]:size-6"
          ∷ [])
        p

  unfoldable pub alert_dialog_title : Props M → Node M
  alert_dialog_title p =
      part L (foreign "AlertDialog.Title") "alert-dialog-title" []
        (lit
            "font-heading text-lg font-medium sm:group-data-[size=default]/alert-dialog-content:group-has-data-[slot=alert-dialog-media]/alert-dialog-content:col-start-2"
          ∷ [])
        p

  unfoldable pub alert_dialog_description : Props M → Node M
  alert_dialog_description p =
      part L (foreign "AlertDialog.Description") "alert-dialog-description" []
        (lit
            "text-base text-balance text-muted-foreground md:text-pretty *:[a]:underline *:[a]:underline-offset-3 *:[a]:hover:text-foreground"
          ∷ [])
        p

  unfoldable pub alert_dialog_action : Option String → Option String → Props M → Node M
  unfolding button
  alert_dialog_action variant size p =
      button L (some (or_else variant "default")) (some (or_else size "default")) (some true)
        (record {
          class_name = none;
          attrs = [];
          children = (part L (foreign "AlertDialog.Action") "alert-dialog-action" [] [] p);
        })

  unfoldable pub alert_dialog_cancel : Option String → Option String → Props M → Node M
  unfolding button
  alert_dialog_cancel variant size p =
      button L (some (or_else variant "outline")) (some (or_else size "default")) (some true)
        (record {
          class_name = none;
          attrs = [];
          children = (part L (foreign "AlertDialog.Cancel") "alert-dialog-cancel" [] [] p);
        })
