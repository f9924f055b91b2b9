-- ===== src/Gallery/Entries/FromAccordion.antt =====
-- The entries of app/frontend/components/features/gallery/registry.tsx from "accordion" to "card".
use opanel.Common.{true, [], ◌∷◌}
use opanel.Dom.{nothing, text, element, host, str, bool, many}
use opanel.Gallery.Entry.{GalleryEntry, component, ui}

module _ {M : Type 0} where
  unfoldable pub accordion_entry : GalleryEntry M
  accordion_entry = record {
    name = "accordion";
    category = ui;
    render =
        component "Accordion"
          (("type", str "single")
            ∷ ("collapsible", bool true)
            ∷ ("className", str "w-full max-w-sm")
            ∷ [])
          (component "AccordionItem" (("value", str "item-1") ∷ []) (
            many (
              (component "AccordionTrigger" [] (text "Placement constraints"))
              ∷ (component "AccordionContent" []
                  (text "Constraints decide which nodes may run a task."))
              ∷ [])));
  }

  unfoldable pub alert_entry : GalleryEntry M
  alert_entry = record {
    name = "alert";
    category = ui;
    render = component "Alert" [] (
        many (
          (component "AlertTitle" [] (text "Rollout paused"))
          ∷ (component "AlertDescription" [] (text "Two of three tasks are healthy."))
          ∷ (component "AlertAction" [] (
              component "Button" (("size", str "xs") ∷ ("variant", str "outline") ∷ [])
                (text "Resume")))
          ∷ []));
  }

  unfoldable pub alert_dialog_entry : GalleryEntry M
  alert_dialog_entry = record {
    name = "alert-dialog";
    category = ui;
    render = component "AlertDialog" [] (
        many (
          (component "AlertDialogTrigger" (("asChild", bool true) ∷ [])
            (component "Button" (("variant", str "destructive") ∷ []) (text "Delete")))
          ∷ (component "AlertDialogContent" [] (
              many (
                (component "AlertDialogHeader" [] (
                  many (
                    (component "AlertDialogTitle" [] (text "Delete this service?"))
                    ∷ (component "AlertDialogDescription" [] (text "This cannot be undone."))
                    ∷ [])))
                ∷ (component "AlertDialogFooter" [] (
                    many (
                      (component "AlertDialogCancel" [] (text "Cancel"))
                      ∷ (component "AlertDialogAction" [] (text "Delete"))
                      ∷ [])))
                ∷ [])))
          ∷ []));
  }

  unfoldable pub aspect_ratio_entry : GalleryEntry M
  aspect_ratio_entry = record {
    name = "aspect-ratio";
    category = ui;
    render =
        component "AspectRatio"
          (("ratio", str "16 / 9") ∷ ("className", str "bg-muted w-64 rounded-md") ∷ [])
          (element (host "div")
            ((
              "className",
              str "text-muted-foreground flex h-full items-center justify-center text-xs",
            )
              ∷ [])
            (text "16 / 9"));
  }

  unfoldable pub avatar_entry : GalleryEntry M
  avatar_entry = record {
    name = "avatar";
    category = ui;
    render = component "AvatarGroup" [] (
        many (
          (component "Avatar" [] (component "AvatarFallback" [] (text "OP")))
          ∷ (component "Avatar" [] (component "AvatarFallback" [] (text "DP")))
          ∷ []));
  }

  unfoldable pub badge_entry : GalleryEntry M
  badge_entry = record {
    name = "badge";
    category = ui;
    render = element (host "div") (("className", str "flex gap-2") ∷ []) (
        many (
          (component "Badge" [] (text "running"))
          ∷ (component "Badge" (("variant", str "secondary") ∷ []) (text "pending"))
          ∷ (component "Badge" (("variant", str "destructive") ∷ []) (text "failed"))
          ∷ []));
  }

  unfoldable pub breadcrumb_entry : GalleryEntry M
  breadcrumb_entry = record {
    name = "breadcrumb";
    category = ui;
    render = component "Breadcrumb" [] (
        component "BreadcrumbList" [] (
          many (
            (component "BreadcrumbItem" []
              (component "BreadcrumbLink" (("href", str "#") ∷ []) (text "Projects")))
            ∷ (component "BreadcrumbSeparator" [] nothing)
            ∷ (component "BreadcrumbItem" [] (component "BreadcrumbPage" [] (text "production")))
            ∷ [])));
  }

  unfoldable pub button_entry : GalleryEntry M
  button_entry = record {
    name = "button";
    category = ui;
    render = element (host "div") (("className", str "flex flex-wrap items-center gap-2") ∷ []) (
        many (
          (component "Button" (("size", str "sm") ∷ []) (text "Deploy"))
          ∷ (component "Button" (("size", str "sm") ∷ ("variant", str "outline") ∷ [])
              (text "Cancel"))
          ∷ (component "Button" (("size", str "sm") ∷ ("variant", str "destructive") ∷ [])
              (text "Delete"))
          ∷ (component "Button" (("size", str "sm") ∷ ("disabled", bool true) ∷ [])
              (text "Disabled"))
          ∷ []));
  }

  unfoldable pub button_group_entry : GalleryEntry M
  button_group_entry = record {
    name = "button-group";
    category = ui;
    render = component "ButtonGroup" [] (
        many (
          (component "Button" (("size", str "sm") ∷ ("variant", str "outline") ∷ []) (text "Scale"))
          ∷ (component "ButtonGroupSeparator" [] nothing)
          ∷ (component "ButtonGroupText" [] (text "3 replicas"))
          ∷ []));
  }

  unfoldable pub card_entry : GalleryEntry M
  card_entry = record {
    name = "card";
    category = ui;
    render = component "Card" (("className", str "w-72") ∷ []) (
        many (
          (component "CardHeader" [] (
            many (
              (component "CardTitle" [] (text "api"))
              ∷ (component "CardDescription" [] (text "3/3 tasks healthy"))
              ∷ [])))
          ∷ (component "CardContent" (("className", str "text-muted-foreground text-sm") ∷ [])
              (text "sha256:9f2c…"))
          ∷ []));
  }
