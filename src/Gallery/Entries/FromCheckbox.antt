-- ===== src/Gallery/Entries/FromCheckbox.antt =====
-- The entries of app/frontend/components/features/gallery/registry.tsx from "checkbox" to "icons".
use opanel.Common.{true, [], ◌∷◌}
use opanel.Dom.{nothing, text, element, host, str, bool, many}
use opanel.Gallery.Entry.{GalleryEntry, component, ui}

module _ {M : Type 0} where
  unfoldable pub checkbox_entry : GalleryEntry M
  checkbox_entry = record {
    name = "checkbox";
    category = ui;
    render = element (host "div") (("className", str "flex items-center gap-2") ∷ []) (
        many (
          (component "Checkbox"
            (("id", str "gallery-checkbox") ∷ ("defaultChecked", bool true) ∷ []) nothing)
          ∷ (component "Label" (("htmlFor", str "gallery-checkbox") ∷ [])
              (text "Drain before update"))
          ∷ []));
  }

  unfoldable pub collapsible_entry : GalleryEntry M
  collapsible_entry = record {
    name = "collapsible";
    category = ui;
    render = component "Collapsible" (("className", str "w-64") ∷ []) (
        many (
          (component "CollapsibleTrigger" (("asChild", bool true) ∷ []) (
            component "Button" (("size", str "sm") ∷ ("variant", str "ghost") ∷ [])
              (text "Environment variables")))
          ∷ (component "CollapsibleContent"
              (("className", str "text-muted-foreground pt-2 text-sm") ∷ [])
              (text "4 variables, 2 bound to secrets"))
          ∷ []));
  }

  unfoldable pub context_menu_entry : GalleryEntry M
  context_menu_entry = record {
    name = "context-menu";
    category = ui;
    render = component "ContextMenu" [] (
        many (
          (component "ContextMenuTrigger"
            ((
              "className",
              str
                  "border-border text-muted-foreground flex h-16 w-64 items-center justify-center rounded-md border border-dashed text-sm",
            )
              ∷ [])
            (text "Right click here"))
          ∷ (component "ContextMenuContent" [] (
              many (
                (component "ContextMenuItem" [] (text "Restart"))
                ∷ (component "ContextMenuSeparator" [] nothing)
                ∷ (component "ContextMenuItem" [] (text "View logs"))
                ∷ [])))
          ∷ []));
  }

  unfoldable pub dialog_entry : GalleryEntry M
  dialog_entry = record {
    name = "dialog";
    category = ui;
    render = component "Dialog" [] (
        many (
          (component "DialogTrigger" (("asChild", bool true) ∷ [])
            (component "Button" (("size", str "sm") ∷ []) (text "Open dialog")))
          ∷ (component "DialogContent" [] (
              many (
                (component "DialogHeader" [] (
                  many (
                    (component "DialogTitle" [] (text "Scale service"))
                    ∷ (component "DialogDescription" [] (text "Replicas converge asynchronously."))
                    ∷ [])))
                ∷ (component "DialogFooter" []
                    (component "Button" (("size", str "sm") ∷ []) (text "Apply")))
                ∷ [])))
          ∷ []));
  }

  unfoldable pub direction_entry : GalleryEntry M
  direction_entry = record {
    name = "direction";
    category = ui;
    render = component "DirectionProvider" (("dir", str "ltr") ∷ []) (
        element (host "span") (("className", str "text-muted-foreground text-sm") ∷ [])
          (text "Provides reading direction to every primitive below it."));
  }

  unfoldable pub dropdown_menu_entry : GalleryEntry M
  dropdown_menu_entry = record {
    name = "dropdown-menu";
    category = ui;
    render = component "DropdownMenu" [] (
        many (
          (component "DropdownMenuTrigger" (("asChild", bool true) ∷ []) (
            component "Button" (("size", str "sm") ∷ ("variant", str "outline") ∷ [])
              (text "Actions")))
          ∷ (component "DropdownMenuContent" [] (
              many (
                (component "DropdownMenuLabel" [] (text "Service"))
                ∷ (component "DropdownMenuSeparator" [] nothing)
                ∷ (component "DropdownMenuItem" [] (text "Restart"))
                ∷ (component "DropdownMenuItem" [] (text "Rollback"))
                ∷ [])))
          ∷ []));
  }

  unfoldable pub empty_entry : GalleryEntry M
  empty_entry = record {
    name = "empty";
    category = ui;
    render = component "Empty" (("className", str "w-72") ∷ []) (
        component "EmptyHeader" [] (
          many (
            (component "EmptyMedia" (("variant", str "icon") ∷ [])
              (component "Icons.component" [] nothing))
            ∷ (component "EmptyTitle" [] (text "No services yet"))
            ∷ (component "EmptyDescription" [] (text "Deploy an image to see it here."))
            ∷ [])));
  }

  unfoldable pub field_entry : GalleryEntry M
  field_entry = record {
    name = "field";
    category = ui;
    render = component "Field" (("className", str "w-64") ∷ []) (
        many (
          (component "FieldLabel" (("htmlFor", str "gallery-field") ∷ []) (text "Replicas"))
          ∷ (component "Input"
              (("id", str "gallery-field")
                ∷ ("defaultValue", str "3")
                ∷ ("aria-invalid", bool true)
                ∷ [])
              nothing)
          ∷ (component "FieldDescription" [] (text "Desired number of tasks."))
          ∷ (component "FieldError" [] (text "Must be at least 1."))
          ∷ []));
  }

  unfoldable pub hover_card_entry : GalleryEntry M
  hover_card_entry = record {
    name = "hover-card";
    category = ui;
    render = component "HoverCard" [] (
        many (
          (component "HoverCardTrigger" (("asChild", bool true) ∷ []) (
            component "Button" (("size", str "sm") ∷ ("variant", str "link") ∷ [])
              (text "sha256:9f2c…")))
          ∷ (component "HoverCardContent" (("className", str "text-sm") ∷ [])
              (text "Immutable digest of the deployed release."))
          ∷ []));
  }

  unfoldable pub icons_entry : GalleryEntry M
  icons_entry = record {
    name = "icons";
    category = ui;
    render = element (host "div") (("className", str "flex items-center gap-3") ∷ []) (
        many (
          (component "Icons.cog" [] nothing)
          ∷ (component "Icons.alert" [] nothing)
          ∷ (component "Icons.checkAll" [] nothing)
          ∷ (component "LineMdIcon" (("icon", str "account") ∷ ("className", str "size-5") ∷ [])
              nothing)
          ∷ []));
  }
