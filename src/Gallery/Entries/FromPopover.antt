-- ===== src/Gallery/Entries/FromPopover.antt =====
-- The entries of app/frontend/components/features/gallery/registry.tsx from "popover" to "spinner".
use opanel.Common.{true, [], ◌∷◌}
use opanel.Dom.{nothing, text, element, host, str, num, bool, many}
use opanel.Gallery.Entry.{GalleryEntry, component, ui}

module _ {M : Type 0} where
  unfoldable pub popover_entry : GalleryEntry M
  popover_entry = record {
    name = "popover";
    category = ui;
    render = component "Popover" [] (
        many (
          (component "PopoverTrigger" (("asChild", bool true) ∷ []) (
            component "Button" (("size", str "sm") ∷ ("variant", str "outline") ∷ [])
              (text "Details")))
          ∷ (component "PopoverContent" [] (
              many (
                (component "PopoverTitle" [] (text "Task 1 of 3"))
                ∷ (element (host "p") (("className", str "text-muted-foreground text-sm") ∷ [])
                    (text "Running on node-a since 12m ago."))
                ∷ [])))
          ∷ []));
  }

  unfoldable pub progress_entry : GalleryEntry M
  progress_entry = record {
    name = "progress";
    category = ui;
    render =
        component "Progress"
          (("value", num 66)
            ∷ ("className", str "w-64")
            ∷ ("aria-label", str "Rollout progress")
            ∷ [])
          nothing;
  }

  unfoldable pub radio_group_entry : GalleryEntry M
  radio_group_entry = record {
    name = "radio-group";
    category = ui;
    render =
        component "RadioGroup"
          (("defaultValue", str "rolling") ∷ ("className", str "flex gap-4") ∷ [])
          (many (
            (element (host "div") (("className", str "flex items-center gap-2") ∷ []) (
              many (
                (component "RadioGroupItem"
                  (("value", str "rolling") ∷ ("id", str "gallery-rolling") ∷ []) nothing)
                ∷ (component "Label" (("htmlFor", str "gallery-rolling") ∷ []) (text "Rolling"))
                ∷ [])))
            ∷ (element (host "div") (("className", str "flex items-center gap-2") ∷ []) (
                many (
                  (component "RadioGroupItem"
                    (("value", str "recreate") ∷ ("id", str "gallery-recreate") ∷ []) nothing)
                  ∷ (component "Label" (("htmlFor", str "gallery-recreate") ∷ []) (text "Recreate"))
                  ∷ [])))
            ∷ []));
  }

  unfoldable pub scroll_area_entry : GalleryEntry M
  scroll_area_entry = record {
    name = "scroll-area";
    category = ui;
    render =
        component "ScrollArea"
          (("className", str "border-border h-24 w-64 rounded-md border p-3") ∷ [])
          (element (host "p") (("className", str "text-muted-foreground text-sm") ∷ []) (
            text
              "A long stream of reconciliation output that has to scroll inside its own container rather than growing the page."));
  }

  unfoldable pub select_entry : GalleryEntry M
  select_entry = record {
    name = "select";
    category = ui;
    render = component "Select" (("defaultValue", str "production") ∷ []) (
        many (
          (component "SelectTrigger"
            (("className", str "w-48") ∷ ("aria-label", str "Environment") ∷ [])
            (component "SelectValue" [] nothing))
          ∷ (component "SelectContent" [] (
              many (
                (component "SelectItem" (("value", str "production") ∷ []) (text "production"))
                ∷ (component "SelectItem" (("value", str "staging") ∷ []) (text "staging"))
                ∷ [])))
          ∷ []));
  }

  unfoldable pub separator_entry : GalleryEntry M
  separator_entry = record {
    name = "separator";
    category = ui;
    render =
        element (host "div") (("className", str "w-64") ∷ []) (component "Separator" [] nothing);
  }

  unfoldable pub sheet_entry : GalleryEntry M
  sheet_entry = record {
    name = "sheet";
    category = ui;
    render = component "Sheet" [] (
        many (
          (component "SheetTrigger" (("asChild", bool true) ∷ []) (
            component "Button" (("size", str "sm") ∷ ("variant", str "outline") ∷ [])
              (text "Open sheet")))
          ∷ (component "SheetContent" [] (
              component "SheetHeader" [] (
                many (
                  (component "SheetTitle" [] (text "Operation timeline"))
                  ∷ (component "SheetDescription" [] (text "Every step of the current rollout."))
                  ∷ []))))
          ∷ []));
  }

  unfoldable pub skeleton_entry : GalleryEntry M
  skeleton_entry = record {
    name = "skeleton";
    category = ui;
    render = element (host "div") (("className", str "flex w-64 flex-col gap-2") ∷ []) (
        many (
          (component "Skeleton" (("className", str "h-4 w-full") ∷ []) nothing)
          ∷ (component "Skeleton" (("className", str "h-4 w-2/3") ∷ []) nothing)
          ∷ []));
  }

  unfoldable pub slider_entry : GalleryEntry M
  slider_entry = record {
    name = "slider";
    category = ui;
    render = component "ControlledSlider" [] nothing;
  }

  unfoldable pub spinner_entry : GalleryEntry M
  spinner_entry = record {
    name = "spinner";
    category = ui;
    render = component "Spinner" [] nothing;
  }
