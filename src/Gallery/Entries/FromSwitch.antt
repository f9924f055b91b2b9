-- ===== src/Gallery/Entries/FromSwitch.antt =====
-- The entries of app/frontend/components/features/gallery/registry.tsx from "switch" to "profile".
use opanel.Common.{String, Bool, true, false, none, some, [], ◌∷◌}
use opanel.Dom.{nothing, text, str, bool, many}
use opanel.Ui.Cn.{ClassLibs}
use opanel.Shared.Notifications.{NotificationItem}
use opanel.Shared.Notifications.Menu.{notifications}
use opanel.Gallery.Entry.{GalleryEntry, component, ui, shared}

module _ {M : Type 0} where
  unfoldable pub switch_entry : GalleryEntry M
  switch_entry = record {
    name = "switch";
    category = ui;
    render = component "ControlledSwitch" [] nothing;
  }

  unfoldable pub table_entry : GalleryEntry M
  table_entry = record {
    name = "table";
    category = ui;
    render = component "Table" (("className", str "w-72") ∷ []) (
        many (
          (component "TableHeader" [] (
            component "TableRow" [] (
              many (
                (component "TableHead" [] (text "Task"))
                ∷ (component "TableHead" [] (text "Node"))
                ∷ []))))
          ∷ (component "TableBody" [] (
              many (
                (component "TableRow" [] (
                  many (
                    (component "TableCell" [] (text "api.1"))
                    ∷ (component "TableCell" [] (text "node-a"))
                    ∷ [])))
                ∷ (component "TableRow" [] (
                    many (
                      (component "TableCell" [] (text "api.2"))
                      ∷ (component "TableCell" [] (text "node-b"))
                      ∷ [])))
                ∷ [])))
          ∷ []));
  }

  unfoldable pub tabs_entry : GalleryEntry M
  tabs_entry = record {
    name = "tabs";
    category = ui;
    render = component "Tabs" (("defaultValue", str "overview") ∷ ("className", str "w-72") ∷ []) (
        many (
          (component "TabsList" [] (
            many (
              (component "TabsTrigger" (("value", str "overview") ∷ []) (text "Overview"))
              ∷ (component "TabsTrigger" (("value", str "logs") ∷ []) (text "Logs"))
              ∷ [])))
          ∷ (component "TabsContent"
              (("value", str "overview") ∷ ("className", str "text-muted-foreground text-sm") ∷ [])
              (text "3/3 tasks healthy."))
          ∷ (component "TabsContent"
              (("value", str "logs") ∷ ("className", str "text-muted-foreground text-sm") ∷ [])
              (text "Streaming from 3 tasks."))
          ∷ []));
  }

  unfoldable pub textarea_entry : GalleryEntry M
  textarea_entry = record {
    name = "textarea";
    category = ui;
    render =
        component "Textarea"
          (("className", str "w-64")
            ∷ ("defaultValue", str "Reason for this rollback")
            ∷ ("aria-label", str "Rollback reason")
            ∷ [])
          nothing;
  }

  unfoldable pub title_entry : GalleryEntry M
  title_entry = record {
    name = "title";
    category = ui;
    render =
        component "Title"
          (("title", str "Operations") ∷ ("subtitle", str "Live view of every running task.") ∷ [])
          nothing;
  }

  unfoldable pub toggle_entry : GalleryEntry M
  toggle_entry = record {
    name = "toggle";
    category = ui;
    render =
        component "Toggle" (("aria-label", str "Follow logs") ∷ [])
          (component "Icons.alert" [] nothing);
  }

  unfoldable pub toggle_group_entry : GalleryEntry M
  toggle_group_entry = record {
    name = "toggle-group";
    category = ui;
    render = component "ToggleGroup" (("type", str "single") ∷ ("defaultValue", str "1h") ∷ []) (
        many (
          (component "ToggleGroupItem" (("value", str "1h") ∷ []) (text "1h"))
          ∷ (component "ToggleGroupItem" (("value", str "24h") ∷ []) (text "24h"))
          ∷ []));
  }

  unfoldable pub tooltip_entry : GalleryEntry M
  tooltip_entry = record {
    name = "tooltip";
    category = ui;
    render = component "TooltipProvider" [] (
        component "Tooltip" [] (
          many (
            (component "TooltipTrigger" (("asChild", bool true) ∷ []) (
              component "Button" (("size", str "sm") ∷ ("variant", str "outline") ∷ [])
                (text "Hover")))
            ∷ (component "TooltipContent" [] (text "Desired revision 12, applied revision 12."))
            ∷ [])));
  }

  abbrev item : String → String → String → Bool → NotificationItem M
  item id title description read = record {
    id = id;
    title = text title;
    description = some (text description);
    timestamp = none;
    read = some read;
    avatar_src = none;
    avatar_alt = none;
    avatar_fallback = none;
    href = none;
  }

  -- The element of this entry is rendered: its props hold records, which attributes here do not.
  unfoldable pub notifications_entry : ClassLibs → GalleryEntry M
  notifications_entry L = record {
    name = "notifications";
    category = shared;
    render = notifications L (record {
      notifications = some (
          item "1" "Rollout finished" "api · production" false
          ∷ item "2" "Certificate renewed" "app.example.com" true
          ∷ []);
      label = none;
      empty_label = none;
      view_all_label = none;
      view_all_href = none;
      unread_count = some 2;
      on_notification_select = none;
      on_view_all = none;
      disabled = none;
      class_name = none;
      content_class_name = none;
      align = none;
      side = none;
    });
  }

  unfoldable pub profile_entry : GalleryEntry M
  profile_entry = record {
    name = "profile";
    category = shared;
    render =
        component "Profile"
          (("name", str "Douglas Prado") ∷ ("email", str "operator@example.com") ∷ []) nothing;
  }
