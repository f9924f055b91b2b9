-- ===== src/Gallery/Entries/FromInput.antt =====
-- The entries of app/frontend/components/features/gallery/registry.tsx from "input" to "pagination".
use opanel.Common.{true, none, [], ◌∷◌}
use opanel.Dom.{nothing, text, str, bool, many}
use opanel.Ui.Cn.{ClassLibs}
use opanel.Ui.NavigationMenu.{navigation_menu_trigger_style}
use opanel.Gallery.Entry.{GalleryEntry, component, ui}

module _ {M : Type 0} where
  unfoldable pub input_entry : GalleryEntry M
  input_entry = record {
    name = "input";
    category = ui;
    render =
        component "Input"
          (("className", str "w-64")
            ∷ ("placeholder", str "service name")
            ∷ ("defaultValue", str "api")
            ∷ ("aria-label", str "Service name")
            ∷ [])
          nothing;
  }

  unfoldable pub input_group_entry : GalleryEntry M
  input_group_entry = record {
    name = "input-group";
    category = ui;
    render = component "InputGroup" (("className", str "w-64") ∷ []) (
        many (
          (component "InputGroupAddon" [] (text "https://"))
          ∷ (component "InputGroupInput"
              (("placeholder", str "api.example.com") ∷ ("aria-label", str "Custom domain") ∷ [])
              nothing)
          ∷ []));
  }

  unfoldable pub item_entry : GalleryEntry M
  item_entry = record {
    name = "item";
    category = ui;
    render = component "Item" (("className", str "w-72") ∷ []) (
        many (
          (component "ItemMedia" [] (component "Icons.component" [] nothing))
          ∷ (component "ItemContent" [] (
              many (
                (component "ItemTitle" [] (text "api"))
                ∷ (component "ItemDescription" [] (text "3 replicas · production"))
                ∷ [])))
          ∷ (component "ItemActions" [] (component "Badge" [] (text "running")))
          ∷ []));
  }

  unfoldable pub kbd_entry : GalleryEntry M
  kbd_entry = record {
    name = "kbd";
    category = ui;
    render =
        component "KbdGroup" []
          (many ((component "Kbd" [] (text "⌘")) ∷ (component "Kbd" [] (text "K")) ∷ []));
  }

  unfoldable pub label_entry : GalleryEntry M
  label_entry = record {
    name = "label";
    category = ui;
    render = component "Label" (("htmlFor", str "gallery-label-input") ∷ []) (text "Image digest");
  }

  unfoldable pub marker_entry : GalleryEntry M
  marker_entry = record {
    name = "marker";
    category = ui;
    render = component "Marker" [] (
        many (
          (component "MarkerIcon" [] (component "Icons.alertCircle" [] nothing))
          ∷ (component "MarkerContent" [] (text "drift detected"))
          ∷ []));
  }

  unfoldable pub menubar_entry : GalleryEntry M
  menubar_entry = record {
    name = "menubar";
    category = ui;
    render = component "Menubar" [] (
        component "MenubarMenu" [] (
          many (
            (component "MenubarTrigger" [] (text "Service"))
            ∷ (component "MenubarContent" [] (
                many (
                  (component "MenubarItem" [] (text "Restart"))
                  ∷ (component "MenubarItem" [] (text "Rollback"))
                  ∷ [])))
            ∷ [])));
  }

  unfoldable pub message_entry : GalleryEntry M
  message_entry = record {
    name = "message";
    category = ui;
    render = component "MessageGroup" (("className", str "w-72") ∷ []) (
        component "Message" [] (
          component "MessageContent" [] (
            many (
              (component "MessageHeader" [] (text "reconciler"))
              ∷ (text "Converged to the desired revision.")
              ∷ []))));
  }

  unfoldable pub navigation_menu_entry : ClassLibs → GalleryEntry M
  navigation_menu_entry L = record {
    name = "navigation-menu";
    category = ui;
    render = component "NavigationMenu" [] (
        component "NavigationMenuList" [] (
          component "NavigationMenuItem" [] (
            component "NavigationMenuLink"
              (("className", str (L.cva navigation_menu_trigger_style [] none))
                ∷ ("href", str "#")
                ∷ [])
              (text "Overview"))));
  }

  unfoldable pub pagination_entry : GalleryEntry M
  pagination_entry = record {
    name = "pagination";
    category = ui;
    render = component "Pagination" [] (
        component "PaginationContent" [] (
          many (
            (component "PaginationItem" []
              (component "PaginationPrevious" (("href", str "#") ∷ []) nothing))
            ∷ (component "PaginationItem" [] (
                component "PaginationLink" (("href", str "#") ∷ ("isActive", bool true) ∷ [])
                  (text "1")))
            ∷ (component "PaginationItem" []
                (component "PaginationNext" (("href", str "#") ∷ []) nothing))
            ∷ [])));
  }
