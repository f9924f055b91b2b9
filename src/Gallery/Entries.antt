-- ===== src/Gallery/Entries.antt =====
-- All entries of app/frontend/components/features/gallery/registry.tsx, in its order.
pub mod FromAccordion
pub mod FromCheckbox
pub mod FromInput
pub mod FromPopover
pub mod FromSwitch
pub mod FromAppShell
use opanel.Common.{List, [], ◌∷◌}
use opanel.Ui.Cn.{ClassLibs}
use opanel.Gallery.Entry.{GalleryEntry}
use opanel.Gallery.Entries.FromAccordion.{
  accordion_entry, alert_entry, alert_dialog_entry, aspect_ratio_entry, avatar_entry, badge_entry,
  breadcrumb_entry, button_entry, button_group_entry, card_entry,
}
use opanel.Gallery.Entries.FromCheckbox.{
  checkbox_entry, collapsible_entry, context_menu_entry, dialog_entry, direction_entry,
  dropdown_menu_entry, empty_entry, field_entry, hover_card_entry, icons_entry,
}
use opanel.Gallery.Entries.FromInput.{
  input_entry, input_group_entry, item_entry, kbd_entry, label_entry, marker_entry, menubar_entry,
  message_entry, navigation_menu_entry, pagination_entry,
}
use opanel.Gallery.Entries.FromPopover.{
  popover_entry, progress_entry, radio_group_entry, scroll_area_entry, select_entry,
  separator_entry, sheet_entry, skeleton_entry, slider_entry, spinner_entry,
}
use opanel.Gallery.Entries.FromSwitch.{
  switch_entry, table_entry, tabs_entry, textarea_entry, title_entry, toggle_entry,
  toggle_group_entry, tooltip_entry, notifications_entry, profile_entry,
}
use opanel.Gallery.Entries.FromAppShell.{app_shell_entry, sidebar_entry}

unfoldable pub gallery_entries : {M : Type 0} → ClassLibs → List (GalleryEntry M)
unfolding accordion_entry alert_entry alert_dialog_entry aspect_ratio_entry avatar_entry badge_entry
    breadcrumb_entry button_entry button_group_entry card_entry checkbox_entry collapsible_entry
    context_menu_entry dialog_entry direction_entry dropdown_menu_entry empty_entry field_entry
    hover_card_entry icons_entry input_entry input_group_entry item_entry kbd_entry label_entry
    marker_entry menubar_entry message_entry navigation_menu_entry pagination_entry popover_entry
    progress_entry radio_group_entry scroll_area_entry select_entry separator_entry sheet_entry
    skeleton_entry slider_entry spinner_entry switch_entry table_entry tabs_entry textarea_entry
    title_entry toggle_entry toggle_group_entry tooltip_entry notifications_entry profile_entry
    app_shell_entry sidebar_entry
gallery_entries L =
    accordion_entry
    ∷ alert_entry
    ∷ alert_dialog_entry
    ∷ aspect_ratio_entry
    ∷ avatar_entry
    ∷ badge_entry
    ∷ breadcrumb_entry
    ∷ button_entry
    ∷ button_group_entry
    ∷ card_entry
    ∷ checkbox_entry
    ∷ collapsible_entry
    ∷ context_menu_entry
    ∷ dialog_entry
    ∷ direction_entry
    ∷ dropdown_menu_entry
    ∷ empty_entry
    ∷ field_entry
    ∷ hover_card_entry
    ∷ icons_entry
    ∷ input_entry
    ∷ input_group_entry
    ∷ item_entry
    ∷ kbd_entry
    ∷ label_entry
    ∷ marker_entry
    ∷ menubar_entry
    ∷ message_entry
    ∷ navigation_menu_entry L
    ∷ pagination_entry
    ∷ popover_entry
    ∷ progress_entry
    ∷ radio_group_entry
    ∷ scroll_area_entry
    ∷ select_entry
    ∷ separator_entry
    ∷ sheet_entry
    ∷ skeleton_entry
    ∷ slider_entry
    ∷ spinner_entry
    ∷ switch_entry
    ∷ table_entry
    ∷ tabs_entry
    ∷ textarea_entry
    ∷ title_entry
    ∷ toggle_entry
    ∷ toggle_group_entry
    ∷ tooltip_entry
    ∷ notifications_entry L
    ∷ profile_entry
    ∷ app_shell_entry
    ∷ sidebar_entry
    ∷ []
