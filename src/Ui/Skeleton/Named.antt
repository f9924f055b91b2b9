-- ===== src/Ui/Skeleton/Named.antt =====
-- The placeholders that each component of app/frontend/components names for itself, in its own
-- skeleton.tsx.
use opanel.Ui.Cn.{ClassLibs}
use opanel.Ui.Skeleton.Layout.{
  ComponentSkeleton, create_component_skeleton, avatar, badge, breadcrumb, button, button_group,
  control, field, icon, list, media, message, navigation, overlay, pagination, panel, profile,
  progress, separator, slider, spinner, table, tabs, text, textarea, title,
}

module _ {M : Type 0} (L : ClassLibs) where
  abbrev pub skeleton_sidebar : ComponentSkeleton M
  skeleton_sidebar = create_component_skeleton L "SkeletonSidebar" navigation

  abbrev pub skeleton_profile : ComponentSkeleton M
  skeleton_profile = create_component_skeleton L "SkeletonProfile" profile

  abbrev pub skeleton_accordion : ComponentSkeleton M
  skeleton_accordion = create_component_skeleton L "SkeletonAccordion" list

  abbrev pub skeleton_alert_dialog : ComponentSkeleton M
  skeleton_alert_dialog = create_component_skeleton L "SkeletonAlertDialog" overlay

  abbrev pub skeleton_alert : ComponentSkeleton M
  skeleton_alert = create_component_skeleton L "SkeletonAlert" panel

  abbrev pub skeleton_aspect_ratio : ComponentSkeleton M
  skeleton_aspect_ratio = create_component_skeleton L "SkeletonAspectRatio" media

  abbrev pub skeleton_avatar : ComponentSkeleton M
  skeleton_avatar = create_component_skeleton L "SkeletonAvatar" avatar

  abbrev pub skeleton_badge : ComponentSkeleton M
  skeleton_badge = create_component_skeleton L "SkeletonBadge" badge

  abbrev pub skeleton_breadcrumb : ComponentSkeleton M
  skeleton_breadcrumb = create_component_skeleton L "SkeletonBreadcrumb" breadcrumb

  abbrev pub skeleton_button_group : ComponentSkeleton M
  skeleton_button_group = create_component_skeleton L "SkeletonButtonGroup" button_group

  abbrev pub skeleton_button : ComponentSkeleton M
  skeleton_button = create_component_skeleton L "SkeletonButton" button

  abbrev pub skeleton_card : ComponentSkeleton M
  skeleton_card = create_component_skeleton L "SkeletonCard" panel

  abbrev pub skeleton_checkbox : ComponentSkeleton M
  skeleton_checkbox = create_component_skeleton L "SkeletonCheckbox" control

  abbrev pub skeleton_collapsible : ComponentSkeleton M
  skeleton_collapsible = create_component_skeleton L "SkeletonCollapsible" list

  abbrev pub skeleton_context_menu : ComponentSkeleton M
  skeleton_context_menu = create_component_skeleton L "SkeletonContextMenu" list

  abbrev pub skeleton_modal : ComponentSkeleton M
  skeleton_modal = create_component_skeleton L "SkeletonModal" overlay

  abbrev pub skeleton_direction : ComponentSkeleton M
  skeleton_direction = create_component_skeleton L "SkeletonDirection" panel

  abbrev pub skeleton_dropdown_menu : ComponentSkeleton M
  skeleton_dropdown_menu = create_component_skeleton L "SkeletonDropdownMenu" list

  abbrev pub skeleton_empty : ComponentSkeleton M
  skeleton_empty = create_component_skeleton L "SkeletonEmpty" panel

  abbrev pub skeleton_field : ComponentSkeleton M
  skeleton_field = create_component_skeleton L "SkeletonField" field

  abbrev pub skeleton_hover_card : ComponentSkeleton M
  skeleton_hover_card = create_component_skeleton L "SkeletonHoverCard" panel

  abbrev pub skeleton_icons : ComponentSkeleton M
  skeleton_icons = create_component_skeleton L "SkeletonIcons" icon

  abbrev pub skeleton_input_group : ComponentSkeleton M
  skeleton_input_group = create_component_skeleton L "SkeletonInputGroup" field

  abbrev pub skeleton_input : ComponentSkeleton M
  skeleton_input = create_component_skeleton L "SkeletonInput" field

  abbrev pub skeleton_item : ComponentSkeleton M
  skeleton_item = create_component_skeleton L "SkeletonItem" panel

  abbrev pub skeleton_kbd : ComponentSkeleton M
  skeleton_kbd = create_component_skeleton L "SkeletonKbd" text

  abbrev pub skeleton_label : ComponentSkeleton M
  skeleton_label = create_component_skeleton L "SkeletonLabel" text

  abbrev pub skeleton_marker : ComponentSkeleton M
  skeleton_marker = create_component_skeleton L "SkeletonMarker" text

  abbrev pub skeleton_menubar : ComponentSkeleton M
  skeleton_menubar = create_component_skeleton L "SkeletonMenubar" navigation

  abbrev pub skeleton_message : ComponentSkeleton M
  skeleton_message = create_component_skeleton L "SkeletonMessage" message

  abbrev pub skeleton_navigation_menu : ComponentSkeleton M
  skeleton_navigation_menu = create_component_skeleton L "SkeletonNavigationMenu" navigation

  abbrev pub skeleton_pagination : ComponentSkeleton M
  skeleton_pagination = create_component_skeleton L "SkeletonPagination" pagination

  abbrev pub skeleton_popover : ComponentSkeleton M
  skeleton_popover = create_component_skeleton L "SkeletonPopover" panel

  abbrev pub skeleton_progress : ComponentSkeleton M
  skeleton_progress = create_component_skeleton L "SkeletonProgress" progress

  abbrev pub skeleton_radio_group : ComponentSkeleton M
  skeleton_radio_group = create_component_skeleton L "SkeletonRadioGroup" list

  abbrev pub skeleton_scroll_area : ComponentSkeleton M
  skeleton_scroll_area = create_component_skeleton L "SkeletonScrollArea" panel

  abbrev pub skeleton_select : ComponentSkeleton M
  skeleton_select = create_component_skeleton L "SkeletonSelect" field

  abbrev pub skeleton_separator : ComponentSkeleton M
  skeleton_separator = create_component_skeleton L "SkeletonSeparator" separator

  abbrev pub skeleton_sheet : ComponentSkeleton M
  skeleton_sheet = create_component_skeleton L "SkeletonSheet" overlay

  abbrev pub skeleton_slider : ComponentSkeleton M
  skeleton_slider = create_component_skeleton L "SkeletonSlider" slider

  abbrev pub skeleton_spinner : ComponentSkeleton M
  skeleton_spinner = create_component_skeleton L "SkeletonSpinner" spinner

  abbrev pub skeleton_switch : ComponentSkeleton M
  skeleton_switch = create_component_skeleton L "SkeletonSwitch" control

  abbrev pub skeleton_table : ComponentSkeleton M
  skeleton_table = create_component_skeleton L "SkeletonTable" table

  abbrev pub skeleton_tabs : ComponentSkeleton M
  skeleton_tabs = create_component_skeleton L "SkeletonTabs" tabs

  abbrev pub skeleton_textarea : ComponentSkeleton M
  skeleton_textarea = create_component_skeleton L "SkeletonTextarea" textarea

  abbrev pub skeleton_title : ComponentSkeleton M
  skeleton_title = create_component_skeleton L "SkeletonTitle" title

  abbrev pub skeleton_toggle_group : ComponentSkeleton M
  skeleton_toggle_group = create_component_skeleton L "SkeletonToggleGroup" control

  abbrev pub skeleton_toggle : ComponentSkeleton M
  skeleton_toggle = create_component_skeleton L "SkeletonToggle" control

  abbrev pub skeleton_tooltip : ComponentSkeleton M
  skeleton_tooltip = create_component_skeleton L "SkeletonTooltip" text
