-- ===== src/Ui/Contract/Control.antt =====
-- Parts of the navigation and of the controls keep the contract of a part.
use opanel.Common.{String, Bool, ℕ, Option, List, [], ◌∷◌, All, refl}
use opanel.Dom.{Props, Node, get}
use opanel.Ui.Cn.{ClassLibs}
use opanel.Ui.Contract.{IsPart, part-IsPart}
use opanel.Ui.Accordion.{accordion, accordion_item}
use opanel.Ui.Breadcrumb.{breadcrumb_list, breadcrumb_item, breadcrumb_link, breadcrumb_page}
use opanel.Ui.InputGroup.{input_group}
use opanel.Ui.Item.{
  item_content, item_title, item_description, item_actions, item_header, item_footer,
}
use opanel.Ui.Kbd.{kbd, kbd_group}
use opanel.Ui.Marker.{marker_icon, marker_content}
use opanel.Ui.NavigationMenu.{
  navigation_menu_list, navigation_menu_item, navigation_menu_content, navigation_menu_link,
}
use opanel.Ui.Pagination.{pagination_content}
use opanel.Ui.RadioGroup.{radio_group}
use opanel.Ui.Tabs.{tabs, tabs_list, tabs_trigger, tabs_content}
use opanel.Ui.Textarea.{textarea}

module _ {M : Type 0} (L : ClassLibs) (flag : Option Bool) (choice : Option String)
    (size : Option ℕ) where
  -- The parts, each by its slot.
  abbrev pub control_parts : List (String × (Props M → Node M))
  control_parts =
      ("accordion", accordion L)
      ∷ ("accordion-item", accordion_item L)
      ∷ ("breadcrumb-list", breadcrumb_list L)
      ∷ ("breadcrumb-item", breadcrumb_item L)
      ∷ ("breadcrumb-link", breadcrumb_link L flag)
      ∷ ("breadcrumb-page", breadcrumb_page L)
      ∷ ("input-group", input_group L)
      ∷ ("item-content", item_content L)
      ∷ ("item-title", item_title L)
      ∷ ("item-description", item_description L)
      ∷ ("item-actions", item_actions L)
      ∷ ("item-header", item_header L)
      ∷ ("item-footer", item_footer L)
      ∷ ("kbd", kbd L)
      ∷ ("kbd-group", kbd_group L)
      ∷ ("marker-icon", marker_icon L)
      ∷ ("marker-content", marker_content L)
      ∷ ("navigation-menu-list", navigation_menu_list L)
      ∷ ("navigation-menu-item", navigation_menu_item L)
      ∷ ("navigation-menu-content", navigation_menu_content L)
      ∷ ("navigation-menu-link", navigation_menu_link L)
      ∷ ("pagination-content", pagination_content L)
      ∷ ("radio-group", radio_group L)
      ∷ ("tabs", tabs L choice)
      ∷ ("tabs-list", tabs_list L choice)
      ∷ ("tabs-trigger", tabs_trigger L)
      ∷ ("tabs-content", tabs_content L)
      ∷ ("textarea", textarea L)
      ∷ []

  -- Each of the listed parts of the accordion, breadcrumb, input group, item, kbd, marker, navigation menu,
  -- pagination, radio group, tabs and text area keeps the contract of a part,
  -- with whatever flags, variant and size it is given.
  pub control_parts-IsPart : All (λ entry. IsPart L entry.0 entry.1) control_parts
  unfolding get accordion accordion_item breadcrumb_list breadcrumb_item breadcrumb_link
      breadcrumb_page input_group item_content item_title item_description item_actions item_header
      item_footer kbd kbd_group marker_icon marker_content navigation_menu_list navigation_menu_item
      navigation_menu_content navigation_menu_link pagination_content radio_group tabs tabs_list
      tabs_trigger tabs_content textarea
  control_parts-IsPart = (
    part-IsPart L _ _ _ _ refl,
    (
      part-IsPart L _ _ _ _ refl,
      (
        part-IsPart L _ _ _ _ refl,
        (
          part-IsPart L _ _ _ _ refl,
          (
            part-IsPart L _ _ _ _ refl,
            (
              part-IsPart L _ _ _ _ refl,
              (
                part-IsPart L _ _ _ _ refl,
                (
                  part-IsPart L _ _ _ _ refl,
                  (
                    part-IsPart L _ _ _ _ refl,
                    (
                      part-IsPart L _ _ _ _ refl,
                      (
                        part-IsPart L _ _ _ _ refl,
                        (
                          part-IsPart L _ _ _ _ refl,
                          (
                            part-IsPart L _ _ _ _ refl,
                            (
                              part-IsPart L _ _ _ _ refl,
                              (
                                part-IsPart L _ _ _ _ refl,
                                (
                                  part-IsPart L _ _ _ _ refl,
                                  (
                                    part-IsPart L _ _ _ _ refl,
                                    (
                                      part-IsPart L _ _ _ _ refl,
                                      (
                                        part-IsPart L _ _ _ _ refl,
                                        (
                                          part-IsPart L _ _ _ _ refl,
                                          (
                                            part-IsPart L _ _ _ _ refl,
                                            (
                                              part-IsPart L _ _ _ _ refl,
                                              (
                                                part-IsPart L _ _ _ _ refl,
                                                (
                                                  part-IsPart L _ _ _ _ refl,
                                                  (
                                                    part-IsPart L _ _ _ _ refl,
                                                    (
                                                      part-IsPart L _ _ _ _ refl,
                                                      (
                                                        part-IsPart L _ _ _ _ refl,
                                                        (part-IsPart L _ _ _ _ refl, tt),
                                                      ),
                                                    ),
                                                  ),
                                                ),
                                              ),
                                            ),
                                          ),
                                        ),
                                      ),
                                    ),
                                  ),
                                ),
                              ),
                            ),
                          ),
                        ),
                      ),
                    ),
                  ),
                ),
              ),
            ),
          ),
        ),
      ),
    ),
  )
