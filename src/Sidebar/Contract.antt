-- ===== src/Sidebar/Contract.antt =====
-- Parts of the sidebar keep the contract of a part.
use opanel.Common.{String, Bool, ℕ, Option, List, [], ◌∷◌, All, refl}
use opanel.Dom.{Props, Node, get}
use opanel.Ui.Cn.{ClassLibs}
use opanel.Ui.Contract.{IsPart, part-IsPart}
use opanel.Sidebar.Parts.{
  sidebar_inset, sidebar_header, sidebar_footer, sidebar_content, sidebar_group,
  sidebar_group_label, sidebar_group_action, sidebar_group_content, sidebar_menu, sidebar_menu_item,
  sidebar_menu_action, sidebar_menu_badge, sidebar_menu_sub, sidebar_menu_sub_item,
  sidebar_menu_sub_button,
}

module _ {M : Type 0} (L : ClassLibs) (flag : Option Bool) (choice : Option String)
    (size : Option ℕ) where
  -- The parts of the sidebar, each by its slot.
  abbrev pub sidebar_parts : List (String × (Props M → Node M))
  sidebar_parts =
      ("sidebar-inset", sidebar_inset L)
      ∷ ("sidebar-header", sidebar_header L)
      ∷ ("sidebar-footer", sidebar_footer L)
      ∷ ("sidebar-content", sidebar_content L)
      ∷ ("sidebar-group", sidebar_group L)
      ∷ ("sidebar-group-label", sidebar_group_label L flag)
      ∷ ("sidebar-group-action", sidebar_group_action L flag)
      ∷ ("sidebar-group-content", sidebar_group_content L)
      ∷ ("sidebar-menu", sidebar_menu L)
      ∷ ("sidebar-menu-item", sidebar_menu_item L)
      ∷ ("sidebar-menu-action", sidebar_menu_action L flag flag)
      ∷ ("sidebar-menu-badge", sidebar_menu_badge L)
      ∷ ("sidebar-menu-sub", sidebar_menu_sub L)
      ∷ ("sidebar-menu-sub-item", sidebar_menu_sub_item L)
      ∷ ("sidebar-menu-sub-button", sidebar_menu_sub_button L flag choice flag)
      ∷ []

  -- Each of the listed parts of the sidebar keeps the contract of a part: it has its
  -- `data-slot`, a prop of the caller wins over its own, it shows the caller's children, and its class is `cn` of its classes
  -- with the caller's class after them.
  pub sidebar_parts-IsPart : All (λ entry. IsPart L entry.0 entry.1) sidebar_parts
  unfolding get sidebar_inset sidebar_header sidebar_footer sidebar_content sidebar_group
      sidebar_group_label sidebar_group_action sidebar_group_content sidebar_menu sidebar_menu_item
      sidebar_menu_action sidebar_menu_badge sidebar_menu_sub sidebar_menu_sub_item
      sidebar_menu_sub_button
  sidebar_parts-IsPart = (
    part-IsPart L _ _ _ _ refl,
    (
      part-IsPart L _ _ _ _ refl,
      (
        part-IsPart L _ _ _ _ refl,
        (
          part-IsPart L _ _ _ _ refl,
          (
            part-IsPart L _ _ _ _ refl,
            (
              part-IsPart L _ _ _ _ refl,
              (
                part-IsPart L _ _ _ _ refl,
                (
                  part-IsPart L _ _ _ _ refl,
                  (
                    part-IsPart L _ _ _ _ refl,
                    (
                      part-IsPart L _ _ _ _ refl,
                      (
                        part-IsPart L _ _ _ _ refl,
                        (
                          part-IsPart L _ _ _ _ refl,
                          (
                            part-IsPart L _ _ _ _ refl,
                            (part-IsPart L _ _ _ _ refl, (part-IsPart L _ _ _ _ refl, tt)),
                          ),
                        ),
                      ),
                    ),
                  ),
                ),
              ),
            ),
          ),
        ),
      ),
    ),
  )
