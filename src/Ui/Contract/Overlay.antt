-- ===== src/Ui/Contract/Overlay.antt =====
-- Parts of dialogs and menus keep the contract of a part.
use opanel.Common.{String, Bool, ℕ, Option, List, [], ◌∷◌, All, refl}
use opanel.Dom.{Props, Node, get}
use opanel.Ui.Cn.{ClassLibs}
use opanel.Ui.Contract.{IsPart, part-IsPart}
use opanel.Ui.AlertDialog.{
  alert_dialog_overlay, alert_dialog_header, alert_dialog_footer, alert_dialog_media,
  alert_dialog_title, alert_dialog_description,
}
use opanel.Ui.Dialog.{modal_overlay, modal_header, modal_title, modal_description}
use opanel.Ui.Sheet.{sheet_overlay, sheet_header, sheet_footer, sheet_title, sheet_description}
use opanel.Ui.DropdownMenu.{
  dropdown_menu_item, dropdown_menu_label, dropdown_menu_separator, dropdown_menu_shortcut,
  dropdown_menu_sub_content,
}
use opanel.Ui.ContextMenu.{
  context_menu_trigger, context_menu_item, context_menu_sub_content, context_menu_label,
  context_menu_separator, context_menu_shortcut,
}
use opanel.Ui.Menubar.{
  menubar, menubar_trigger, menubar_item, menubar_label, menubar_separator, menubar_shortcut,
  menubar_sub_content,
}
use opanel.Ui.Select.{select_group, select_label, select_separator}
use opanel.Ui.Popover.{popover_header, popover_title, popover_description}

module _ {M : Type 0} (L : ClassLibs) (flag : Option Bool) (choice : Option String)
    (size : Option ℕ) where
  -- The parts, each by its slot.
  abbrev pub overlay_parts : List (String × (Props M → Node M))
  overlay_parts =
      ("alert-dialog-overlay", alert_dialog_overlay L)
      ∷ ("alert-dialog-header", alert_dialog_header L)
      ∷ ("alert-dialog-footer", alert_dialog_footer L)
      ∷ ("alert-dialog-media", alert_dialog_media L)
      ∷ ("alert-dialog-title", alert_dialog_title L)
      ∷ ("alert-dialog-description", alert_dialog_description L)
      ∷ ("modal-overlay", modal_overlay L)
      ∷ ("modal-header", modal_header L)
      ∷ ("modal-title", modal_title L)
      ∷ ("modal-description", modal_description L)
      ∷ ("sheet-overlay", sheet_overlay L)
      ∷ ("sheet-header", sheet_header L)
      ∷ ("sheet-footer", sheet_footer L)
      ∷ ("sheet-title", sheet_title L)
      ∷ ("sheet-description", sheet_description L)
      ∷ ("dropdown-menu-item", dropdown_menu_item L flag choice)
      ∷ ("dropdown-menu-label", dropdown_menu_label L flag)
      ∷ ("dropdown-menu-separator", dropdown_menu_separator L)
      ∷ ("dropdown-menu-shortcut", dropdown_menu_shortcut L)
      ∷ ("dropdown-menu-sub-content", dropdown_menu_sub_content L)
      ∷ ("context-menu-trigger", context_menu_trigger L)
      ∷ ("context-menu-item", context_menu_item L flag choice)
      ∷ ("context-menu-sub-content", context_menu_sub_content L)
      ∷ ("context-menu-label", context_menu_label L flag)
      ∷ ("context-menu-separator", context_menu_separator L)
      ∷ ("context-menu-shortcut", context_menu_shortcut L)
      ∷ ("menubar", menubar L)
      ∷ ("menubar-trigger", menubar_trigger L)
      ∷ ("menubar-item", menubar_item L flag choice)
      ∷ ("menubar-label", menubar_label L flag)
      ∷ ("menubar-separator", menubar_separator L)
      ∷ ("menubar-shortcut", menubar_shortcut L)
      ∷ ("menubar-sub-content", menubar_sub_content L)
      ∷ ("select-group", select_group L)
      ∷ ("select-label", select_label L)
      ∷ ("select-separator", select_separator L)
      ∷ ("popover-header", popover_header L)
      ∷ ("popover-title", popover_title L)
      ∷ ("popover-description", popover_description L)
      ∷ []

  -- Each of the listed parts of the dialogs, the popover, the select, the sheet and the menus keeps
  -- the contract of a part, with whatever flags, variant and size it is given.
  pub overlay_parts-IsPart : All (λ entry. IsPart L entry.0 entry.1) overlay_parts
  unfolding get alert_dialog_overlay alert_dialog_header alert_dialog_footer alert_dialog_media
      alert_dialog_title alert_dialog_description modal_overlay modal_header modal_title
      modal_description sheet_overlay sheet_header sheet_footer sheet_title sheet_description
      dropdown_menu_item dropdown_menu_label dropdown_menu_separator dropdown_menu_shortcut
      dropdown_menu_sub_content context_menu_trigger context_menu_item context_menu_sub_content
      context_menu_label context_menu_separator context_menu_shortcut menubar menubar_trigger
      menubar_item menubar_label menubar_separator menubar_shortcut menubar_sub_content select_group
      select_label select_separator popover_header popover_title popover_description
  overlay_parts-IsPart = (
    part-IsPart L _ _ _ _ refl,
    (
      part-IsPart L _ _ _ _ refl,
      (
        part-IsPart L _ _ _ _ refl,
        (
          part-IsPart L _ _ _ _ refl,
          (
            part-IsPart L _ _ _ _ refl,
            (
              part-IsPart L _ _ _ _ refl,
              (
                part-IsPart L _ _ _ _ refl,
                (
                  part-IsPart L _ _ _ _ refl,
                  (
                    part-IsPart L _ _ _ _ refl,
                    (
                      part-IsPart L _ _ _ _ refl,
                      (
                        part-IsPart L _ _ _ _ refl,
                        (
                          part-IsPart L _ _ _ _ refl,
                          (
                            part-IsPart L _ _ _ _ refl,
                            (
                              part-IsPart L _ _ _ _ refl,
                              (
                                part-IsPart L _ _ _ _ refl,
                                (
                                  part-IsPart L _ _ _ _ refl,
                                  (
                                    part-IsPart L _ _ _ _ refl,
                                    (
                                      part-IsPart L _ _ _ _ refl,
                                      (
                                        part-IsPart L _ _ _ _ refl,
                                        (
                                          part-IsPart L _ _ _ _ refl,
                                          (
                                            part-IsPart L _ _ _ _ refl,
                                            (
                                              part-IsPart L _ _ _ _ refl,
                                              (
                                                part-IsPart L _ _ _ _ refl,
                                                (
                                                  part-IsPart L _ _ _ _ refl,
                                                  (
                                                    part-IsPart L _ _ _ _ refl,
                                                    (
                                                      part-IsPart L _ _ _ _ refl,
                                                      (
                                                        part-IsPart L _ _ _ _ refl,
                                                        (
                                                          part-IsPart L _ _ _ _ refl,
                                                          (
                                                            part-IsPart L _ _ _ _ refl,
                                                            (
                                                            part-IsPart L _ _ _ _ refl,
                                                            (
                                                            part-IsPart L _ _ _ _ refl,
                                                            (
                                                            part-IsPart L _ _ _ _ refl,
                                                            (
                                                            part-IsPart L _ _ _ _ refl,
                                                            (
                                                            part-IsPart L _ _ _ _ refl,
                                                            (
                                                            part-IsPart L _ _ _ _ refl,
                                                            (
                                                            part-IsPart L _ _ _ _ refl,
                                                            (
                                                            part-IsPart L _ _ _ _ refl,
                                                            (
                                                            part-IsPart L _ _ _ _ refl,
                                                            (part-IsPart L _ _ _ _ refl, tt),
                                                            ),
                                                            ),
                                                            ),
                                                            ),
                                                            ),
                                                            ),
                                                            ),
                                                            ),
                                                            ),
                                                          ),
                                                        ),
                                                      ),
                                                    ),
                                                  ),
                                                ),
                                              ),
                                            ),
                                          ),
                                        ),
                                      ),
                                    ),
                                  ),
                                ),
                              ),
                            ),
                          ),
                        ),
                      ),
                    ),
                  ),
                ),
              ),
            ),
          ),
        ),
      ),
    ),
  )
