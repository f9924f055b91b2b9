-- ===== src/Ui/Contract/Surface.antt =====
-- Parts of cards, tables, fields and messages keep the contract of a part.
use opanel.Common.{String, Bool, ℕ, Option, List, [], ◌∷◌, All, refl}
use opanel.Dom.{Props, Node, get}
use opanel.Ui.Cn.{ClassLibs}
use opanel.Ui.Contract.{IsPart, part-IsPart}
use opanel.Ui.Alert.{alert, alert_title, alert_description, alert_action}
use opanel.Ui.Avatar.{avatar, avatar_image, avatar_fallback, avatar_group, avatar_group_count}
use opanel.Ui.Badge.{badge}
use opanel.Ui.Card.{
  card, card_header, card_title, card_description, card_action, card_content, card_footer,
}
use opanel.Ui.Empty.{empty, empty_header, empty_title, empty_description, empty_content}
use opanel.Ui.Field.{
  field_set, field_legend, field_group, field_content, field_title, field_description,
}
use opanel.Ui.Label.{label}
use opanel.Ui.Message.{
  message_group, message, message_avatar, message_content, message_header, message_footer,
}
use opanel.Ui.Skeleton.{skeleton}
use opanel.Ui.Table.{
  table_header, table_body, table_footer, table_row, table_head, table_cell, table_caption,
}

module _ {M : Type 0} (L : ClassLibs) (flag : Option Bool) (choice : Option String)
    (size : Option ℕ) where
  -- The parts, each by its slot.
  abbrev pub surface_parts : List (String × (Props M → Node M))
  surface_parts =
      ("alert", alert L choice)
      ∷ ("alert-title", alert_title L)
      ∷ ("alert-description", alert_description L)
      ∷ ("alert-action", alert_action L)
      ∷ ("avatar", avatar L choice)
      ∷ ("avatar-image", avatar_image L)
      ∷ ("avatar-fallback", avatar_fallback L)
      ∷ ("avatar-group", avatar_group L)
      ∷ ("avatar-group-count", avatar_group_count L)
      ∷ ("badge", badge L choice flag)
      ∷ ("card", card L choice)
      ∷ ("card-header", card_header L)
      ∷ ("card-title", card_title L)
      ∷ ("card-description", card_description L)
      ∷ ("card-action", card_action L)
      ∷ ("card-content", card_content L)
      ∷ ("card-footer", card_footer L)
      ∷ ("empty", empty L)
      ∷ ("empty-header", empty_header L)
      ∷ ("empty-title", empty_title L)
      ∷ ("empty-description", empty_description L)
      ∷ ("empty-content", empty_content L)
      ∷ ("field-set", field_set L)
      ∷ ("field-legend", field_legend L choice)
      ∷ ("field-group", field_group L)
      ∷ ("field-content", field_content L)
      ∷ ("field-label", field_title L)
      ∷ ("field-description", field_description L)
      ∷ ("label", label L)
      ∷ ("message-group", message_group L)
      ∷ ("message", message L choice)
      ∷ ("message-avatar", message_avatar L)
      ∷ ("message-content", message_content L)
      ∷ ("message-header", message_header L)
      ∷ ("message-footer", message_footer L)
      ∷ ("skeleton", skeleton L)
      ∷ ("table-header", table_header L)
      ∷ ("table-body", table_body L)
      ∷ ("table-footer", table_footer L)
      ∷ ("table-row", table_row L)
      ∷ ("table-head", table_head L)
      ∷ ("table-cell", table_cell L)
      ∷ ("table-caption", table_caption L)
      ∷ []

  -- Each of the listed parts of the alert, avatar, badge, card, empty, field, label, message, skeleton and
  -- table keeps the contract of a part, with whatever flags, variant and size it is
  -- given.
  pub surface_parts-IsPart : All (λ entry. IsPart L entry.0 entry.1) surface_parts
  unfolding get alert alert_title alert_description alert_action avatar avatar_image avatar_fallback
      avatar_group avatar_group_count badge card card_header card_title card_description card_action
      card_content card_footer empty empty_header empty_title empty_description empty_content
      field_set field_legend field_group field_content field_title field_description label
      message_group message message_avatar message_content message_header message_footer skeleton
      table_header table_body table_footer table_row table_head table_cell table_caption
  surface_parts-IsPart = (
    part-IsPart L _ _ _ _ refl,
    (
      part-IsPart L _ _ _ _ refl,
      (
        part-IsPart L _ _ _ _ refl,
        (
          part-IsPart L _ _ _ _ refl,
          (
            part-IsPart L _ _ _ _ refl,
            (
              part-IsPart L _ _ _ _ refl,
              (
                part-IsPart L _ _ _ _ refl,
                (
                  part-IsPart L _ _ _ _ refl,
                  (
                    part-IsPart L _ _ _ _ refl,
                    (
                      part-IsPart L _ _ _ _ refl,
                      (
                        part-IsPart L _ _ _ _ refl,
                        (
                          part-IsPart L _ _ _ _ refl,
                          (
                            part-IsPart L _ _ _ _ refl,
                            (
                              part-IsPart L _ _ _ _ refl,
                              (
                                part-IsPart L _ _ _ _ refl,
                                (
                                  part-IsPart L _ _ _ _ refl,
                                  (
                                    part-IsPart L _ _ _ _ refl,
                                    (
                                      part-IsPart L _ _ _ _ refl,
                                      (
                                        part-IsPart L _ _ _ _ refl,
                                        (
                                          part-IsPart L _ _ _ _ refl,
                                          (
                                            part-IsPart L _ _ _ _ refl,
                                            (
                                              part-IsPart L _ _ _ _ refl,
                                              (
                                                part-IsPart L _ _ _ _ refl,
                                                (
                                                  part-IsPart L _ _ _ _ refl,
                                                  (
                                                    part-IsPart L _ _ _ _ refl,
                                                    (
                                                      part-IsPart L _ _ _ _ refl,
                                                      (
                                                        part-IsPart L _ _ _ _ refl,
                                                        (
                                                          part-IsPart L _ _ _ _ refl,
                                                          (
                                                            part-IsPart L _ _ _ _ refl,
                                                            (
                                                            part-IsPart L _ _ _ _ refl,
                                                            (
                                                            part-IsPart L _ _ _ _ refl,
                                                            (
                                                            part-IsPart L _ _ _ _ refl,
                                                            (
                                                            part-IsPart L _ _ _ _ refl,
                                                            (
                                                            part-IsPart L _ _ _ _ refl,
                                                            (
                                                            part-IsPart L _ _ _ _ refl,
                                                            (
                                                            part-IsPart L _ _ _ _ refl,
                                                            (
                                                            part-IsPart L _ _ _ _ refl,
                                                            (
                                                            part-IsPart L _ _ _ _ refl,
                                                            (
                                                            part-IsPart L _ _ _ _ refl,
                                                            (
                                                            part-IsPart L _ _ _ _ refl,
                                                            (
                                                            part-IsPart L _ _ _ _ refl,
                                                            (
                                                            part-IsPart L _ _ _ _ refl,
                                                            (part-IsPart L _ _ _ _ refl, tt),
                                                            ),
                                                            ),
                                                            ),
                                                            ),
                                                            ),
                                                            ),
                                                            ),
                                                            ),
                                                            ),
                                                            ),
                                                            ),
                                                            ),
                                                            ),
                                                          ),
                                                        ),
                                                      ),
                                                    ),
                                                  ),
                                                ),
                                              ),
                                            ),
                                          ),
                                        ),
                                      ),
                                    ),
                                  ),
                                ),
                              ),
                            ),
                          ),
                        ),
                      ),
                    ),
                  ),
                ),
              ),
            ),
          ),
        ),
      ),
    ),
  )
