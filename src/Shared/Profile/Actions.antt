-- ===== src/Shared/Profile/Actions.antt =====
-- What the entries of the profile menu do, and what its avatar shows.
use opanel.Common.{Bool-cases, inl, inr, String, [], ◌∷◌, ◌≡◌, refl, or_else}
use opanel.Common.Codes.{Text}
use opanel.Dom.{texts, given_text}
use opanel.Ui.Cn.{ClassLibs}
use opanel.Ui.Part.{part}
use opanel.Ui.Button.{button}
use opanel.Ui.Avatar.{avatar, avatar_fallback, avatar_image}
use opanel.Ui.DropdownMenu.{
  dropdown_menu, dropdown_menu_content, dropdown_menu_group, dropdown_menu_item,
  dropdown_menu_label, dropdown_menu_separator, dropdown_menu_trigger,
}
use opanel.Shared.Profile.{
  ProfileProps, profile, profile_trigger, profile_content, render_avatar, settings_item,
  logout_item, fallback_shown,
}
use opanel.Shared.Initials.{initials_of}
use opanel.Shared.Initials.Words.{words, get_initials-words}

module _ {M : Type 0} (L : ClassLibs) (text_of : Text → String) (p : ProfileProps M) where
  avatar_texts : texts (render_avatar L text_of p) ≡ fallback_shown L text_of p ∷ []
  unfolding texts render_avatar avatar avatar_image avatar_fallback part
  avatar_texts = elim (Bool-cases (given_text p.avatar_src)) [
    | inl pictured ↦ rw pictured refl
    | inr plain ↦ rw plain refl
  ]

  -- Read from top to bottom, the profile shows the initials, the name and the address on its button,
  -- the same three again in its menu, and then the labels of the two entries. The initials are the
  -- caller's, or else those of the words of the name.
  pub profile-texts :
      let initials = or_else p.fallback (text_of (initials_of (words p.name))) in
      texts (profile L text_of p)
      ≡ initials
        ∷ text_of p.name
        ∷ p.email
        ∷ initials
        ∷ text_of p.name
        ∷ p.email
        ∷ or_else p.settings_label "Configurações"
        ∷ or_else p.logout_label "Sair"
        ∷ []
  unfolding texts profile profile_trigger profile_content settings_item logout_item dropdown_menu
      button dropdown_menu_content dropdown_menu_group dropdown_menu_item dropdown_menu_label
      dropdown_menu_separator dropdown_menu_trigger part
  profile-texts = rw (avatar_texts, get_initials-words p.name) refl
