-- ===== src/Tests/Galleries.antt =====
-- The gallery with its own entries, the pages, and the support code of the tests.
use opanel.Common.{ℕ, Bool, true, false, some, [], ◌∷◌, length, ◌≡◌, refl}
use opanel.Dom.{nothing, bool, count, get}
use opanel.React.{replaying}
use opanel.E2e.Masking.{on_events, init_script, head_parsed, content_loaded, painted}
use opanel.E2e.Masking.Once.{init_script-styles}
use opanel.Spec.States.{empty, elements_with, expect_state_rendered}
use opanel.Spec.States.Accepts.{expect_state_rendered-bears}
use opanel.Gallery.Entries.{gallery_entries}
use opanel.Gallery.Page.{gallery}
use opanel.Gallery.Page.Once.{is_article, count-gallery}
use opanel.Pages.Home.{HomeProps, home}
use opanel.Pages.Home.Details.{home_after, is_environment, toggle_attrs, home-odd}
use opanel.Shared.Notifications.{notification_row, notification_content}
use opanel.Shared.Notifications.Menu.{
  notifications, notifications_trigger, notifications_content, view_all,
}
use opanel.Ui.Icons.{icon}
use opanel.Ui.Part.{part}
use opanel.Tests.{plain_libs}

-- The registry has 52 entries.
registry_size : length (gallery_entries {M = ℕ} plain_libs) ≡ 52
unfolding gallery_entries
registry_size = refl

count-gallery_example :
    count (is_article "gallery-entry-button") (gallery (gallery_entries {M = ℕ} plain_libs)) ≡ 1
unfolding gallery_entries count get notifications notifications_trigger part icon
    notifications_content notification_row notification_content view_all
count-gallery_example =
    count-gallery (gallery_entries {M = ℕ} plain_libs) "gallery-entry-button" refl

abbrev home_props : HomeProps
home_props = record {
  platform_name = "Opanel";
  platform_environment = "test";
  error = some "The last rollout was rejected.";
}

-- Two clicks before one render and one before the next.
home-odd_example :
    (count is_environment (
        home home_props "req-1" (home_after (replaying Bool) home_props "req-1" false (2 ∷ 1 ∷ [])))
      ≡ 1)
    × (get "aria-expanded" (
          toggle_attrs (
            home home_props "req-1"
              (home_after (replaying Bool) home_props "req-1" false (2 ∷ 1 ∷ []))))
        ≡ some (bool true))
home-odd_example = home-odd (replaying Bool) home_props "req-1" (2 ∷ 1 ∷ [])

-- The script runs before there is a head, as in every new page.
init_script-styles_example :
    (on_events "css"
      (painted ∷ head_parsed ∷ painted ∷ content_loaded ∷ content_loaded ∷ [])
      (init_script "css" (record { head = false; styles = []; listening = false }))).styles
    ≡ record { text_content = "css" } ∷ []
init_script-styles_example =
    init_script-styles "css" false
      (painted ∷ head_parsed ∷ painted ∷ content_loaded ∷ content_loaded ∷ [])

-- Nothing at all is accepted as a state that explains itself.
expect_state_rendered-bears_example : expect_state_rendered {M = ℕ} empty nothing ≡ true
unfolding elements_with
expect_state_rendered-bears_example = expect_state_rendered-bears {M = ℕ} empty nothing
