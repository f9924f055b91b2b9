-- ===== src/Tests/Screens.antt =====
-- The theorems of App, Shared, Ui and of the reporter at concrete inputs.
use mathlib.Core.List.{Perm}
use opanel.Common.{
  ℕ, true, false, none, some, List, [], ◌∷◌, ◌++◌, ◌≡◌, ◌↔◌, ◌⊎◌, refl, arith, All, ltb, leb,
  String,
}
use opanel.Common.Codes.{Text, codes}
use opanel.Dom.{texts, Event, Arg, Node, Props, text, nothing, fire}
use opanel.Ui.Cn.{ClassLibs}
use opanel.Ui.Contract.{IsPart}
use opanel.Ui.Contract.Library.{library_parts, library_parts-IsPart}
use opanel.Sidebar.Contract.{sidebar_parts, sidebar_parts-IsPart}
use opanel.E2e.Reporter.{
  Status, TestCase, TestResult, RetryRecord, failed, passed, timed_out, assertion, infrastructure,
  unknown, classify, classify_text, shows, error_text, run, record_of,
}
use opanel.E2e.Reporter.Laws.{classify_text-kind, classify-no_error, run-notable}
use opanel.App.Mobile.{
  MediaQuery, Window, mount, resize, steps, use_is_mobile, mobile_breakpoint, use_is_mobile-steps,
}
use opanel.App.Resolve.{available, sort, resolve_page}
use opanel.App.Resolve.Found.{
  modules_of, page_named, page_or_message, names_of, IsSorted, resolve_page-modules_of,
  available-modules_of,
}
use opanel.Shared.Initials.{get_initials, initials_of}
use opanel.Shared.Initials.Words.{words, get_initials-words}
use opanel.Shared.Notifications.{
  NotificationItem, NotificationsProps, notification_row, notification_content,
}
use opanel.Shared.Notifications.Menu.{notifications}
use opanel.Shared.Notifications.Badges.{notifications-texts}
use opanel.Shared.Profile.{ProfileProps, profile}
use opanel.Shared.Profile.Actions.{profile-texts}

abbrev plain_classes : ClassLibs
plain_classes = record {
  clsx = λ inputs. "";
  tw_merge = λ s. s;
  cva = λ config selection extra. config.base;
}

sidebar_parts-IsPart_example :
    All
      (λ entry. IsPart {M = ℕ} plain_classes entry.0 entry.1)
      (sidebar_parts plain_classes (some true) none none)
sidebar_parts-IsPart_example = sidebar_parts-IsPart plain_classes (some true) none none

-- An attempt with this error text.
abbrev attempt : Status → ℕ → Text → TestResult
attempt status retry message = record {
  status = status;
  retry = retry;
  error = none;
  errors = record { message = some message; stack = none } ∷ [];
}

abbrev test_case : TestCase
test_case = record { title_path = codes "" ∷ codes "login" ∷ []; file = codes "login.spec.ts" }

classify_text-kind_example :
    let kind =
      (classify_text (codes "web" ∷ []) (codes "expect(" ∷ []) timed_out (codes "expect(x)")).0 in
    ((kind ≡ assertion) ↔ (
      (shows (codes "expect(x)") (codes "web" ∷ []) ≡ false)
      × (shows (codes "expect(x)") (codes "expect(" ∷ []) ≡ true)))
    × ((kind ≡ infrastructure) ↔ (
        (shows (codes "expect(x)") (codes "web" ∷ []) ≡ true)
        ⊎ ((true ≡ true) × (shows (codes "expect(x)") (codes "expect(" ∷ []) ≡ false))))
    × ((kind ≡ unknown) ↔ (
        (shows (codes "expect(x)") (codes "web" ∷ []) ≡ false)
        × (shows (codes "expect(x)") (codes "expect(" ∷ []) ≡ false)
        × (true ≡ false)))
classify_text-kind_example =
    classify_text-kind (codes "web" ∷ []) (codes "expect(" ∷ []) timed_out (codes "expect(x)")

classify-no_error_example :
    classify (record { status = failed; retry = 0; error = none; errors = [] }) ≡ (unknown, [])
unfolding error_text mathlib.Core.Option.bind
classify-no_error_example =
    classify-no_error (record { status = failed; retry = 0; error = none; errors = [] }) refl refl

abbrev records : List RetryRecord
records = record_of test_case (attempt failed 0 (codes "x")) ∷ []

run-notable_example :
    run [] ((test_case, attempt passed 0 []) ∷ (test_case, attempt failed 0 []) ∷ [])
    ≡ [] ++ record_of test_case (attempt failed 0 []) ∷ []
run-notable_example =
    run-notable [] ((test_case, attempt passed 0 []) ∷ (test_case, attempt failed 0 []) ∷ [])

abbrev exact : MediaQuery
exact = record {
  matches = λ limit width. leb width limit;
  matches_iff = λ limit width. ground arith;
}

abbrev closed : Window
closed = record { width = 1024; is_mobile = none; listening = false }

use_is_mobile-steps_example :
    use_is_mobile (steps exact closed (mount ∷ resize 500 ∷ []))
    ≡ ltb (steps exact closed (mount ∷ resize 500 ∷ [])).width mobile_breakpoint
unfolding steps
use_is_mobile-steps_example = use_is_mobile-steps exact closed (mount ∷ resize 500 ∷ []) refl refl

abbrev site : List (Text × ℕ)
site = (codes "Home", 1) ∷ (codes "Error", 2) ∷ []

resolve_page-modules_of_example :
    resolve_page (modules_of site) (codes "Error")
    ≡ page_or_message (codes "Error") (sort (names_of site)) (page_named (codes "Error") site)
resolve_page-modules_of_example = resolve_page-modules_of (codes "Error") site (ground arith)

available-modules_of_example :
    Perm (available (modules_of site)) (names_of site) × IsSorted (available (modules_of site))
available-modules_of_example = available-modules_of site (ground arith)

get_initials-words_example :
    get_initials (codes " ana maria ") ≡ initials_of (words (codes " ana maria "))
get_initials-words_example = get_initials-words (codes " ana maria ")

abbrev news : NotificationItem ℕ
news = record {
  id = "1";
  title = text "Deploy";
  description = none;
  timestamp = none;
  read = none;
  avatar_src = none;
  avatar_alt = none;
  avatar_fallback = none;
  href = none;
}

abbrev news_menu : NotificationsProps ℕ
news_menu = record {
  notifications = some (news ∷ []);
  label = none;
  empty_label = none;
  view_all_label = none;
  view_all_href = none;
  unread_count = none;
  on_notification_select = none;
  on_view_all = none;
  disabled = none;
  class_name = none;
  content_class_name = none;
  align = none;
  side = none;
}

notifications-texts_example :
    texts (notifications plain_classes news_menu)
    ≡ "1" ∷ "Notificações" ∷ "1" ∷ " novas" ∷ "Deploy" ∷ "Ver todas as notificações" ∷ []
unfolding texts opanel.Dom.count notification_row notification_content opanel.Ui.Part.part
    opanel.Dom.get opanel.Dom.spread opanel.Ui.Icons.icon opanel.Common.Decimal.decimal
notifications-texts_example = notifications-texts plain_classes news_menu ((refl, refl, refl), tt)

abbrev click_event : Event ℕ
click_event = record { prevent_default = []; value = Arg.click }

abbrev ana : ProfileProps ℕ
ana = record {
  name = codes "Ana Maria";
  email = "ana@example.org";
  avatar_src = none;
  avatar_alt = none;
  fallback = none;
  settings_label = none;
  logout_label = none;
  on_settings = none;
  on_logout = none;
  disabled = none;
  side = none;
  align = none;
  class_name = none;
  content_class_name = none;
}

abbrev show_length : Text → String
show_length [] = ""
show_length (c ∷ s) = "s"

profile-texts_example :
    texts (profile plain_classes show_length ana)
    ≡ show_length (initials_of (words ana.name))
      ∷ "s"
      ∷ ana.email
      ∷ show_length (initials_of (words ana.name))
      ∷ "s"
      ∷ ana.email
      ∷ "Configurações"
      ∷ "Sair"
      ∷ []
profile-texts_example = profile-texts plain_classes show_length ana

library_parts-IsPart_example :
    All
      (λ entry. IsPart plain_classes entry.0 entry.1)
      (library_parts {M = ℕ} plain_classes none (some "sm") (some 4))
library_parts-IsPart_example = library_parts-IsPart plain_classes none (some "sm") (some 4)
