-- ===== src/E2e/Reporter.antt =====
-- e2e/support/classified-reporter.ts: how a failed or repeated attempt is classified, and the
-- report that is written at the end.
pub mod Laws
use mathlib.Core.Option
use opanel.Common.{
  ℕ, ◌+◌, Bool, true, false, not, ◌&&◌, ◌||◌, Option, none, some, List, [], ◌∷◌, ◌++◌, map, length,
  filter, find, any, take, if◌then◌else◌, or_else, ◌==◌,
}
use opanel.Common.Codes.{Text, codes, includes, join, split}

pub data Status : Type 0 where
  passed failed timed_out skipped interrupted : Status

abbrev pub is_passed : Status → Bool
is_passed passed = true
is_passed _ = false

abbrev pub is_failed : Status → Bool
is_failed failed = true
is_failed _ = false

abbrev pub is_timed_out : Status → Bool
is_timed_out timed_out = true
is_timed_out _ = false

pub record TestError : Type 0 where
  pub message : Option Text
  pub stack : Option Text

pub record TestResult : Type 0 where
  pub status : Status
  pub retry : ℕ
  pub error : Option TestError
  pub errors : List TestError

pub record TestCase : Type 0 where
  pub title_path : List Text
  pub file : Text

pub data RetryKind : Type 0 where
  assertion infrastructure unknown : RetryKind

pub record RetryRecord : Type 0 where
  pub test : Text
  pub file : Text
  pub attempt : ℕ
  pub kind : RetryKind
  pub reason : Text

abbrev pub infrastructure_signals : List Text
infrastructure_signals =
    codes "net::ERR_CONNECTION_REFUSED"
    ∷ codes "net::ERR_EMPTY_RESPONSE"
    ∷ codes "ECONNREFUSED"
    ∷ codes "ECONNRESET"
    ∷ codes "Timed out waiting"
    ∷ codes "browserType.launch"
    ∷ codes "Target page, context or browser has been closed"
    ∷ codes "webServer"
    ∷ []

abbrev pub assertion_signals : List Text
assertion_signals =
    codes "expect("
    ∷ codes "Expected:"
    ∷ codes "toBeVisible"
    ∷ codes "toHaveText"
    ∷ codes "AssertionError"
    ∷ []

abbrev pub newline : Text
newline = 10 ∷ []

-- `filter(Boolean)` on optional texts: an absent one and an empty one go.
abbrev present : List (Option Text) → List Text
present [] = []
present (none ∷ rest) = present rest
present (some [] ∷ rest) = present rest
present (some (c ∷ s) ∷ rest) = (c ∷ s) ∷ present rest

-- The text that the signals are looked for in. `join` writes an absent message as nothing.
unfoldable pub error_text : TestResult → Text
unfolding join
error_text result = join newline (
    present (
      Option.bind result.error (λ e. e.message)
      ∷ Option.bind result.error (λ e. e.stack)
      ∷ some (join newline (map (λ e. or_else e.message []) result.errors))
      ∷ []))

-- `xs[0]`
abbrev pub first : List Text → Option Text
first [] = none
first (s ∷ rest) = some s

abbrev pub shows : Text → List Text → Bool
shows text signals = any (λ signal. includes text signal) signals

-- `text.split('\n')[0]?.slice(0, 200) ?? fallback`
unfoldable pub head_line : Text → Text → Text
unfolding split
head_line text fallback = or_else (Option.map (take 200) (first (split 10 text))) fallback

unfoldable pub classify_signals : Text → Option Text → Option Text → RetryKind × Text
unfolding head_line
classify_signals text (some signal) hit = (infrastructure, signal)
classify_signals text none (some signal) = (assertion, head_line text signal)
classify_signals text none none = (unknown, head_line text (codes "no error recorded"))

-- The classification, over any two lists of signals.
unfoldable pub classify_text : List Text → List Text → Status → Text → RetryKind × Text
unfolding classify_signals
classify_text infra asserts status text =
    if is_timed_out status && not (shows text asserts)
    then (infrastructure, codes "test timed out with no failed expectation")
    else classify_signals text (find (λ signal. includes text signal) infra)
        (find (λ signal. includes text signal) asserts)

unfoldable pub classify : TestResult → RetryKind × Text
unfolding classify_text error_text
classify result =
    classify_text infrastructure_signals assertion_signals result.status (error_text result)

-- `xs.slice(1)`
abbrev pub drop_first : List Text → List Text
drop_first [] = []
drop_first (s ∷ rest) = rest

-- `onTestEnd`: the reporter's state is the list of its records.
abbrev pub separator : Text
separator = codes " › "

unfoldable pub record_of : TestCase → TestResult → RetryRecord
unfolding classify join
record_of test result = record {
  test = join separator (drop_first test.title_path);
  file = test.file;
  attempt = result.retry + 1;
  kind = (classify result).0;
  reason = (classify result).1;
}

unfoldable pub on_test_end : List RetryRecord → TestCase → TestResult → List RetryRecord
unfolding record_of
on_test_end retries test result =
    if result.retry == 0 && not (is_failed result.status) && not (is_timed_out result.status)
    then retries
    else if is_passed result.status && result.retry == 0
    then retries
    else retries ++ record_of test result ∷ []

abbrev pub is_kind : RetryKind → RetryKind → Bool
is_kind assertion assertion = true
is_kind infrastructure infrastructure = true
is_kind unknown unknown = true
is_kind _ _ = false

-- The summary that `onEnd` writes.
pub record Summary : Type 0 where
  pub total : ℕ
  pub assertions : ℕ
  pub infrastructures : ℕ
  pub unknowns : ℕ
  pub retries : List RetryRecord

abbrev of_kind : RetryKind → List RetryRecord → ℕ
of_kind kind retries = length (filter (λ r. is_kind kind r.kind) retries)

unfoldable pub on_end : List RetryRecord → Summary
on_end retries = record {
  total = length retries;
  assertions = of_kind assertion retries;
  infrastructures = of_kind infrastructure retries;
  unknowns = of_kind unknown retries;
  retries = retries;
}

-- A run of the suite: the reporter hears of each attempt in turn.
unfoldable pub run : List RetryRecord → List (TestCase × TestResult) → List RetryRecord
unfolding on_test_end
run retries [] = retries
run retries ((test, result) ∷ rest) = run (on_test_end retries test result) rest
