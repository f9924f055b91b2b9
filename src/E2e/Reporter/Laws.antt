-- ===== src/E2e/Reporter/Laws.antt =====
-- What the classification and the report say.
use opanel.Common.{
  ℕ, ◌+◌, ◌≤◌, Bool, true, false, not, ◌&&◌, ◌||◌, Option, none, some, List, [], ◌∷◌, ◌++◌, map,
  length, filter, find, any, if◌then◌else◌, ◌==◌, ◌≡◌, refl, ◌↔◌, ◌⊎◌, arith, length-take_le,
  Bool-cases, inl, inr, ◌∙◌, All, sym,
}
use mathlib.Core.List.{append-nil, append_assoc}
use opanel.Common.Codes.{Text, codes, includes, split, split_step}
use opanel.E2e.Reporter.{
  Status, TestResult, TestCase, assertion, infrastructure, unknown, RetryRecord, is_timed_out,
  is_failed, infrastructure_signals, assertion_signals, shows, head_line, classify_signals,
  classify_text, classify, error_text, on_test_end, on_end, run, record_of, first,
}

-- What holds of the value of an option, if it has one.
abbrev IfSome : {A : Type 0} → (A → Type 0) → Option A → Type 0
IfSome P none = Unit
IfSome P (some a) = P a

module _ {A : Type 0} (test : A → Bool) where
  find-All : (P : A → Type 0) (xs : List A) → All P xs → IfSome P (find test xs)
  find-All P [] h = tt
  find-All P (x ∷ xs) (p, h) = elim (Bool-cases (test x)) [
    | inl hit ↦ rw hit p
    | inr miss ↦ rw miss (find-All P xs h)
  ]

  find-any :
      (xs : List A)
      → ((find test xs ≡ none) × (any test xs ≡ false))
        ⊎ ((a : A) × (find test xs ≡ some a) × (any test xs ≡ true))
  find-any [] = inl (refl, refl)
  find-any (x ∷ xs) = elim (Bool-cases (test x)) [
    | inl hit ↦ inr (x, rw hit refl, rw hit refl)
    | inr miss ↦ rw miss (find-any xs)
  ]

module _ (infra asserts : List Text) where
  -- The kind of an attempt, from what its error text shows: an assertion exactly when it shows an
  -- assertion signal and no infrastructure signal; infrastructure exactly when it shows an
  -- infrastructure signal, or timed out and shows no assertion signal; unknown exactly when it
  -- shows neither and did not time out.
  pub classify_text-kind :
      (status : Status) (text : Text)
      → (((classify_text infra asserts status text).0 ≡ assertion)
          ↔ ((shows text infra ≡ false) × (shows text asserts ≡ true)))
        × (((classify_text infra asserts status text).0 ≡ infrastructure) ↔ (
            (shows text infra ≡ true)
            ⊎ ((is_timed_out status ≡ true) × (shows text asserts ≡ false))))
        × (((classify_text infra asserts status text).0 ≡ unknown) ↔ (
            (shows text infra ≡ false)
            × (shows text asserts ≡ false)
            × (is_timed_out status ≡ false)))
  unfolding classify_text
  classify_text-kind status text = ground (
    arith,
    find-any (λ signal. includes text signal) infra,
    find-any (λ signal. includes text signal) asserts,
  )

split_step-first :
    (c d : ℕ) (parts : List Text) → (s : Text) × (first (split_step c d parts) ≡ some s)
unfolding split_step
split_step-first c d [] = (d ∷ [], refl)
split_step-first c d (part ∷ parts) = elim (Bool-cases (d == c)) [
  | inl here ↦ ([], rw here refl)
  | inr no_sep ↦ (d ∷ part, rw no_sep refl)
]

-- `split` always has a first part.
split-first : (c : ℕ) (text : Text) → (s : Text) × (first (split c text) ≡ some s)
unfolding split
split-first c [] = ([], refl)
split-first c (d ∷ text) = split_step-first c d (split c text)

head_line_fallback : (text a b : Text) → head_line text a ≡ head_line text b
unfolding head_line
head_line_fallback text a b = let (s, e) = split-first 10 text in rw e refl

length-head_line : (text a : Text) → length (head_line text a) ≤ 200
unfolding head_line
length-head_line text a = let (s, e) = split-first 10 text in rw e (length-take_le 200 s)

module _ (infra asserts : List Text) (status : Status) (text : Text) where
  classify_text-unknown :
      (fallback : Text)
      → (classify_text infra asserts status text).0 ≡ unknown
      → (classify_text infra asserts status text).1 ≡ head_line text fallback
  unfolding classify_text
  classify_text-unknown fallback h = ground (
    arith,
    find-any (λ signal. includes text signal) infra,
    find-any (λ signal. includes text signal) asserts,
    head_line_fallback text (codes "no error recorded") fallback,
  )

  classify_text-reason_length :
      All (λ signal. length signal ≤ 200) infra
      → length (classify_text infra asserts status text).1 ≤ 200
  unfolding classify_text
  classify_text-reason_length short =
      elim (Bool-cases (is_timed_out status && not (shows text asserts))) [
        | inl slow ↦ rw slow (omega arith)
        | inr other ↦ rw other (
            signals_length (find (λ signal. includes text signal) infra)
              (find (λ signal. includes text signal) asserts)
              (find-All (λ signal. includes text signal) (λ signal. length signal ≤ 200) infra
                short))
      ]
    where
      signals_length :
          (a b : Option Text)
          → IfSome (λ signal. length signal ≤ 200) a
          → length (classify_signals text a b).1 ≤ 200
      signals_length (some signal) b h = h
      signals_length none (some hit) h = length-head_line text hit
      signals_length none none h = length-head_line text _

-- An attempt whose kind is unknown has the first line of its error text, cut to 200 code units,
-- for its reason, whatever the words are that the code would fall back on.
pub classify-unknown :
    (result : TestResult) (fallback : Text)
    → (classify result).0 ≡ unknown
    → (classify result).1 ≡ head_line (error_text result) fallback
unfolding classify
classify-unknown result fallback h =
    classify_text-unknown infrastructure_signals assertion_signals result.status (error_text result)
      fallback h

-- An attempt without an error text that did not time out is unknown, with an empty reason.
pub classify-no_error :
    (result : TestResult)
    → error_text result ≡ []
    → is_timed_out result.status ≡ false
    → classify result ≡ (unknown, [])
unfolding classify
classify-no_error result silent ended =
    rw (silent, ended) (unfold classify_text head_line includes split in refl)

-- The reason of a classification never has more than 200 code units.
pub classify-reason_length : (result : TestResult) → length (classify result).1 ≤ 200
unfolding classify
classify-reason_length result =
    classify_text-reason_length infrastructure_signals assertion_signals result.status
      (error_text result) (omega arith)

-- The summary counts every record under exactly one kind.
pub on_end-total :
    (retries : List RetryRecord)
    → (on_end retries).total
      ≡ (on_end retries).assertions + (on_end retries).infrastructures + (on_end retries).unknowns
unfolding on_end
on_end-total [] = refl
on_end-total (r ∷ retries) = ground (arith, on_end-total retries)

-- A retry, or an attempt that failed or timed out.
abbrev pub is_notable : TestCase × TestResult → Bool
is_notable (test, result) =
    not (result.retry == 0) || is_failed result.status || is_timed_out result.status

on_test_end_notable :
    (retries : List RetryRecord) (test : TestCase) (result : TestResult)
    → on_test_end retries test result
      ≡ (if is_notable (test, result) then retries ++ record_of test result ∷ [] else retries)
unfolding on_test_end
on_test_end_notable retries test result = ground arith

-- What the run of a suite records: each attempt that is a retry, that failed or that timed out, in
-- their order, behind what was recorded before.
pub run-notable :
    (retries : List RetryRecord) (attempts : List (TestCase × TestResult))
    → run retries attempts ≡ retries ++ map (λ a. record_of a.0 a.1) (filter is_notable attempts)
unfolding run
run-notable retries [] = sym (append-nil retries)
run-notable retries ((test, result) ∷ rest) = elim (Bool-cases (is_notable (test, result))) [
  | inl kept ↦
      rw (on_test_end_notable retries test result, kept)
        (run-notable (retries ++ record_of test result ∷ []) rest ∙ append_assoc retries _ _)
  | inr dropped ↦ rw (on_test_end_notable retries test result, dropped) (run-notable retries rest)
]
