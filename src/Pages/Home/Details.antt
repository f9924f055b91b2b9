-- ===== src/Pages/Home/Details.antt =====
-- The disclosure of app/frontend/pages/Home.tsx over time.
use opanel.Common.{
  ℕ, zero, suc, ◌+◌, String, Bool, true, false, not, Option, some, List, [], ◌∷◌, ◌++◌, ◌≡◌, refl,
  ap, ◌∙◌, if◌then◌else◌, Bool-cases, inl, inr, arith,
}
use opanel.Dom.{Attrs, Tag, bool, get, count, given_text}
use opanel.Dom.Entries.{says}
use opanel.Dom.Press.{buttons, press}
use opanel.React.{SetState, StateHook}
use opanel.Pages.Home.{HomeProps, Page, error_region, details_toggle, details, home}

abbrev pub odd : ℕ → Bool
odd zero = false
odd (suc n) = not (odd n)

abbrev pub flips : ℕ → Bool → Bool
flips zero b = b
flips (suc n) b = not (flips n b)

abbrev pub total : List ℕ → ℕ
total [] = 0
total (n ∷ rest) = n + total rest

abbrev pub first_attrs : List (Attrs (SetState Bool)) → Attrs (SetState Bool)
first_attrs [] = []
first_attrs (attrs ∷ rest) = attrs

-- The attributes of the first button of the page.
abbrev pub toggle_attrs : Page → Attrs (SetState Bool)
toggle_attrs page = first_attrs (buttons page)

abbrev pub times : ℕ → List (SetState Bool) → List (SetState Bool)
times zero updates = []
times (suc n) updates = times n updates ++ updates

-- The state after clicks on the button: for each render, how often it is clicked before the next.
unfoldable pub home_after : StateHook Bool → HomeProps → String → Bool → List ℕ → Bool
unfolding press
home_after hook p request_id s [] = s
home_after hook p request_id s (n ∷ rest) =
    home_after hook p request_id
      (hook.commit s (times n (press (toggle_attrs (home p request_id s))))) rest

abbrev pub is_environment : Tag → Attrs (SetState Bool) → Bool
is_environment tag attrs = says (get "data-testid" attrs) "platform-environment"

buttons-error_region : (error : Option String) → buttons (error_region error) ≡ []
unfolding buttons error_region
buttons-error_region error = elim (Bool-cases (given_text error)) [
  | inl given ↦ rw given refl
  | inr absent ↦ rw absent refl
]

count-error_region : (error : Option String) → count is_environment (error_region error) ≡ 0
unfolding count error_region get
count-error_region error = elim (Bool-cases (given_text error)) [
  | inl given ↦ rw given refl
  | inr absent ↦ rw absent refl
]

press-toggle :
    (p : HomeProps) (request_id : String) (s : Bool)
    → press (toggle_attrs (home p request_id s)) ≡ SetState.updater not ∷ []
unfolding buttons home details_toggle press get
press-toggle p request_id s = rw (buttons-error_region p.error) refl

expanded :
    (p : HomeProps) (request_id : String) (s : Bool)
    → get "aria-expanded" (toggle_attrs (home p request_id s)) ≡ some (bool s)
unfolding buttons home details_toggle get
expanded p request_id s = rw (buttons-error_region p.error) refl

environments :
    (p : HomeProps) (request_id : String) (s : Bool)
    → count is_environment (home p request_id s) ≡ (if s then 1 else 0)
unfolding count home details_toggle details get
environments p request_id true = omega (arith, count-error_region p.error)
environments p request_id false = omega (arith, count-error_region p.error)

commit-times :
    (hook : StateHook Bool) (s : Bool) (n : ℕ)
    → hook.commit s (times n (SetState.updater not ∷ [])) ≡ flips n s
commit-times hook s zero = hook.commit_nil s
commit-times hook s (suc n) =
    hook.commit_updater s not (times n (SetState.updater not ∷ [])) ∙ ap not (commit-times hook s n)

flips-flips : (m n : ℕ) (s : Bool) → flips n (flips m s) ≡ flips (m + n) s
flips-flips m zero s = ap (λ k. flips k s) {x = m} {y = m + 0} (omega arith)
flips-flips m (suc n) s =
    ap not (flips-flips m n s) ∙ ap (λ k. flips k s) {x = suc (m + n)} {y = m + suc n} (omega arith)

home_after-flips :
    (hook : StateHook Bool) (p : HomeProps) (request_id : String) (s : Bool) (clicks : List ℕ)
    → home_after hook p request_id s clicks ≡ flips (total clicks) s
unfolding home_after
home_after-flips hook p request_id s [] = refl
home_after-flips hook p request_id s (n ∷ rest) = rw (press-toggle p request_id s) (
    rw (commit-times hook s n)
      (home_after-flips hook p request_id (flips n s) rest ∙ flips-flips n (total rest) s))

flips-false : (n : ℕ) → flips n false ≡ odd n
flips-false zero = refl
flips-false (suc n) = ap not (flips-false n)

-- However the clicks fall between the renders, the page shows the environment exactly after an odd
-- number of them, and its button says so.
pub home-odd :
    (hook : StateHook Bool) (p : HomeProps) (request_id : String) (clicks : List ℕ)
    → let page = home p request_id (home_after hook p request_id false clicks) in
      let open_now = odd (total clicks) in
      (count is_environment page ≡ (if open_now then 1 else 0))
      × (get "aria-expanded" (toggle_attrs page) ≡ some (bool open_now))
home-odd hook p request_id clicks =
    let state = home_after hook p request_id false clicks in
    let same = home_after-flips hook p request_id false clicks ∙ flips-false (total clicks) in
    (
      environments p request_id state ∙ ap (λ b. if b then 1 else 0) same,
      expanded p request_id state ∙ ap (λ b. some (bool b)) same,
    )
