-- ===== src/Dom/Attrs.antt =====
-- Laws of attribute objects: what a spread leaves of each key.
use opanel.Common.{
  String, ◌≡◌, refl, true, false, not, none, some, List, [], ◌∷◌, ◌++◌, arith, eq_iff, filter,
  if◌then◌else◌, Bool-cases, inl, inr,
}
use opanel.Dom.{get, has, override, spread}

module _ {ℓ} {V : Type ℓ} where
  pub get-append :
      (k : String) (a b : List (String × V))
      → get k (a ++ b) ≡ (if has k a then get k a else get k b)
  unfolding get
  get-append k [] b = refl
  get-append k ((j, v) ∷ a) b = ground (arith, eq_iff j k, get-append k a b)

  has-override : (k : String) (a b : List (String × V)) → has k (override a b) ≡ has k a
  unfolding get
  has-override k [] b = refl
  has-override k ((j, v) ∷ a) b = ground (arith, eq_iff j k, has-override k a b)

  get-override :
      (k : String) (a b : List (String × V))
      → has k a ≡ true
      → get k (override a b) ≡ (if has k b then get k b else get k a)
  unfolding get
  get-override k [] b h = ground arith
  get-override k ((j, v) ∷ a) b h = ground (arith, eq_iff j k, get-override k a b)

  get-filter_own :
      (k : String) (a b : List (String × V))
      → has k a ≡ false
      → get k (filter (λ entry. not (has entry.0 a)) b) ≡ get k b
  unfolding get
  get-filter_own k a [] h = refl
  get-filter_own k a ((j, v) ∷ b) h = ground (arith, eq_iff j k, get-filter_own k a b)

  -- A key that the later object has takes its value from there, any other from the earlier one.
  pub get-spread :
      (k : String) (own extra : List (String × V))
      → get k (spread own extra) ≡ (if has k extra then get k extra else get k own)
  unfolding spread
  get-spread k own extra = elim (Bool-cases (has k own)) [
    | inl mine ↦ ground (
      arith,
      get-append k (override own extra) (filter (λ entry. not (has entry.0 own)) extra),
      has-override k own extra,
      get-override k own extra,
    )
    | inr other ↦ ground (
      arith,
      get-append k (override own extra) (filter (λ entry. not (has entry.0 own)) extra),
      has-override k own extra,
      get-filter_own k own extra other,
    )
  ]

  pub get-spread_kept :
      (k : String) (own extra : List (String × V))
      → get k extra ≡ none
      → get k (spread own extra) ≡ get k own
  get-spread_kept k own extra h = ground (arith, get-spread k own extra)

  pub get-spread_given :
      (k : String) (own extra : List (String × V)) {v : V}
      → get k extra ≡ some v
      → get k (spread own extra) ≡ some v
  get-spread_given k own extra h = ground (arith, get-spread k own extra)
