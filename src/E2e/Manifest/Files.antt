-- ===== src/E2e/Manifest/Files.antt =====
-- What `filesUnder` lists.
use mathlib.Core.List.{Memᴰ}
use mathlib.Core.List.Memᴰ
use mathlib.Core.Path.{subst}
use opanel.Common.{
  ℕ, zero, suc, ◌<◌, true, false, List, [], ◌∷◌, if◌then◌else◌, ◌≡◌, refl, sym, All, ◌⊎◌, ◌↔◌,
  All-append, arith, Bool-cases, inl, inr,
}
use opanel.Common.Codes.{Text}
use opanel.E2e.Manifest.{FileSystem, files_in, files_from, files_under}

module _ (F : FileSystem) where
  abbrev pub IsFile : Text → Type 0
  IsFile path = (F.exists path ≡ true) × (F.is_directory path ≡ false)

  -- A path is below a directory that exists: an entry of it that is no directory, or below an entry that
  -- is one.
  pub data Below (path : Text) : Text → Type 0 where
    file :
        (d name : Text)
        → F.exists d ≡ true
        → Memᴰ name (F.entries d)
        → F.is_directory (F.join_path d name) ≡ false
        → path ≡ F.join_path d name
        → Below path d
    deeper :
        (d name : Text)
        → F.exists d ≡ true
        → Memᴰ name (F.entries d)
        → F.is_directory (F.join_path d name) ≡ true
        → Below path (F.join_path d name)
        → Below path d

  -- Where a listed path comes from.
  abbrev Origin : (Text → List Text) → Text → Text → Text → Type 0
  Origin f d path name =
      (F.is_directory (F.join_path d name) ≡ false) × (path ≡ F.join_path d name)
      ⊎ (F.is_directory (F.join_path d name) ≡ true) × Memᴰ path (f (F.join_path d name))

  abbrev entry_paths : (Text → List Text) → Text → Text → List Text
  entry_paths f d name =
      if F.is_directory (F.join_path d name)
      then f (F.join_path d name)
      else F.join_path d name ∷ []

  entry-Origin :
      (f : Text → List Text) (d path name : Text)
      → Memᴰ path (entry_paths f d name)
      → Origin f d path name
  entry-Origin f d path name m = elim (Bool-cases (F.is_directory (F.join_path d name))) [
    | inl deep ↦ inr (deep, rw deep at m)
    | inr flat ↦ inl (flat, Memᴰ.eq_of_singleton (rw flat at m))
  ]

  Origin-entry :
      (f : Text → List Text) (d path name : Text)
      → Origin f d path name
      → Memᴰ path (entry_paths f d name)
  Origin-entry f d path name (inl (flat, e)) = rw flat (Memᴰ.head e)
  Origin-entry f d path name (inr (deep, m)) = rw deep m

  files_in-Origin :
      (f : Text → List Text) (d path : Text) (names : List Text)
      → Memᴰ path (files_in F f d names)
      → (name : Text) × Memᴰ name names × Origin f d path name
  unfolding files_in
  files_in-Origin f d path [] m = absurd (Memᴰ.not-nil m)
  files_in-Origin f d path (name ∷ rest) m = elim (Memᴰ.append_cases (entry_paths f d name) m) [
    | inl here ↦ (name, Memᴰ.head refl, entry-Origin f d path name here)
    | inr there ↦
        let found = files_in-Origin f d path rest there in (found.0, Memᴰ.tail found.1, found.2)
  ]

  Origin-files_in :
      (f : Text → List Text) (d path name : Text) (names : List Text)
      → Memᴰ name names
      → Origin f d path name
      → Memᴰ path (files_in F f d names)
  unfolding files_in
  Origin-files_in f d path name [] m origin = elim m [ ]
  Origin-files_in f d path name (n ∷ rest) (Memᴰ.head e) origin =
      Memᴰ.append_left _ (Origin-entry f d path n (subst (Origin f d path) e origin))
  Origin-files_in f d path name (n ∷ rest) (Memᴰ.tail m) origin =
      Memᴰ.append_right (entry_paths f d n) (Origin-files_in f d path name rest m origin)

  All-at :
      (P : Text → Type 0) (name : Text) (names : List Text) → All P names → Memᴰ name names → P name
  All-at P name [] h m = elim m [ ]
  All-at P name (n ∷ rest) h (Memᴰ.head e) = subst P (sym e) h.0
  All-at P name (n ∷ rest) h (Memᴰ.tail m) = All-at P name rest h.1 m

  files_from-zero : (d : Text) → files_from F 0 d ≡ []
  unfolding files_from
  files_from-zero d = refl

  files_from_there :
      (f : ℕ) (d : Text)
      → F.exists d ≡ true
      → files_from F (suc f) d ≡ files_in F (files_from F f) d (F.entries d)
  unfolding files_from
  files_from_there f d there = rw (there, files_from) refl

  files_from_missing : (f : ℕ) (d : Text) → F.exists d ≡ false → files_from F (suc f) d ≡ []
  unfolding files_from
  files_from_missing f d missing = rw (missing, files_from) refl

  listed-Below : (fuel : ℕ) (d path : Text) → Memᴰ path (files_from F fuel d) → Below path d
  listed-Below zero d path m = absurd (Memᴰ.not-nil {a = path} (rw (files_from-zero d) at m))
  listed-Below (suc fuel) d path m = elim (Bool-cases (F.exists d)) [
    | inl there ↦
        let found =
          files_in-Origin (files_from F fuel) d path (F.entries d)
            (rw (files_from_there fuel d there) at m) in
        elim found.2 [
          | inl (flat, e) ↦ Below.file d found.0 there found.1 flat e
          | inr (deep, below) ↦
              Below.deeper d found.0 there found.1 deep
                (listed-Below fuel (F.join_path d found.0) path below)
        ]
    | inr missing ↦ absurd (Memᴰ.not-nil (rw (files_from_missing fuel d missing) at m))
  ]

  Below-listed :
      (fuel : ℕ) (d path : Text) → F.depth d < fuel → Below path d → Memᴰ path (files_from F fuel d)
  Below-listed zero d path h below = absurd (omega arith)
  Below-listed (suc fuel) d path h (file _ name there m flat e) =
      rw (files_from_there fuel d there)
        (Origin-files_in (files_from F fuel) d path name (F.entries d) m (inl (flat, e)))
  Below-listed (suc fuel) d path h (deeper _ name there m deep below) =
      let falls = All-at _ name (F.entries d) (F.depth_falls d) m deep in
      rw (files_from_there fuel d there) (
        Origin-files_in (files_from F fuel) d path name (F.entries d) m
          (inr (deep, Below-listed fuel (F.join_path d name) path (omega (arith, falls)) below)))

  -- The recursion comes to every file: a path is listed exactly when it is below the directory, through
  -- directories of any depth.
  pub files_under-Below : (d path : Text) → Memᴰ path (files_under F d) ↔ Below path d
  unfolding files_under
  files_under-Below d path =
      (listed-Below (suc (F.depth d)) d path, Below-listed (suc (F.depth d)) d path (omega arith))

  files_in-All :
      (f : Text → List Text) (d : Text) (names : List Text)
      → All (λ name. F.exists (F.join_path d name) ≡ true) names
      → ((name : Text)
          → F.is_directory (F.join_path d name) ≡ true
          → All IsFile (f (F.join_path d name)))
      → All IsFile (files_in F f d names)
  unfolding files_in
  files_in-All f d [] h deep = tt
  files_in-All f d (name ∷ rest) h deep = elim (Bool-cases (F.is_directory (F.join_path d name))) [
    | inl dir ↦ rw dir (
        All-append IsFile (f (F.join_path d name)) _ (deep name dir)
          (files_in-All f d rest h.1 deep))
    | inr flat ↦ rw flat ((h.0, flat), files_in-All f d rest h.1 deep)
  ]

  files_from-All : (fuel : ℕ) (d : Text) → All IsFile (files_from F fuel d)
  files_from-All zero d = unfold files_from in tt
  files_from-All (suc fuel) d = elim (Bool-cases (F.exists d)) [
    | inl there ↦ rw (files_from_there fuel d there) (
        files_in-All (files_from F fuel) d (F.entries d) (F.entries_exist d there)
          (λ name dir. files_from-All fuel (F.join_path d name)))
    | inr missing ↦ rw (files_from_missing fuel d missing) tt
  ]

  -- Every path that is listed exists and is no directory.
  pub files_under-All : (d : Text) → All IsFile (files_under F d)
  unfolding files_under
  files_under-All d = files_from-All (suc (F.depth d)) d
