-- ===== src/E2e/Manifest/Vouched.antt =====
-- What the finalised manifest vouches for.

use opanel.Common.{
  Bool, false, ◌&&◌, ◌||◌, Option, none, some, List, [], ◌∷◌, ◌++◌, if◌then◌else◌, ◌≡◌, refl, ◌∙◌,
  arith, Bool-cases, inl, inr,
}
use opanel.Common.Codes.{Text, text_eq, text_eq_iff, split, is_blank}
use opanel.E2e.Manifest.{
  FileSystem, Claim, ClaimJson, paths_of, set_digest, digest_paths, digest_entry, digest_line,
  digest_lines, finalise,
}

unfoldable pub find_digest : Text → List (Text × Text) → Option Text
find_digest path [] = none
find_digest path ((p, d) ∷ rest) = if text_eq p path then some d else find_digest path rest

unfoldable pub mem : Text → List Text → Bool
mem path [] = false
mem path (p ∷ rest) = text_eq p path || mem path rest

pub mem-append : (path : Text) (a b : List Text) → mem path (a ++ b) ≡ (mem path a || mem path b)
unfolding mem
mem-append path [] b = refl
mem-append path (p ∷ a) b = ground (arith, mem-append path a b)

find_digest-set :
    (path p digest : Text) (digests : List (Text × Text))
    → find_digest path (set_digest p digest digests)
      ≡ (if text_eq p path then some digest else find_digest path digests)
unfolding find_digest set_digest
find_digest-set path p digest [] = refl
find_digest-set path p digest ((q, d) ∷ rest) = ground (
  arith,
  text_eq_iff q p,
  text_eq_iff p path,
  text_eq_iff q path,
  find_digest-set path p digest rest,
)

module _ (F : FileSystem) (J : ClaimJson) (sha256 : Text → Text) where
  -- The paths that a line of the manifest claims.
  abbrev pub entry_paths : Option Claim → List Text
  entry_paths none = []
  entry_paths (some entry) = paths_of F entry

  abbrev pub line_paths : Text → List Text
  line_paths line = if is_blank line then [] else entry_paths (J.parse line)

  abbrev pub claimed : List Text → List Text
  claimed [] = []
  claimed (line ∷ rest) = line_paths line ++ claimed rest

  -- The digests say of a path what they must, over those that were there before.
  abbrev Vouched : Text → List Text → List (Text × Text) → List (Text × Text) → Type 0
  Vouched path paths before after = find_digest path after ≡ (
      if F.exists path && mem path paths
      then some (sha256 (F.content path))
      else find_digest path before)

  digest_paths-Vouched :
      (path : Text) (paths : List Text) (digests : List (Text × Text))
      → Vouched path paths digests (digest_paths F J sha256 paths digests)
  unfolding digest_paths mem
  digest_paths-Vouched path [] digests = ground arith
  digest_paths-Vouched path (p ∷ rest) digests = elim (Bool-cases (F.exists p)) [
    | inl there ↦ rw there (
        ground (
          arith,
          digest_paths-Vouched path rest (set_digest p (sha256 (F.content p)) digests),
          find_digest-set path p (sha256 (F.content p)) digests,
          text_eq_iff p path,
        ))
    | inr missing ↦
        rw missing (ground (arith, digest_paths-Vouched path rest digests, text_eq_iff p path))
  ]

  digest_entry-Vouched :
      (path : Text) (entry : Option Claim) (digests : List (Text × Text))
      → Vouched path (entry_paths entry) digests (digest_entry F J sha256 entry digests)
  unfolding digest_entry
  digest_entry-Vouched path none digests = unfold mem in ground arith
  digest_entry-Vouched path (some entry) digests =
      digest_paths-Vouched path (paths_of F entry) digests

  digest_line-Vouched :
      (path line : Text) (digests : List (Text × Text))
      → Vouched path (line_paths line) digests (digest_line F J sha256 line digests)
  unfolding digest_line
  digest_line-Vouched path line digests = elim (Bool-cases (is_blank line)) [
    | inl blank ↦ rw blank (unfold mem in ground arith)
    | inr other ↦ rw other (digest_entry-Vouched path (J.parse line) digests)
  ]

  digest_lines-Vouched :
      (path : Text) (lines : List Text) (digests : List (Text × Text))
      → Vouched path (claimed lines) digests (digest_lines F J sha256 lines digests)
  unfolding digest_lines
  digest_lines-Vouched path [] digests = unfold mem in ground arith
  digest_lines-Vouched path (line ∷ rest) digests = ground (
    arith,
    digest_lines-Vouched path rest (digest_line F J sha256 line digests),
    digest_line-Vouched path line digests,
    mem-append path (line_paths line) (claimed rest),
  )

  -- The finalised manifest has the digest of a path's content exactly when a line of the manifest
  -- claims the path and the path exists; it says nothing of any other path.
  pub finalise-find_digest :
      (manifest path : Text)
      → find_digest path (finalise F J sha256 manifest) ≡ (
          if F.exists path && mem path (claimed (split 10 manifest))
          then some (sha256 (F.content path))
          else none)
  unfolding finalise
  finalise-find_digest manifest path =
      digest_lines-Vouched path (split 10 manifest) [] ∙ unfold find_digest in refl

-- No path stands twice.
abbrev pub IsDistinct : List (Text × Text) → Type 0
IsDistinct [] = Unit
IsDistinct ((p, d) ∷ rest) = (find_digest p rest ≡ none) × IsDistinct rest

set_digest-IsDistinct :
    (p digest : Text) (digests : List (Text × Text))
    → IsDistinct digests
    → IsDistinct (set_digest p digest digests)
unfolding set_digest
set_digest-IsDistinct p digest [] h = (unfold find_digest in refl, tt)
set_digest-IsDistinct p digest ((q, d) ∷ rest) (fresh, h) = elim (Bool-cases (text_eq q p)) [
  | inl same ↦ rw same (fresh, h)
  | inr other ↦ rw other (
    ground (arith, find_digest-set q p digest rest, text_eq_iff q p, text_eq_iff p q),
    set_digest-IsDistinct p digest rest h,
  )
]

module _ (F : FileSystem) (J : ClaimJson) (sha256 : Text → Text) where
  digest_paths-IsDistinct :
      (paths : List Text) (digests : List (Text × Text))
      → IsDistinct digests
      → IsDistinct (digest_paths F J sha256 paths digests)
  unfolding digest_paths
  digest_paths-IsDistinct [] digests h = h
  digest_paths-IsDistinct (p ∷ rest) digests h = elim (Bool-cases (F.exists p)) [
    | inl there ↦ rw there (digest_paths-IsDistinct rest _ (set_digest-IsDistinct p _ digests h))
    | inr missing ↦ rw missing (digest_paths-IsDistinct rest digests h)
  ]

  digest_entry-IsDistinct :
      (entry : Option Claim) (digests : List (Text × Text))
      → IsDistinct digests
      → IsDistinct (digest_entry F J sha256 entry digests)
  unfolding digest_entry
  digest_entry-IsDistinct none digests h = h
  digest_entry-IsDistinct (some entry) digests h =
      digest_paths-IsDistinct (paths_of F entry) digests h

  digest_lines-IsDistinct :
      (lines : List Text) (digests : List (Text × Text))
      → IsDistinct digests
      → IsDistinct (digest_lines F J sha256 lines digests)
  unfolding digest_lines
  digest_lines-IsDistinct [] digests h = h
  digest_lines-IsDistinct (line ∷ rest) digests h =
      digest_lines-IsDistinct rest (digest_line F J sha256 line digests)
        (elim (Bool-cases (is_blank line)) [
          | inl blank ↦ rw (blank, digest_line) h
          | inr other ↦ rw (other, digest_line) (digest_entry-IsDistinct (J.parse line) digests h)
        ])

  -- The finalised manifest names no path twice.
  pub finalise-IsDistinct : (manifest : Text) → IsDistinct (finalise F J sha256 manifest)
  unfolding finalise
  finalise-IsDistinct manifest = digest_lines-IsDistinct (split 10 manifest) [] tt
