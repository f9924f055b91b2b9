-- ===== src/E2e/Manifest.antt =====
-- The manifest of masked recordings: e2e/support/masked-capture.ts claims paths and directories as
-- lines of JSON, and e2e/support/global-teardown.ts turns the claims into digests. The file system
-- of node:fs, JSON and SHA-256 are parameters, each with what the code relies on.
pub mod Files
pub mod Vouched
pub mod Claimed
use mathlib.Core.Option
use opanel.Common.{
  ℕ, zero, suc, ◌<◌, Bool, true, false, not, Option, none, some, List, [], ◌∷◌, ◌++◌, map, filter,
  any, leb, ◌+◌, ◌&&◌, ◌||◌, ◌≤◌, if◌then◌else◌, ◌≡◌, ◌≢◌, All,
}
use opanel.Common.Codes.{Text, codes, text_eq, split, is_blank, join}

-- A tree of files below directories; `depth` bounds how deep the directories below a path are. What is
-- read as a directory is one, and what is read as a file has a content.
pub record FileSystem : Type 0 where
  pub exists : Text → Bool
  pub is_directory : Text → Bool
  pub entries : Text → List Text
  pub join_path : Text → Text → Text
  pub content : Text → Text
  pub depth : Text → ℕ
  pub entries_exist :
      (d : Text) → exists d ≡ true → All (λ name. exists (join_path d name) ≡ true) (entries d)
  pub depth_falls :
      (d : Text)
      → All
          (λ name. is_directory (join_path d name) ≡ true → depth (join_path d name) < depth d)
          (entries d)

-- A claim: `{ path?, directory?, test? }`.
pub record Claim : Type 0 where
  pub path : Option Text
  pub directory : Option Text
  pub test : Option Text

-- JSON of a claim, as one line: `parse` gives `none` where `JSON.parse` throws. Every line that it reads
-- is an object.
pub record ClaimJson : Type 0 where
  pub stringify : Claim → Text
  pub parse : Text → Option Claim
  pub parse_stringify : (c : Claim) → parse (stringify c) ≡ some c
  pub one_line : (c : Claim) → All (λ unit. unit ≢ 10) (stringify c)
  pub not_blank : (c : Claim) → is_blank (stringify c) ≡ false

abbrev pub visual : List Text
visual =
    codes ".png"
    ∷ codes ".jpg"
    ∷ codes ".jpeg"
    ∷ codes ".gif"
    ∷ codes ".webp"
    ∷ codes ".webm"
    ∷ codes ".mp4"
    ∷ codes ".avif"
    ∷ []

-- `s.endsWith(t)`
unfoldable pub ends_with : Text → Text → Bool
unfolding text_eq
ends_with [] t = text_eq [] t
ends_with (a ∷ s) t = text_eq (a ∷ s) t || ends_with s t

-- `s.toLowerCase()` of ASCII; the paths are those that Playwright writes.
abbrev pub to_lower : ℕ → ℕ
to_lower c = if leb b'A' c && leb c b'Z' then c + 32 else c

unfoldable pub is_visual : Text → Bool
unfolding ends_with
is_visual path = any (λ extension. ends_with (map to_lower path) extension) visual

-- An empty text counts as absent.
abbrev pub given_text : Option Text → Option Text
given_text none = none
given_text (some []) = none
given_text (some (c ∷ s)) = some (c ∷ s)

abbrev path_list : Option Text → List Text
path_list none = []
path_list (some path) = path ∷ []

module _ (F : FileSystem) where
  open F use {exists, is_directory, entries, join_path, content, depth}

  -- `filesUnder`, on fuel: the depth of the directory is enough.
  module _ (deeper : Text → List Text) (directory : Text) where
    pub files_in : List Text → List Text
    files_in [] = []
    files_in (name ∷ rest) =
        (if is_directory (join_path directory name)
          then deeper (join_path directory name)
          else join_path directory name ∷ [])
        ++ files_in rest

  unfoldable pub files_from : ℕ → Text → List Text
  unfolding files_in
  files_from zero directory = []
  files_from (suc fuel) directory = elim (exists directory) [
    | true ↦ files_in (files_from fuel) directory (entries directory)
    | false ↦ []
  ]

  unfoldable pub files_under : Text → List Text
  unfolding files_from
  files_under directory = files_from (suc (depth directory)) directory

  -- The paths that a claim stands for.
  claim_paths : Option Text → Option Text → List Text
  unfolding files_under is_visual
  claim_paths (some directory) path = filter is_visual (files_under directory)
  claim_paths none path = path_list path

  unfoldable pub paths_of : Claim → List Text
  unfolding claim_paths
  paths_of entry = claim_paths (given_text entry.directory) (given_text entry.path)

-- `digests.set(path, digest)`: a key keeps its place.
unfoldable pub set_digest : Text → Text → List (Text × Text) → List (Text × Text)
set_digest path digest [] = (path, digest) ∷ []
set_digest path digest ((p, d) ∷ rest) =
    if text_eq p path then (p, digest) ∷ rest else (p, d) ∷ set_digest path digest rest

module _ (F : FileSystem) (J : ClaimJson) (sha256 : Text → Text) where
  -- The inner loop over the paths of one claim.
  unfoldable pub digest_paths : List Text → List (Text × Text) → List (Text × Text)
  unfolding set_digest
  digest_paths [] digests = digests
  digest_paths (path ∷ rest) digests =
      digest_paths rest
        (if F.exists path then set_digest path (sha256 (F.content path)) digests else digests)

  unfoldable pub digest_entry : Option Claim → List (Text × Text) → List (Text × Text)
  unfolding digest_paths paths_of
  digest_entry none digests = digests
  digest_entry (some entry) digests = digest_paths (paths_of F entry) digests

  -- One line of the manifest: a blank one and one that is not JSON are passed over.
  unfoldable pub digest_line : Text → List (Text × Text) → List (Text × Text)
  unfolding digest_entry
  digest_line line digests = if is_blank line then digests else digest_entry (J.parse line) digests

  unfoldable pub digest_lines : List Text → List (Text × Text) → List (Text × Text)
  unfolding digest_line
  digest_lines [] digests = digests
  digest_lines (line ∷ rest) digests = digest_lines rest (digest_line line digests)

  -- `finaliseVisualManifest` on the manifest's text: the digests that it writes.
  unfoldable pub finalise : Text → List (Text × Text)
  unfolding digest_lines split
  finalise manifest = digest_lines (split 10 manifest) []

  -- What it writes: a line of JSON for each digest, each ended, and nothing if there is none.
  unfoldable pub manifest_text : (Text × Text → Text) → List (Text × Text) → Text
  unfolding join
  manifest_text stringify_digest [] = []
  manifest_text stringify_digest (d ∷ rest) =
      join (10 ∷ []) (map stringify_digest (d ∷ rest)) ++ 10 ∷ []

  -- `claim`: a line is appended to the manifest.
  unfoldable pub claim : Claim → Text → Text
  claim entry manifest = manifest ++ (J.stringify entry ++ 10 ∷ [])

  abbrev claim_path : Text → Option Text → Text → Text
  claim_path test none manifest = manifest
  claim_path test (some path) manifest =
      claim (record { path = some path; directory = none; test = some test }) manifest

  -- What the fixture claims after a test: each attachment that has a path, then the output directory.
  unfoldable pub claim_attachments : Text → List (Option Text) → Text → Text
  unfolding claim
  claim_attachments test [] manifest = manifest
  claim_attachments test (attachment ∷ rest) manifest =
      claim_attachments test rest (claim_path test (given_text attachment) manifest)

  unfoldable pub masked_capture : Text → List (Option Text) → Text → Text → Text
  unfolding claim claim_attachments
  masked_capture test attachments output_dir manifest =
      claim (record { path = none; directory = some output_dir; test = some test })
        (claim_attachments test attachments manifest)
