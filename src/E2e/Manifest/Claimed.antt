-- ===== src/E2e/Manifest/Claimed.antt =====
-- The two halves together: what the fixture of masked-capture.ts claims is what the teardown reads.
use mathlib.Core.List.{append_assoc, append-nil}
use opanel.Common.{
  ℕ, Bool, true, false, ◌&&◌, ◌||◌, Option, none, some, List, [], ◌∷◌, ◌++◌, if◌then◌else◌, ◌≡◌,
  ◌≢◌, ◌⊎◌, refl, sym, ap, ◌∙◌, All, filter, arith, Bool-cases, inl, inr, ◌==◌, ==_iff,
}
use opanel.Common.Codes.{Text, split, split_step}
use opanel.E2e.Manifest.{
  FileSystem, Claim, ClaimJson, paths_of, given_text, is_visual, files_under, finalise, claim,
  claim_path, claim_attachments, masked_capture,
}
use opanel.E2e.Manifest.Vouched.{
  mem, mem-append, find_digest, claimed, line_paths, finalise-find_digest,
}

split_step-append :
    (c d : ℕ) (parts more : List Text)
    → parts ≢ []
    → split_step c d (parts ++ more) ≡ split_step c d parts ++ more
unfolding split_step
split_step-append c d [] more h = absurd (h refl)
split_step-append c d (part ∷ parts) more h = elim (Bool-cases (d == c)) [
  | inl here ↦ rw here refl
  | inr other ↦ rw other refl
]

split-ne-nil : (c : ℕ) (s : Text) → split c s ≢ []
unfolding split split_step
split-ne-nil c [] e = cc
split-ne-nil c (d ∷ s) e = ground (arith, split-ne-nil c s)

split_step_self : (c : ℕ) (parts : List Text) → parts ≢ [] → split_step c c parts ≡ [] ∷ parts
unfolding split_step
split_step_self c [] h = absurd (h refl)
split_step_self c (part ∷ parts) h = rw ((==_iff c c).1 refl) refl

-- A separator cuts a text in two.
split-append_separator : (c : ℕ) (a b : Text) → split c (a ++ c ∷ b) ≡ split c a ++ split c b
unfolding split
split-append_separator c [] b = split_step_self c (split c b) (split-ne-nil c b)
split-append_separator c (d ∷ a) b =
    ap (split_step c d) (split-append_separator c a b)
    ∙ split_step-append c d (split c a) (split c b) (split-ne-nil c a)

split_of_one_line : (c : ℕ) (s : Text) → All (λ unit. unit ≢ c) s → split c s ≡ s ∷ []
unfolding split
split_of_one_line c [] h = refl
split_of_one_line c (d ∷ s) h =
    ap (split_step c d) (split_of_one_line c s h.1) ∙ (unfold split_step in ground (arith, h.0))

-- A manifest that holds whole lines only.
abbrev pub IsWhole : Text → Type 0
IsWhole manifest = (manifest ≡ []) ⊎ ((front : Text) × (manifest ≡ front ++ 10 ∷ []))

or_assoc : (a b c : Bool) → (a || b || c) ≡ (a || (b || c))
or_assoc true b c = refl
or_assoc false b c = refl

-- The recordings below a directory whose path is not empty.
abbrev pub visual_below : FileSystem → Text → List Text
visual_below F [] = []
visual_below F (c ∷ directory) = filter is_visual (files_under F (c ∷ directory))

mem-directory :
    (F : FileSystem) (directory test path : Text)
    → mem path (paths_of F (record { path = none; directory = some directory; test = some test }))
      ≡ mem path (visual_below F directory)
unfolding paths_of
mem-directory F [] test path = refl
mem-directory F (c ∷ directory) test path = refl

abbrev pub attached_one : Option Text → List Text
attached_one none = []
attached_one (some path) = path ∷ []

module _ (F : FileSystem) (J : ClaimJson) (sha256 : Text → Text) where
  abbrev claimed_in : Text → List Text
  claimed_in manifest = claimed F J sha256 (split 10 manifest)

  claimed-append :
      (a b : List Text) → claimed F J sha256 (a ++ b) ≡ claimed F J sha256 a ++ claimed F J sha256 b
  claimed-append [] b = refl
  claimed-append (line ∷ a) b =
      ap (λ paths. line_paths F J sha256 line ++ paths) (claimed-append a b)
      ∙ sym
          (append_assoc (line_paths F J sha256 line) (claimed F J sha256 a) (claimed F J sha256 b))

  -- The line of a claim and the rest of nothing after it.
  claim_lines : (e : Claim) → split 10 (J.stringify e ++ 10 ∷ []) ≡ J.stringify e ∷ [] ∷ []
  claim_lines e =
      split-append_separator 10 (J.stringify e) []
      ∙ rw (split_of_one_line 10 (J.stringify e) (J.one_line e)) (unfold split in refl)

  claimed-line : (e : Claim) → claimed F J sha256 (J.stringify e ∷ [] ∷ []) ≡ paths_of F e ++ []
  claimed-line e = rw (J.not_blank e, J.parse_stringify e) refl

  mem-claimed_line :
      (path : Text) (e : Claim)
      → mem path (claimed_in (J.stringify e ++ 10 ∷ [])) ≡ mem path (paths_of F e)
  mem-claimed_line path e = rw (claim_lines e, claimed-line e, append-nil (paths_of F e)) refl

  mem-claimed_front :
      (path front rest : Text)
      → mem path (claimed_in (front ++ 10 ∷ rest))
        ≡ (mem path (claimed_in front) || mem path (claimed_in rest))
  mem-claimed_front path front rest =
      rw (split-append_separator 10 front rest, claimed-append (split 10 front) (split 10 rest))
        (mem-append path _ _)

  mem-claimed_nil : (path : Text) → mem path (claimed_in []) ≡ false
  unfolding split mem
  mem-claimed_nil path = refl

  -- A claim adds its own paths to what a manifest of whole lines claims, and nothing else.
  mem-claim :
      (path : Text) (e : Claim) (manifest : Text)
      → IsWhole manifest
      → mem path (claimed_in (claim F J sha256 e manifest))
        ≡ (mem path (claimed_in manifest) || mem path (paths_of F e))
  unfolding claim
  mem-claim path e manifest (inl empty) =
      rw (empty, mem-claimed_line path e) (unfold split mem in refl)
  mem-claim path e manifest (inr (front, whole)) =
      rw
        (
          whole,
          append_assoc front (10 ∷ []) (J.stringify e ++ 10 ∷ []),
          mem-claimed_front path front (J.stringify e ++ 10 ∷ []),
          mem-claimed_front path front [],
          mem-claimed_line path e,
          mem-claimed_nil path,
        )
        (ground arith)

  claim-IsWhole : (e : Claim) (manifest : Text) → IsWhole (claim F J sha256 e manifest)
  unfolding claim
  claim-IsWhole e manifest =
      inr (manifest ++ J.stringify e, sym (append_assoc manifest (J.stringify e) _))

  -- The paths of the attachments that have one.
  abbrev pub attached : List (Option Text) → List Text
  attached [] = []
  attached (attachment ∷ rest) = attached_one (given_text attachment) ++ attached rest

  mem-claim_path :
      (path test : Text) (attachment : Option Text) (manifest : Text)
      → IsWhole manifest
      → (mem path (claimed_in (claim_path F J sha256 test (given_text attachment) manifest))
          ≡ (mem path (claimed_in manifest) || mem path (attached_one (given_text attachment))))
        × IsWhole (claim_path F J sha256 test (given_text attachment) manifest)
  mem-claim_path path test none manifest whole = (unfold mem in ground arith, whole)
  mem-claim_path path test (some []) manifest whole = (unfold mem in ground arith, whole)
  mem-claim_path path test (some (c ∷ s)) manifest whole = (
    mem-claim path (record { path = some (c ∷ s); directory = none; test = some test }) manifest
          whole
        ∙ (unfold paths_of in refl),
    claim-IsWhole _ manifest,
  )

  mem-claim_attachments :
      (path test : Text) (attachments : List (Option Text)) (manifest : Text)
      → IsWhole manifest
      → (mem path (claimed_in (claim_attachments F J sha256 test attachments manifest))
          ≡ (mem path (claimed_in manifest) || mem path (attached attachments)))
        × IsWhole (claim_attachments F J sha256 test attachments manifest)
  unfolding claim_attachments
  mem-claim_attachments path test [] manifest whole = (unfold mem in ground arith, whole)
  mem-claim_attachments path test (attachment ∷ rest) manifest whole =
      let (here, whole') = mem-claim_path path test attachment manifest whole in
      let (later, whole'') = mem-claim_attachments path test rest _ whole' in
      (
        later
            ∙ rw (here, mem-append path (attached_one (given_text attachment)) (attached rest))
                (or_assoc (mem path (claimed_in manifest))
                  (mem path (attached_one (given_text attachment))) (mem path (attached rest))),
        whole'',
      )

  -- After the fixture ran for a test on a manifest of whole lines, the teardown's manifest has the
  -- digest of exactly the existing paths that were claimed before, that are paths of the test's
  -- attachments, or that are visual recordings below the test's output directory.
  pub finalise-masked_capture :
      (test output_dir manifest path : Text) (attachments : List (Option Text))
      → IsWhole manifest
      → find_digest path
          (finalise F J sha256 (masked_capture F J sha256 test attachments output_dir manifest))
        ≡ (if F.exists path
              && (mem path (claimed F J sha256 (split 10 manifest))
                  || mem path (attached attachments)
                  || mem path (visual_below F output_dir))
            then some (sha256 (F.content path))
            else none)
  unfolding masked_capture
  finalise-masked_capture test output_dir manifest path attachments whole =
      let (same, whole') = mem-claim_attachments path test attachments manifest whole in
      finalise-find_digest F J sha256 _ path
      ∙ rw
          (
            mem-claim path (record { path = none; directory = some output_dir; test = some test }) _
                whole',
            same,
            mem-directory F output_dir test path,
          )
          refl
