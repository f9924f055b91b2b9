-- ===== src/Tests/Recordings.antt =====
-- The theorems of E2e at concrete inputs: a disk with one recording, and a JSON with unary numbers.
use opanel.Common.{
  ℕ, zero, suc, ◌+◌, ◌<◌, Bool, true, false, ◌||◌, ◌&&◌, Option, none, some, List, [], ◌∷◌, ◌++◌,
  ◌≡◌, ◌≢◌, ◌↔◌, refl, sym, ap, ◌∙◌, arith, All, inl, inr, Bool-cases, if◌then◌else◌, ◌==◌,
}
use mathlib.Core.List.{append-nil, append_assoc, Memᴰ}
use opanel.Common.Codes.{Text, codes, text_eq, text_eq_iff, split}
use opanel.E2e.Manifest.{FileSystem, Claim, ClaimJson, claim, files_under, finalise, masked_capture}
use opanel.E2e.Manifest.Files.{IsFile, Below, files_under-Below, files_under-All}
use opanel.E2e.Manifest.Vouched.{
  find_digest, mem, claimed, IsDistinct, finalise-find_digest, finalise-IsDistinct,
}
use opanel.E2e.Manifest.Claimed.{attached, visual_below, finalise-masked_capture}

abbrev pub emit : ℕ → Text → Text
emit zero rest = 48 ∷ rest
emit (suc n) rest = 49 ∷ emit n rest

abbrev pub write_text : Text → Text → Text
write_text [] rest = 50 ∷ rest
write_text (c ∷ s) rest = emit c (write_text s rest)

abbrev pub write_field : Option Text → Text → Text
write_field none rest = 51 ∷ rest
write_field (some s) rest = write_text s rest

abbrev pub write : Claim → Text
write c = 52 ∷ write_field c.path (write_field c.directory (write_field c.test []))

pub data Mark : Type 0 where
  unit one ended missing : Mark

abbrev pub mark : ℕ → Mark
mark c = if c == 48 then unit else if c == 49 then one else if c == 50 then ended else missing

abbrev pub read_fields : Text → ℕ → Text → List (Option Text)
read_fields [] n current = []
read_fields (c ∷ s) n current = elim (mark c) [
  | unit ↦ read_fields s 0 (current ++ n ∷ [])
  | one ↦ read_fields s (suc n) current
  | ended ↦ some current ∷ read_fields s 0 []
  | missing ↦ none ∷ read_fields s 0 []
]

abbrev pub claim_of : List (Option Text) → Option Claim
claim_of (a ∷ b ∷ c ∷ []) = some (record { path = a; directory = b; test = c })
claim_of _ = none

abbrev pub read_claim : Text → Option Claim
read_claim [] = none
read_claim (c ∷ s) = claim_of (read_fields s 0 [])

read_fields-emit :
    (m n : ℕ) (rest current : Text)
    → read_fields (emit m rest) n current ≡ read_fields rest 0 (current ++ (n + m) ∷ [])
read_fields-emit zero n rest current =
    ap (λ k. read_fields rest 0 (current ++ k ∷ [])) (omega arith)
read_fields-emit (suc m) n rest current =
    read_fields-emit m (suc n) rest current
    ∙ ap (λ k. read_fields rest 0 (current ++ k ∷ [])) (omega arith)

read_fields-text :
    (s rest current : Text)
    → read_fields (write_text s rest) 0 current ≡ some (current ++ s) ∷ read_fields rest 0 []
read_fields-text [] rest current =
    ap (λ s. some s ∷ read_fields rest 0 []) (sym (append-nil current))
read_fields-text (c ∷ s) rest current =
    read_fields-emit c 0 (write_text s rest) current
    ∙ (read_fields-text s rest (current ++ (0 + c) ∷ [])
        ∙ ap (λ t. some t ∷ read_fields rest 0 [])
            (append_assoc current ((0 + c) ∷ []) s ∙ ap (λ k. current ++ k ∷ s) (omega arith)))

emit-one_line :
    (n : ℕ) (rest : Text) → All (λ unit. unit ≢ 10) rest → All (λ unit. unit ≢ 10) (emit n rest)
emit-one_line zero rest h = (omega arith, h)
emit-one_line (suc n) rest h = (omega arith, emit-one_line n rest h)

write_text-one_line :
    (s rest : Text) → All (λ unit. unit ≢ 10) rest → All (λ unit. unit ≢ 10) (write_text s rest)
write_text-one_line [] rest h = (omega arith, h)
write_text-one_line (c ∷ s) rest h = emit-one_line c _ (write_text-one_line s rest h)

write_field-one_line :
    (s : Option Text) (rest : Text)
    → All (λ unit. unit ≢ 10) rest
    → All (λ unit. unit ≢ 10) (write_field s rest)
write_field-one_line none rest h = (omega arith, h)
write_field-one_line (some s) rest h = write_text-one_line s rest h

read_fields-field :
    (s : Option Text) (rest : Text)
    → read_fields (write_field s rest) 0 [] ≡ s ∷ read_fields rest 0 []
read_fields-field none rest = refl
read_fields-field (some s) rest = read_fields-text s rest []

pub unary_json : ClaimJson
unary_json = record {
  stringify = write;
  parse = read_claim;
  parse_stringify = λ c. ap claim_of (
      read_fields-field c.path _
      ∙ ap (λ rest. c.path ∷ rest)
          (read_fields-field c.directory _
            ∙ ap (λ rest. c.directory ∷ rest) (read_fields-field c.test [])));
  one_line = λ c. (
    omega arith,
    write_field-one_line c.path _
        (write_field-one_line c.directory _ (write_field-one_line c.test [] tt)),
  );
  not_blank = λ c. refl;
}

-- The directory `out` with one file.
abbrev pub out : Text
out = codes "out"

abbrev pub shot : Text
shot = codes "out/a.png"

abbrev pub files_of : Bool → List Text
files_of true = codes "a.png" ∷ []
files_of false = []

abbrev pub depth_of : Bool → ℕ
depth_of true = 1
depth_of false = 0

abbrev pub entries_at : Text → List Text
entries_at d = files_of (text_eq d out)

abbrev pub join_at : Text → Text → Text
join_at d name = d ++ 47 ∷ name

pub there :
    (d : Text)
    → All
        (λ name. (text_eq (join_at d name) out || text_eq (join_at d name) shot) ≡ true)
        (entries_at d)
unfolding text_eq
there d = elim (Bool-cases (text_eq d out)) [
  | inl here ↦ rw ((text_eq_iff d out).0 here) (refl, tt)
  | inr other ↦ rw other tt
]

pub falls :
    (d : Text)
    → All
        (λ name.
          text_eq (join_at d name) out ≡ true
          → depth_of (text_eq (join_at d name) out) < depth_of (text_eq d out))
        (entries_at d)
unfolding text_eq
falls d = elim (Bool-cases (text_eq d out)) [
  | inl here ↦ rw ((text_eq_iff d out).0 here) ((λ h. omega arith), tt)
  | inr other ↦ rw other tt
]

abbrev pub disk : FileSystem
disk = record {
  exists = λ p. text_eq p out || text_eq p shot;
  is_directory = λ p. text_eq p out;
  entries = entries_at;
  join_path = join_at;
  content = λ p. p;
  depth = λ p. depth_of (text_eq p out);
  entries_exist = λ d h. there d;
  depth_falls = falls;
}

-- A claim of the directory, as the manifest of an earlier test.
abbrev before : Text
before =
    claim disk unary_json (λ s. s) (record { path = some shot; directory = none; test = none }) []

files_under-Below_example : Memᴰ shot (files_under disk out) ↔ Below disk shot out
files_under-Below_example = files_under-Below disk out shot

files_under-All_example : All (IsFile disk) (files_under disk out)
files_under-All_example = files_under-All disk out

finalise-find_digest_example : find_digest shot (finalise disk unary_json (λ s. s) before) ≡ (
    if true && mem shot (claimed disk unary_json (λ s. s) (split 10 before))
    then some shot
    else none)
unfolding mem text_eq
finalise-find_digest_example = finalise-find_digest disk unary_json (λ s. s) before shot

finalise-IsDistinct_example : IsDistinct (finalise disk unary_json (λ s. s) before)
finalise-IsDistinct_example = finalise-IsDistinct disk unary_json (λ s. s) before

finalise-masked_capture_example :
    find_digest shot (
      finalise disk unary_json
        (λ s. s)
        (masked_capture disk unary_json (λ s. s) (codes "t") (some shot ∷ none ∷ []) out []))
    ≡ (if true
          && (mem shot (claimed disk unary_json (λ s. s) (split 10 []))
              || mem shot (attached disk unary_json (λ s. s) (some shot ∷ none ∷ []))
              || mem shot (visual_below disk out))
        then some shot
        else none)
unfolding mem text_eq
finalise-masked_capture_example =
    finalise-masked_capture disk unary_json (λ s. s) (codes "t") out [] shot (some shot ∷ none ∷ [])
      (inl refl)
