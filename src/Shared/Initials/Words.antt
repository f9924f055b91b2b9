-- ===== src/Shared/Initials/Words.antt =====
-- The initials are those of the words of the name.
use opanel.Common.{
  ℕ, Bool, true, false, ◌&&◌, List, [], ◌∷◌, filter, if◌then◌else◌, ◌≡◌, refl, sym, ap, ◌∙◌, arith,
  Bool-cases, inl, inr,
}
use opanel.Common.Codes.{Text, is_space, is_blank, trim_start}
use opanel.Shared.Initials.{trim_end, push_front, split_runs, is_filled, initials_of, get_initials}

-- The pieces of a text between its spaces, each space a separator.
unfoldable pub pieces : Text → List Text
pieces [] = [] ∷ []
pieces (c ∷ s) = let rest = pieces s in if is_space c then [] ∷ rest else push_front c rest

-- The words of a text: its pieces that are not empty.
abbrev pub words : Text → List Text
words s = filter is_filled (pieces s)

-- Two splits have one first part, and the same parts that are not empty after it.
record Alike (a b : List Text) : Type 0 where
  head : Text
  left : List Text
  right : List Text
  is_left : a ≡ head ∷ left
  is_right : b ≡ head ∷ right
  same : filter is_filled left ≡ filter is_filled right

push-Alike : (c : ℕ) {a b : List Text} → Alike a b → Alike (push_front c a) (push_front c b)
push-Alike c h = record {
  head = c ∷ h.head;
  left = h.left;
  right = h.right;
  is_left = rw h.is_left refl;
  is_right = rw h.is_right refl;
  same = h.same;
}

filled-Alike : {a b : List Text} → Alike a b → filter is_filled a ≡ filter is_filled b
filled-Alike h = rw (h.is_left, h.is_right) (ground (arith, h.same))

split_runs-last : (c : ℕ) → is_space c ≡ true → split_runs (c ∷ []) ≡ [] ∷ [] ∷ []
unfolding split_runs
split_runs-last c h = rw h refl

split_runs-letter :
    (c : ℕ) (s : Text) → is_space c ≡ false → split_runs (c ∷ s) ≡ push_front c (split_runs s)
unfolding split_runs
split_runs-letter c s h = rw h refl

-- A space that another follows does not change the parts.
split_runs-spaces :
    (c d : ℕ) (s : Text)
    → is_space c ≡ true
    → is_space d ≡ true
    → split_runs (c ∷ d ∷ s) ≡ split_runs (d ∷ s)
unfolding split_runs
split_runs-spaces c d s h again = rw h (rw again refl)

-- The last space of a run ends a part.
split_runs-run :
    (c d : ℕ) (s : Text)
    → is_space c ≡ true
    → is_space d ≡ false
    → split_runs (c ∷ d ∷ s) ≡ [] ∷ split_runs (d ∷ s)
unfolding split_runs
split_runs-run c d s h letter = rw h (rw letter refl)

-- A split of a text that starts with a space begins with an empty part.
split_runs-space :
    (c : ℕ) (s : Text) → is_space c ≡ true → (rest : List Text) × (split_runs (c ∷ s) ≡ [] ∷ rest)
split_runs-space c [] h = ([] ∷ [], split_runs-last c h)
split_runs-space c (d ∷ s) h = elim (Bool-cases (is_space d)) [
  | inl again ↦ rw (split_runs-spaces c d s h again) (split_runs-space d s again)
  | inr letter ↦ (split_runs (d ∷ s), split_runs-run c d s h letter)
]

-- A separator in front keeps two splits alike.
space-Alike :
    (c : ℕ) (s : Text)
    → is_space c ≡ true
    → Alike (split_runs s) (pieces s)
    → Alike (split_runs (c ∷ s)) ([] ∷ pieces s)
unfolding pieces
space-Alike c [] h a = record {
  head = [];
  left = [] ∷ [];
  right = [] ∷ [];
  is_left = split_runs-last c h;
  is_right = refl;
  same = refl;
}
space-Alike c (d ∷ s) h a = elim (Bool-cases (is_space d)) [
  | inl again ↦
      let start = split_runs-space d s again in
      record {
        head = [];
        left = start.0;
        right = pieces (d ∷ s);
        is_left = split_runs-spaces c d s h again ∙ start.1;
        is_right = refl;
        same = sym (ap (filter is_filled) start.1) ∙ filled-Alike a;
      }
  | inr letter ↦ record {
    head = [];
    left = split_runs (d ∷ s);
    right = pieces (d ∷ s);
    is_left = split_runs-run c d s h letter;
    is_right = refl;
    same = filled-Alike a;
  }
]

pieces-space : (c : ℕ) (s : Text) → is_space c ≡ true → pieces (c ∷ s) ≡ [] ∷ pieces s
unfolding pieces
pieces-space c s h = rw h refl

pieces-letter : (c : ℕ) (s : Text) → is_space c ≡ false → pieces (c ∷ s) ≡ push_front c (pieces s)
unfolding pieces
pieces-letter c s h = rw h refl

pieces-nil : pieces [] ≡ [] ∷ []
unfolding pieces
pieces-nil = refl

nil-Alike : Alike (split_runs []) (pieces [])
unfolding split_runs pieces
nil-Alike = record {
  head = [];
  left = [];
  right = [];
  is_left = refl;
  is_right = refl;
  same = refl;
}

split_runs-Alike : (s : Text) → Alike (split_runs s) (pieces s)
split_runs-Alike [] = nil-Alike
split_runs-Alike (c ∷ s) = elim (Bool-cases (is_space c)) [
  | inl space ↦ rw (pieces-space c s space) (space-Alike c s space (split_runs-Alike s))
  | inr letter ↦
      rw (split_runs-letter c s letter, pieces-letter c s letter)
        (push-Alike c (split_runs-Alike s))
]

trim_start-letter : (c : ℕ) (s : Text) → is_space c ≡ false → trim_start (c ∷ s) ≡ c ∷ s
unfolding trim_start
trim_start-letter c s h = rw h refl

words-trim_start : (s : Text) → words (trim_start s) ≡ words s
unfolding trim_start pieces
words-trim_start [] = refl
words-trim_start (c ∷ s) = elim (Bool-cases (is_space c)) [
  | inl space ↦ rw space (words-trim_start s)
  | inr letter ↦ ap words (trim_start-letter c s letter)
]

cons-Alike :
    (c : ℕ) (s t : Text) → Alike (pieces s) (pieces t) → Alike (pieces (c ∷ s)) (pieces (c ∷ t))
cons-Alike c s t a = elim (Bool-cases (is_space c)) [
  | inl space ↦
      rw (pieces-space c s space, pieces-space c t space)
        record {
          head = [];
          left = pieces s;
          right = pieces t;
          is_left = refl;
          is_right = refl;
          same = filled-Alike a;
        }
  | inr letter ↦ rw (pieces-letter c s letter, pieces-letter c t letter) (push-Alike c a)
]

and_true : (a b : Bool) → a && b ≡ true → (a ≡ true) × (b ≡ true)
and_true true b h = (refl, h)
and_true false b h = grind (arith, h)

-- A text of spaces is split like the empty text.
blank-Alike : (s : Text) → is_blank s ≡ true → Alike (pieces []) (pieces s)
blank-Alike [] h = record {
  head = [];
  left = [];
  right = [];
  is_left = pieces-nil;
  is_right = pieces-nil;
  same = refl;
}
blank-Alike (c ∷ s) h = record {
  head = [];
  left = [];
  right = pieces s;
  is_left = pieces-nil;
  is_right = pieces-space c s (and_true (is_space c) (is_blank s) h).0;
  same =
      sym (ap (filter is_filled) pieces-nil)
      ∙ filled-Alike (blank-Alike s (and_true (is_space c) (is_blank s) h).1);
}

trim_end-Alike : (s : Text) → Alike (pieces (trim_end s)) (pieces s)
unfolding trim_end
trim_end-Alike [] = blank-Alike [] refl
trim_end-Alike (c ∷ s) = elim (Bool-cases (is_space c && is_blank s)) [
  | inl h ↦ rw h (blank-Alike (c ∷ s) h)
  | inr h ↦ rw h (cons-Alike c (trim_end s) s (trim_end-Alike s))
]

-- The initials of a name are those of its words: the first letters of the first two of the
-- pieces between its spaces that are not empty, in upper case, or a question mark.
pub get_initials-words : (name : Text) → get_initials name ≡ initials_of (words name)
unfolding get_initials
get_initials-words name = ap initials_of (
    filled-Alike (split_runs-Alike (trim_end (trim_start name)))
    ∙ (filled-Alike (trim_end-Alike (trim_start name)) ∙ words-trim_start name))
