-- ===== src/Shared/Initials.antt =====
-- `getInitials` of app/frontend/components/shared/profile/profile.tsx, on texts whose letters are
-- those of Latin-1.
pub mod Words
use opanel.Common.{
  ℕ, ◌-◌, Bool, true, false, not, ◌&&◌, ◌||◌, List, [], ◌∷◌, ◌++◌, map, filter, take, if◌then◌else◌,
  leb, ◌==◌,
}
use opanel.Common.Codes.{Text, codes, is_space, is_blank, trim_start}

-- `s.trim()`
unfoldable pub trim_end : Text → Text
trim_end [] = []
trim_end (c ∷ s) = let rest = trim_end s in if is_space c && is_blank s then [] else c ∷ rest

-- `c.toUpperCase()` of Latin-1: three of its letters go to a longer text or leave it.
unfoldable pub to_upper : ℕ → Text
to_upper c =
    if leb b'a' c && leb c b'z' || leb 0xe0 c && leb c 0xfe && not (c == 0xf7)
    then (c - 32) ∷ []
    else if c == 0xdf
    then codes "SS"
    else if c == 0xff
    then 0x178 ∷ []
    else if c == 0xb5
    then 0x39c ∷ []
    else c ∷ []

abbrev pub starts_space : Text → Bool
starts_space [] = false
starts_space (c ∷ s) = is_space c

abbrev pub push_front : ℕ → List Text → List Text
push_front c [] = (c ∷ []) ∷ []
push_front c (part ∷ parts) = (c ∷ part) ∷ parts

-- `s.split(/\s+/)`: a run of spaces is one separator.
unfoldable pub split_runs : Text → List Text
split_runs [] = [] ∷ []
split_runs (c ∷ s) =
    let rest = split_runs s in
    if is_space c then (if starts_space s then rest else [] ∷ rest) else push_front c rest

abbrev pub is_filled : Text → Bool
is_filled [] = false
is_filled (c ∷ s) = true

-- `part.charAt(0)`
abbrev pub char_at_0 : Text → Text
char_at_0 [] = []
char_at_0 (c ∷ s) = c ∷ []

abbrev pub concat : List Text → Text
concat [] = []
concat (s ∷ rest) = s ++ concat rest

-- `initials || '?'`
abbrev pub or_question : Text → Text
or_question [] = b'?' ∷ []
or_question (c ∷ s) = c ∷ s

abbrev pub initials_of : List Text → Text
initials_of words = or_question (concat (map to_upper (concat (map char_at_0 (take 2 words)))))

unfoldable pub get_initials : Text → Text
unfolding split_runs trim_start trim_end
get_initials name = initials_of (filter is_filled (split_runs (trim_end (trim_start name))))
