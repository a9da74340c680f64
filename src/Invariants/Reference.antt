-- ===== src/Invariants/Reference.antt =====
-- `VERIFICATION_REF_PATTERN` of harness/invariants.py, `verification.SECTION[DIGITS]`, and the
-- split of a reference into its section and index, which verification_refs.py and summarize.py make.
pub mod Shape
use kozo.Base.{
  ℕ, String, Bool, true, false, ◌&&◌, any, null, all, ◌==◌, nat_equality, List, [], ◌∷◌, map,
  if◌then◌else◌,
}
use kozo.Base.{Option, none, some}
use kozo.Base.Text.{Text, codes, is_digit, strip_prefix, int_of_digits}
use kozo.Registry.{verification_sections}

-- `[0-9]+\]` to the end
unfoldable pub match_index : Text → Bool
match_index [] = false
match_index (c ∷ []) = false
match_index (c ∷ d ∷ []) = is_digit c && d == b']'
match_index (c ∷ d ∷ e ∷ t) = is_digit c && match_index (d ∷ e ∷ t)

-- the text after `verification.`, against one section
unfoldable pub match_section : Text → Text → Bool
match_section t section = elim (strip_prefix section t) [
  | none ↦ false
  | some rest ↦ elim (strip_prefix (b'[' ∷ []) rest) [
    | none ↦ false
    | some index ↦ match_index index
  ]
]

-- `_VERIFICATION_REF_RE.fullmatch(ref)`
unfoldable pub fullmatch_ref : Text → Bool
fullmatch_ref t = elim (strip_prefix (codes "verification.") t) [
  | none ↦ false
  | some rest ↦ any (match_section rest) (map codes verification_sections)
]

abbrev pub push : ℕ → Option (Text × Text) → Option (Text × Text)
push d none = none
push d (some (a, b)) = some (d ∷ a, b)

-- `text.split(c, 1)` where it gives two parts
unfoldable pub split_once : ℕ → Text → Option (Text × Text)
split_once c [] = none
split_once c (d ∷ t) = if d == c then some ([], t) else push d (split_once c t)

-- `text[:-1]`
unfoldable pub drop_last : Text → Text
drop_last [] = []
drop_last (c ∷ []) = []
drop_last (c ∷ d ∷ t) = c ∷ drop_last (d ∷ t)

abbrev split_section : Text → Text → Option (Text × ℕ)
unfolding split_once drop_last int_of_digits
split_section prefix index = elim (split_once b'.' prefix) [
  | none ↦ none
  | some (_, section) ↦ some (section, int_of_digits 0 (drop_last index))
]

-- The section and the index that the two splits give.
unfoldable pub split_ref : Text → Option (Text × ℕ)
unfolding split_once drop_last int_of_digits split_section
split_ref ref = elim (split_once b'[' ref) [
  | none ↦ none
  | some (prefix, index) ↦ split_section prefix index
]

-- The section and the index of a reference; `none` is the `ValueError`.
unfoldable pub resolve_ref : Text → Option (Text × ℕ)
resolve_ref ref = if fullmatch_ref ref then split_ref ref else none
