-- ===== src/Source/Pattern.antt =====
-- Regular expressions of the sources: literals, and white space before literals that begin with none,
-- so that taking all of the white space is the only way to match.
use kozo.Base.{
  ℕ, zero, suc, ◌-◌, Bool, false, length, ◌==◌, nat_equality, if◌then◌else◌, List, [], ◌∷◌, Option,
  none, some,
}
use kozo.Base.Text.{Text, is_space, strip_prefix}
use kozo.Source.{lstrip}

pub data Piece : Type 0 where
  literal : Text → Piece
  spaces : Piece
  some_spaces : Piece

abbrev pub starts_space : Text → Bool
starts_space [] = false
starts_space (c ∷ t) = is_space c

-- what follows a match at the beginning of the text
unfoldable pub match_pieces : List Piece → Text → Option Text
match_pieces [] t = some t
match_pieces (literal p ∷ pieces) t = elim (strip_prefix p t) [
  | none ↦ none
  | some rest ↦ match_pieces pieces rest
]
match_pieces (spaces ∷ pieces) t = match_pieces pieces (lstrip t)
match_pieces (some_spaces ∷ pieces) t =
    let rest = match_pieces pieces (lstrip t) in if starts_space t then rest else none

abbrev pub first_some : {A : Type 0} → Option A → Option A → Option A
first_some (some a) later = some a
first_some none later = later

-- `pattern.search`: the first position at which the match succeeds
unfoldable pub search : {A : Type 0} → (Text → Option A) → Text → Option A
search at_position [] = at_position []
search at_position (c ∷ t) =
    let later = search at_position t in first_some (at_position (c ∷ t)) later

-- `len(pattern.findall(text))`: a match is not counted before the one before it ended
unfoldable pub count_from : (Text → Option Text) → ℕ → Text → ℕ
count_from at_position skip [] = 0
count_from at_position (suc skip) (c ∷ t) = count_from at_position skip t
count_from at_position zero (c ∷ t) = elim (at_position (c ∷ t)) [
  | none ↦ count_from at_position zero t
  | some rest ↦ suc (count_from at_position (length t - length rest) t)
]

-- the text before the first such character, and the text behind it
unfoldable pub until : ℕ → Text → Option (Text × Text)
until stop [] = none
until stop (c ∷ t) =
    let later = until stop t in
    if c == stop
    then some ([], t)
    else elim later [ none ↦ none | some (body, rest) ↦ some (c ∷ body, rest) ]

-- The same with the character before the position, which `\b` looks at.
unfoldable pub search_between :
    {A : Type 0} → (Option ℕ → Text → Option A) → Option ℕ → Text → Option A
search_between at_position before [] = at_position before []
search_between at_position before (c ∷ t) =
    let later = search_between at_position (some c) t in
    first_some (at_position before (c ∷ t)) later
