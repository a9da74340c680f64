-- ===== src/Source.antt =====
-- What the validators of sources ask of a text: the string methods that they call, anchors, lines,
-- braces. A position in a text is the rest of the text from there.
pub mod Search
pub mod Order
pub mod Braces
pub mod Pattern
use kozo.Base.{
  ℕ, zero, suc, ◌+◌, ◌-◌, String, Bool, true, false, not, ◌&&◌, ◌||◌, null, length, ltb, leb, ◌==◌,
  nat_equality, if◌then◌else◌, List, [], ◌∷◌, ◌++◌, Option, none, some, take, drop,
}
use kozo.Base.Text.{Text, codes, is_space, starts_with, strip_prefix, text_equality}

-- what follows the first place where the needle stands
abbrev pub or_later : Option Text → Option Text → Option Text
or_later (some rest) later = some rest
or_later none later = later

-- `text.find(needle, cursor)` with the cursor after what was found
unfoldable pub find_after : Text → Text → Option Text
find_after needle [] = strip_prefix needle []
find_after needle (c ∷ t) =
    let later = find_after needle t in or_later (strip_prefix needle (c ∷ t)) later

-- `needle in text`
unfoldable pub occurs : Text → Text → Bool
occurs needle [] = starts_with needle []
occurs needle (c ∷ t) = let later = occurs needle t in starts_with needle (c ∷ t) || later

-- `line.lstrip()`
unfoldable pub lstrip : Text → Text
lstrip [] = []
lstrip (c ∷ t) = let rest = lstrip t in if is_space c then rest else c ∷ t

unfoldable pub rstrip : Text → Text
rstrip [] = []
rstrip (c ∷ t) = let rest = rstrip t in if is_space c && null rest then [] else c ∷ rest

-- `line.strip()`
abbrev pub strip : Text → Text
strip t = rstrip (lstrip t)

-- where `str.splitlines` ends a line
abbrev is_break : ℕ → Bool
is_break c = (leb 10 c && leb c 13) || (leb 28 c && leb c 30) || c == 133 || c == 8232 || c == 8233

abbrev on_first_line : ℕ → List Text → List Text
on_first_line c [] = (c ∷ []) ∷ []
on_first_line c (line ∷ lines) = (c ∷ line) ∷ lines

abbrev starts_line_feed : Text → Bool
starts_line_feed [] = false
starts_line_feed (c ∷ t) = c == 10

-- `text.splitlines()`: a carriage return with a line feed ends one line
unfoldable pub splitlines : Text → List Text
splitlines [] = []
splitlines (c ∷ t) =
    let rest = splitlines t in
    if is_break c
    then (if c == 13 && starts_line_feed t then rest else [] ∷ rest)
    else on_first_line c rest

-- `"\n".join(lines)`
unfoldable pub join_lines : List Text → Text
join_lines [] = []
join_lines (line ∷ []) = line
join_lines (line ∷ next ∷ lines) = line ++ (10 ∷ join_lines (next ∷ lines))

-- an index from the character before
abbrev pub next_index : Option ℕ → Option ℕ
next_index none = none
next_index (some index) = some (suc index)

abbrev pub next_depth : ℕ → ℕ → ℕ
next_depth c depth = if c == b'{' then suc depth else if c == b'}' then depth - 1 else depth

-- `_matching_brace_index` from behind the opening brace, where the depth is one
unfoldable pub matching_brace : ℕ → Text → Option ℕ
matching_brace depth [] = none
matching_brace depth (c ∷ t) =
    let next = next_depth c depth in
    let rest = matching_brace next t in if c == b'}' && next == 0 then some 0 else next_index rest

-- The loop over ordered anchors: each is searched for behind the one before, and the first that is not
-- found ends it.
unfoldable pub first_missing : {A : Type 0} → (A → Text) → List A → Text → Option A
first_missing needle [] t = none
first_missing needle (anchor ∷ anchors) t = elim (find_after (needle anchor) t) [
  | none ↦ some anchor
  | some rest ↦ first_missing needle anchors rest
]

-- the first anchor whose needle the text lacks
unfoldable pub first_absent : {A : Type 0} → (A → Text) → List A → Text → Option A
first_absent needle [] t = none
first_absent needle (anchor ∷ anchors) t =
    if occurs (needle anchor) t then first_absent needle anchors t else some anchor
