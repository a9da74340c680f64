-- ===== src/TrapPath/Function.antt =====
-- `_extract_rust_function_block`: a function's text, from `fn` to the brace that closes its body.
pub mod Body
use kozo.Base.{
  ℕ, zero, suc, ◌+◌, ◌-◌, String, Bool, true, false, not, ◌||◌, ◌&&◌, length, ◌==◌, nat_equality,
  if◌then◌else◌, List, [], ◌∷◌, Option, none, some, take,
}
use kozo.Base.Text.{Text, codes, is_space, strip_prefix}
use kozo.Source.{lstrip, matching_brace}
use kozo.Source.Pattern.{Piece, literal, spaces, some_spaces, match_pieces, search, until}

-- behind `[^\s{]*`
unfoldable pub drop_word : Text → Text
drop_word [] = []
drop_word (c ∷ t) = let rest = drop_word t in if is_space c || c == b'{' then c ∷ t else rest

abbrev pub starts_word : Text → Bool
starts_word [] = false
starts_word (c ∷ t) = not (is_space c || c == b'{')

-- behind the optional return type: nothing where an arrow has no type behind it
unfoldable pub after_return_type : Text → Option Text
after_return_type t = elim (strip_prefix (codes "->") (lstrip t)) [
  | none ↦ some t
  | some rest ↦ if starts_word (lstrip rest) then some (drop_word (lstrip rest)) else none
]

-- `fn name(...)`: what follows the parenthesis
unfoldable pub after_parameters : String → Text → Option Text
after_parameters name t =
    elim (match_pieces
      (literal (codes "fn")
        ∷ some_spaces
        ∷ literal (codes name)
        ∷ spaces
        ∷ literal (codes "(")
        ∷ [])
      t) [
        | none ↦ none
        | some inside ↦ elim (until b')' inside) [
          | none ↦ none
          | some (parameters, rest) ↦ some rest
        ]
      ]

-- `_FUNCTION_PATTERN_TEMPLATE`: what follows the opening brace
unfoldable pub function_header : String → Text → Option Text
function_header name t = elim (after_parameters name t) [
  | none ↦ none
  | some rest ↦ elim (after_return_type rest) [
    | none ↦ none
    | some brace ↦ strip_prefix (codes "{") (lstrip brace)
  ]
]

-- a match with the text from its position on
abbrev pub header_at : String → Text → Option (Text × Text)
header_at name t = elim (function_header name t) [ none ↦ none | some body ↦ some (t, body) ]

-- `source[match.start():block_end + 1]`
abbrev pub block_to : Text → Text → ℕ → Text
block_to start body index = take ((length start - length body) + suc index) start

-- `_extract_rust_function_block`
unfoldable pub extract_rust_function_block : Text → String → Option Text
extract_rust_function_block source name = elim (search (header_at name) source) [
  | none ↦ none
  | some (start, body) ↦ elim (matching_brace 1 body) [
    | none ↦ none
    | some index ↦ some (block_to start body index)
  ]
]
