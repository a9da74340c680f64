-- ===== src/SyscallTable/Scan.antt =====
-- The scans of harness/validators_impl/syscall_table_contract.py.
pub mod Mutation
use kozo.Base.{
  ℕ, suc, ◌-◌, String, Bool, true, false, not, ◌&&◌, ◌||◌, length, leb, ◌==◌, nat_equality,
  if◌then◌else◌, [], ◌∷◌, ◌++◌, Option, none, some, take,
}
use kozo.Base.Text.{Text, codes, strip_prefix, is_digit}
use kozo.Source.{lstrip, find_after, matching_brace}
use kozo.Source.Pattern.{literal, spaces, some_spaces, match_pieces, search_between, count_from}

-- `[a-z0-9_]`
abbrev is_name_character : ℕ → Bool
is_name_character c = (leb b'a' c && leb c b'z') || is_digit c || c == b'_'

abbrev starts_name : Text → Bool
starts_name [] = false
starts_name (c ∷ t) = (leb b'a' c && leb c b'z') || c == b'_'

unfoldable pub drop_name : Text → Text
drop_name [] = []
drop_name (c ∷ t) = let rest = drop_name t in if is_name_character c then rest else c ∷ t

-- `\s*=(?!=)`
abbrev is_assigned : Text → Bool
is_assigned [] = false
is_assigned (c ∷ []) = c == b'='
is_assigned (c ∷ d ∷ t) = c == b'=' && not (d == b'=')

unfoldable pub last_of : Text → Option ℕ
last_of [] = none
last_of (c ∷ []) = some c
last_of (c ∷ d ∷ t) = last_of (d ∷ t)

-- `_balanced_block` at an opening brace; `inside` is what follows the brace
unfoldable pub balanced_block : Text → Option Text
balanced_block inside = elim (matching_brace 1 inside) [
  | none ↦ none
  | some index ↦ some (b'{' ∷ take (suc index) inside)
]

-- `_after_switch_body`
unfoldable pub after_switch_body : Text → Text → Text
after_switch_body source switch_body = elim (find_after switch_body source) [
  | none ↦ []
  | some rest ↦ rest
]

-- `text.count(needle)`
unfoldable pub count : Text → Text → ℕ
count needle t = count_from (strip_prefix needle) 0 t

module _ (is_word : ℕ → Bool) where
  abbrev word_before : Option ℕ → Bool
  word_before none = false
  word_before (some c) = is_word c

  abbrev word_at : Text → Bool
  word_at [] = false
  word_at (c ∷ t) = is_word c

  -- `\b`
  abbrev boundary : Option ℕ → Text → Bool
  boundary before t = if word_before before then not (word_at t) else word_at t

  -- `\bSYMBOL\s*::\s*proc\b`: the text from the match on, and what follows it
  unfoldable pub match_declaration : String → Option ℕ → Text → Option (Text × Text)
  match_declaration symbol before t =
      if boundary before t
      then elim (match_pieces
          (literal (codes symbol)
            ∷ spaces
            ∷ literal (codes "::")
            ∷ spaces
            ∷ literal (codes "proc")
            ∷ [])
          t) [
            | none ↦ none
            | some rest ↦ if boundary (some b'c') rest then some (t, rest) else none
          ]
      else none

  -- `_braced_declaration_block`
  unfoldable pub braced_declaration_block : Text → String → Option Text
  braced_declaration_block source symbol =
      elim (search_between (match_declaration symbol) none source) [
        | none ↦ none
        | some (start, rest) ↦ elim (find_after (codes "{") rest) [
          | none ↦ none
          | some inside ↦ elim (balanced_block inside) [
            | none ↦ none
            | some body ↦ some (take (length start - suc (length inside)) start ++ body)
          ]
        ]
      ]

  -- `\bswitch\s+id\s*{`: what follows the brace
  unfoldable pub match_switch : Option ℕ → Text → Option Text
  match_switch before t =
      if boundary before t
      then match_pieces
          (literal (codes "switch")
            ∷ some_spaces
            ∷ literal (codes "id")
            ∷ spaces
            ∷ literal (codes "{")
            ∷ [])
          t
      else none

  -- `_switch_body` on `id`
  unfoldable pub switch_body_of : Text → Option Text
  switch_body_of source = elim (search_between match_switch none source) [
    | none ↦ none
    | some inside ↦ balanced_block inside
  ]

  abbrev is_found : {A : Type 0} → Option A → Bool
  is_found none = false
  is_found (some a) = true

  -- `\bpayload\.[a-z_][a-z0-9_]*\s*=(?!=)`
  unfoldable pub match_mutation : Option ℕ → Text → Option Text
  match_mutation before t =
      if boundary before t
      then elim (strip_prefix (codes "payload.") t) [
        | none ↦ none
        | some field ↦
            if starts_name field && is_assigned (lstrip (drop_name field)) then some field else none
      ]
      else none

  unfoldable pub mutates : Text → Bool
  mutates t = is_found (search_between match_mutation none t)

  -- `\breturn\s+abi\.\w+`
  unfoldable pub match_return : Option ℕ → Text → Option Text
  match_return before t =
      if boundary before t
      then elim (match_pieces (literal (codes "return") ∷ some_spaces ∷ literal (codes "abi.") ∷ [])
          t) [ none ↦ none | some status ↦ if word_at status then some status else none ]
      else none

  unfoldable pub has_return : Text → Bool
  has_return t = is_found (search_between match_return none t)

  -- `_rust_type_exists`
  unfoldable pub match_rust_type : String → Option ℕ → Text → Option Text
  match_rust_type type_name before t =
      if boundary before t
      then elim (match_pieces
          (literal (codes "pub")
            ∷ some_spaces
            ∷ literal (codes "type")
            ∷ some_spaces
            ∷ literal (codes type_name)
            ∷ [])
          t) [
            | none ↦ none
            | some rest ↦ if boundary (last_of (codes type_name)) rest then some rest else none
          ]
      else none

  unfoldable pub rust_type_exists : Text → String → Bool
  rust_type_exists source type_name =
      is_found (search_between (match_rust_type type_name) none source)

  -- `_odin_type_exists`
  unfoldable pub match_odin_type : String → Option ℕ → Text → Option Text
  match_odin_type type_name before t =
      if boundary before t
      then match_pieces (literal (codes type_name) ∷ spaces ∷ literal (codes "::") ∷ []) t
      else none

  unfoldable pub odin_type_exists : Text → String → Bool
  odin_type_exists source type_name =
      is_found (search_between (match_odin_type type_name) none source)
