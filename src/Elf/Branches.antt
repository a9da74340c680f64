-- ===== src/Elf/Branches.antt =====
-- The branches and calls of a disassembly: `instruction_target`, `branch_target`,
-- `backward_branch_records` and `_calls_address`. What `objdump` prints is a list of instructions.
use kozo.Base.{
  drop, ℕ, zero, suc, ◌+◌, ◌*◌, ◌-◌, String, Bool, false, not, ◌&&◌, any, all, null, ltb, leb, ◌==◌,
  nat_equality, if◌then◌else◌, Option, none, some, List, [], ◌∷◌, or_else,
}
use kozo.Base.Text.{Text, codes, starts_with}

pub record Instruction : Type 0 where
  pub address : ℕ
  pub mnemonic : String
  pub operands : String

-- `[a-z]` and `[0-9a-fA-F]`
abbrev is_lower_letter : ℕ → Bool
is_lower_letter c = leb b'a' c && leb c b'z'

unfoldable pub hex_value : ℕ → Option ℕ
hex_value c =
    if leb b'0' c && leb c b'9'
    then some (c - b'0')
    else if leb b'a' c && leb c b'f'
    then some (c - b'a' + 10)
    else if leb b'A' c && leb c b'F'
    then some (c - b'A' + 10)
    else none

-- The digits at the front, at most `room` of them.
unfoldable pub hex_digits : ℕ → Text → List ℕ
hex_digits zero t = []
hex_digits (suc room) [] = []
hex_digits (suc room) (c ∷ t) =
    let rest = hex_digits room t in elim (hex_value c) [ none ↦ [] | some d ↦ d ∷ rest ]

unfoldable pub of_digits : ℕ → List ℕ → ℕ
of_digits n [] = n
of_digits n (d ∷ ds) = of_digits (n * 16 + d) ds

-- `([0-9a-fA-F]{6,16})` at the front, as a number
unfoldable pub match_digits : Text → Option ℕ
unfolding hex_digits
match_digits t =
    let ds = hex_digits 16 t in if null (drop 5 ds) then none else some (of_digits 0 ds)

-- `(?:0x)?` before it
unfoldable pub match_operand : Text → Option ℕ
match_operand (c ∷ d ∷ t) =
    if c == b'0' && d == b'x'
    then or_else (match_digits t) (match_digits (c ∷ d ∷ t))
    else match_digits (c ∷ d ∷ t)
match_operand t = match_digits t

-- `HEX_OPERAND.search`: the first place where the pattern matches
unfoldable pub search_operand : Text → Option ℕ
search_operand [] = match_operand []
search_operand (c ∷ t) = or_else (match_operand (c ∷ t)) (search_operand t)

unfoldable pub instruction_target : String → Option ℕ
instruction_target operands = search_operand (codes operands)

-- `^j[a-z]+$`
unfoldable pub is_branch_mnemonic : Text → Bool
is_branch_mnemonic [] = false
is_branch_mnemonic (c ∷ t) = c == b'j' && not (null t) && all is_lower_letter t

unfoldable pub branch_target : String → String → Option ℕ
branch_target mnemonic operands =
    if is_branch_mnemonic (codes mnemonic) then instruction_target operands else none

-- One record, where the instruction branches to a lower address.
unfoldable pub backward_record : Instruction → Option (ℕ × ℕ)
backward_record i = elim (branch_target i.mnemonic i.operands) [
  | none ↦ none
  | some target ↦ if ltb target i.address then some (i.address, target) else none
]

-- `backward_branch_records`: the addresses of each record
unfoldable pub backward_branch_records : List Instruction → List (ℕ × ℕ)
backward_branch_records [] = []
backward_branch_records (i ∷ instructions) =
    let rest = backward_branch_records instructions in
    elim (backward_record i) [ none ↦ rest | some r ↦ r ∷ rest ]

unfoldable pub is_target : Option ℕ → ℕ → Bool
is_target none target = false
is_target (some address) target = address == target

-- `_calls_address`
unfoldable pub calls_address : List Instruction → Option ℕ → Bool
calls_address instructions none = false
calls_address instructions (some target) =
    any
      (λ i.
        starts_with (codes "call") (codes i.mnemonic)
        && is_target (instruction_target i.operands) target)
      instructions
