-- ===== src/Issue.antt =====
-- What the contract validators find: an issue, nothing, or the `KeyError` of a lookup.
pub mod Laws
use kozo.Base.{
  String, Bool, true, false, not, ◌≡◌, refl, Option, none, some, or_else, List, [], ◌∷◌,
}
use kozo.Result.{Result, ok, raise, ◌>>=◌}

pub record Issue : Type 0 where
  pub reason : String
  pub contract_field : String
  pub detail : String

abbrev pub Find : Type 0
Find = Option Issue

-- `_issue`
abbrev pub issue : String → String → String → Issue
issue reason contract_field detail = record {
  reason = reason;
  contract_field = contract_field;
  detail = detail;
}

-- `if not test: return _issue(...)`
abbrev pub issue_unless : Bool → String → String → String → Find
issue_unless true reason contract_field detail = none
issue_unless false reason contract_field detail = some (issue reason contract_field detail)

-- `_first_issue`, and a loop that returns the first issue that its body gives
abbrev pub first_issue : List Find → Find
first_issue [] = none
first_issue (found ∷ rest) = or_else found (first_issue rest)

abbrev pub first_of : {A : Type 0} → (A → Find) → List A → Find
first_of check [] = none
first_of check (a ∷ rest) = or_else (check a) (first_of check rest)

-- The exceptions of a check: the `KeyError` of a key, or that the fuel of a loop ran out, which is no
-- exception of the program.
pub data Raised : Type 0 where
  key_error : String → Raised
  out_of_fuel : Raised

abbrev pub Check : Type 0
Check = Result Raised Find

-- An issue ends a run of checks, and what comes after it is not evaluated.
abbrev pub then_check : Find → Check → Check
then_check none next = next
then_check (some i) next = ok (some i)

-- `_first_check_issue` on its lambdas
abbrev pub first_check : List Check → Check
first_check [] = ok none
first_check (check ∷ rest) = check >>= λ found. then_check found (first_check rest)

-- a loop that returns the first issue of its body, whose lookups may raise
abbrev pub first_check_of : {A : Type 0} → (A → Check) → List A → Check
first_check_of check [] = ok none
first_check_of check (a ∷ rest) = check a >>= λ found. then_check found (first_check_of check rest)
