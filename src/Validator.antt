-- ===== src/Validator.antt =====
-- harness/validator.py: what a validator returns.
use kozo.Base.{
  ◌≡◌, ◌≢◌, arith, eq_iff, String, Option, none, some, List, [], ◌∷◌, ◌==◌, string_equality,
  if◌then◌else◌,
}
use kozo.Json.{Json}
use kozo.Registry.{pass, fail as fail_status}

pub record ValidationResult : Type 0 where
  pub status : String
  pub code : String
  pub detail : String
  pub action : Option String
  pub meta : List (String × Json)

-- `ValidationResult.pass_`
abbrev pub pass_ : String → String → ValidationResult
pass_ code detail = record { status = pass; code = code; detail = detail; action = none; meta = [] }

-- `ValidationResult.fail` with an action, and with what `meta` holds
abbrev pub fail_with : String → String → String → List (String × Json) → ValidationResult
fail_with code detail action meta = record {
  status = fail_status;
  code = code;
  detail = detail;
  action = some action;
  meta = meta;
}

abbrev pub fail : String → String → String → ValidationResult
fail code detail action = fail_with code detail action []

-- `result.meta.get(key)`
unfoldable pub meta_get : String → List (String × Json) → Option Json
meta_get key [] = none
meta_get key ((k, v) ∷ m) = if key == k then some v else meta_get key m

-- `result.status == PASS`
abbrev pub Passes : ValidationResult → Type 0
Passes result = result.status ≡ pass

pub fail-ne-pass : fail_status ≢ pass
fail-ne-pass = ground (arith, eq_iff "fail" "pass")
