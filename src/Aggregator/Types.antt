-- ===== src/Aggregator/Types.antt =====
-- The data of harness/aggregator.py: its errors, a registered validator, and the entries that it makes.

use kozo.Base.{ℕ, String, Bool, true, false, string_equality, List, Option}
use kozo.Json.{Items, Fields}
use kozo.Result.{Result, ok, raise}
use kozo.Schema.{SchemaError}
use kozo.Validator.{ValidationResult}

-- The `ValueError`s by their arguments, the errors of the schema check, and an exception that a
-- validator raises.
pub data AggregatorError : Type 0 where
  empty_string duplicate_validator not_canonical unknown_subsystem wrong_subsystem invalid_status
        unknown_code pass_without_ok fail_with_ok missing_key validator_raised :
      String → AggregatorError
  missing_checks extra_checks wrong_order : List String → AggregatorError
  invalid_artifact : SchemaError → AggregatorError

abbrev pub Run : Type 0 → Type 0
Run A = Result AggregatorError A

pub record Validator : Type 0 where
  pub name : String
  pub subsystem : String
  pub validate : Fields → Run ValidationResult

pub record CheckEntry : Type 0 where
  pub name : String
  pub subsystem : String
  pub status : String
  pub code : String
  pub detail : String
  pub sub_results : Option Items

pub record FailedCheck : Type 0 where
  pub name : String
  pub subsystem : String
  pub code : String
  pub detail : String
  pub action : Option String
  pub action_code : Option String
  pub sub_results : Option Items

pub record Normalized : Type 0 where
  pub check : CheckEntry
  pub failed_projection : Option FailedCheck

pub record Artifact : Type 0 where
  pub run_id : String
  pub status : String
  pub summary_code : String
  pub summary_subsystem : String
  pub total_checks : ℕ
  pub failed_check_count : ℕ
  pub checks : List CheckEntry
  pub failed_checks : List FailedCheck
  pub changed_files : List String
  pub evidence_files : List String
  pub generated_at : String

-- `if test: raise error`
abbrev pub reject_if : Bool → AggregatorError → Run (Unit {0})
reject_if true e = raise e
reject_if false e = ok tt

pub record RawResult : Type 0 where
  pub name : String
  pub subsystem : String
  pub result : ValidationResult
