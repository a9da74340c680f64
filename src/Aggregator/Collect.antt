-- ===== src/Aggregator/Collect.antt =====
-- `_collect_results` and `_build_validation_bundle` of harness/aggregator.py.

use kozo.Base.{
  String, Bool, true, false, not, ◌==◌, string_equality, List, [], ◌∷◌, map, none, some, ◌&&◌,
}
use kozo.Json.{str, arr, Fields}
use kozo.Json.Access.{put, strings}
use kozo.Result.{ok, raise, ◌>>=◌, ◌>>◌}
use kozo.Aggregator.Types.{missing_key, wrong_order, Run, Validator, RawResult, reject_if}
use kozo.Aggregator.Inputs.{nonempty_string}
use kozo.Aggregator.Registration.{expected_order, ValidatorMap, find_validator, build_validator_map}

unfoldable pub get_validator : String → ValidatorMap → Run Validator
get_validator name registered = elim (find_validator name registered) [
  | none ↦ raise (missing_key name)
  | some v ↦ ok v
]

-- the loop of `_collect_results`; the names of the results are `seen_names`
unfoldable pub collect : ValidatorMap → Fields → List String → Run (List RawResult)
collect registered bundle [] = ok []
collect registered bundle (name ∷ names) = do
  v ← get_validator name registered
  validator_name ← nonempty_string v.name "validator.name"
  subsystem ← nonempty_string v.subsystem "validator.subsystem"
  result ← v.validate bundle
  rest ← collect registered bundle names
  ok (record { name = validator_name; subsystem = subsystem; result = result } ∷ rest)

-- `tuple(seen_names) == _EXPECTED_VALIDATOR_ORDER`
unfoldable pub text_lists_equal : List String → List String → Bool
text_lists_equal [] [] = true
text_lists_equal (a ∷ as') (b ∷ bs) = a == b && text_lists_equal as' bs
text_lists_equal _ _ = false

-- `_collect_results`
unfoldable pub collect_results : List Validator → Fields → Run (List RawResult)
collect_results validators bundle = do
  registered ← build_validator_map validators
  collected ← collect registered bundle expected_order
  let seen_names = map (λ (r : RawResult). r.name) collected
  reject_if (not (text_lists_equal seen_names expected_order)) (wrong_order expected_order)
  ok collected

-- `_build_validation_bundle`
unfoldable pub build_validation_bundle :
    Fields → List String → List String → String → String → Fields
build_validation_bundle bundle changed evidence run_id generated_at =
    put "generated_at" (str generated_at) (
      put "run_id" (str run_id) (
        put "evidence_files" (arr (strings evidence))
          (put "changed_files" (arr (strings changed)) bundle)))
