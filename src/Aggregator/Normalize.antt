-- ===== src/Aggregator/Normalize.antt =====
-- `_normalize_result` of harness/aggregator.py.
use Prim.Native.String.{◌++◌ as ◌<>◌}
use kozo.Base.{
  String, Bool, true, not, contains, ◌==◌, string_equality, if◌then◌else◌, List, [], ◌∷◌, Option,
  none, some, ◌&&◌,
}
use kozo.Json.{Json, str, arr, Items}
use kozo.Registry.{pass, fail, is_subsystem, is_code}
use kozo.Registry.Codes.{ok as ok_code}
use kozo.Result.{ok, ◌>>=◌, ◌>>◌}
use kozo.Validator.{ValidationResult, meta_get}
use kozo.Aggregator.Types.{
  not_canonical, unknown_subsystem, wrong_subsystem, invalid_status, unknown_code, pass_without_ok,
  fail_with_ok, Run, FailedCheck, Normalized, RawResult, reject_if,
}
use kozo.Aggregator.Inputs.{nonempty_string}
use kozo.Aggregator.Registration.{expected_order, expected_subsystem}

-- `result.meta.get("sub_results")` if it is a list
abbrev pub as_list : Option Json → Option Items
as_list (some (arr xs)) = some xs
as_list _ = none

-- an optional text that is there and not empty
abbrev pub as_text : Option Json → Option String
as_text (some (str s)) = if s == "" then none else some s
as_text _ = none

abbrev pub nonempty_action : Option String → Option String
nonempty_action none = none
nonempty_action (some s) = if s == "" then none else some s

-- `subsystem != _EXPECTED_SUBSYSTEM_BY_CHECK[name]`
abbrev pub differs : Option String → String → Bool
differs none s = true
differs (some t) s = not (s == t)

-- the raises of `_normalize_result`, in order
unfoldable pub check_result : String → String → ValidationResult → Run (Unit {0})
check_result name subsystem result = do
  reject_if (not (contains expected_order name)) (not_canonical name)
  reject_if (not (is_subsystem subsystem)) (unknown_subsystem subsystem)
  reject_if (differs (expected_subsystem name) subsystem) (wrong_subsystem name)
  reject_if (not (contains (pass ∷ fail ∷ []) result.status)) (invalid_status result.status)
  reject_if (not (is_code result.code)) (unknown_code result.code)
  reject_if (result.status == pass && not (result.code == ok_code)) (pass_without_ok name)
  reject_if (result.status == fail && result.code == ok_code) (fail_with_ok name)

-- the `failed_projection` dict
unfoldable pub make_failed : String → String → ValidationResult → String → FailedCheck
make_failed name subsystem result detail = record {
  name = name;
  subsystem = subsystem;
  code = result.code;
  detail = detail;
  action = nonempty_action result.action;
  action_code = as_text (meta_get "action_code" result.meta);
  sub_results = as_list (meta_get "sub_results" result.meta);
}

-- the `check` dict, and the projection where the check failed
unfoldable pub make_entry : String → String → ValidationResult → String → Normalized
make_entry name subsystem result detail = record {
  check = record {
    name = name;
    subsystem = subsystem;
    status = result.status;
    code = result.code;
    detail = detail;
    sub_results = as_list (meta_get "sub_results" result.meta);
  };
  failed_projection =
      if result.status == pass then none else some (make_failed name subsystem result detail);
}

-- `_normalize_result`
unfoldable pub normalize_result : String → String → ValidationResult → Run Normalized
normalize_result name subsystem result = do
  check_result name subsystem result
  detail ← nonempty_string result.detail (name <> ".detail")
  ok (make_entry name subsystem result detail)

-- the list comprehension over `_normalize_result`
unfoldable pub normalize_all : List RawResult → Run (List Normalized)
normalize_all [] = ok []
normalize_all (r ∷ raw) = do
  entry ← normalize_result r.name r.subsystem r.result
  rest ← normalize_all raw
  ok (entry ∷ rest)

unfoldable pub failed_projections : List Normalized → List FailedCheck
failed_projections [] = []
failed_projections (n ∷ ns) = elim n.failed_projection [
  | none ↦ failed_projections ns
  | some f ↦ f ∷ failed_projections ns
]
