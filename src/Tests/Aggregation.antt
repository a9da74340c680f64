-- ===== src/Tests/Aggregation.antt =====
-- A run of the aggregator in which one check fails.
use kozo.Aggregator.Inputs.{nonempty_string, validate_nonempty_string, validate_string_list}
use kozo.Aggregator.Collect.{
  get_validator, collect, text_lists_equal, collect_results, build_validation_bundle,
}
use kozo.Aggregator.Registration.{
  find_subsystem, expected_subsystem, find_validator, register, absent, build_validator_map,
}
use kozo.Aggregator.Normalize.{check_result, normalize_all}
use kozo.Aggregator.Artifact.{build_artifact}
use kozo.Schema.{validate_schema}
use kozo.Schema.Document.{validate_named_document}
use kozo.Registry.{is_subsystem, is_code}
use kozo.Base.Text.{is_blank}
use kozo.Json.Size.{size}
use kozo.Json.Access.{lookup}
use kozo.Schema.{check_type, check_const, check_enum, validate_shape}
use kozo.Validators.{
  Registered, declared, class_of, same_names, check_class, build_from, build_validators,
  build_validators-checks,
}
use kozo.Base.Order.{sorted_set}
use kozo.Base.{
  String, true, ◌≡◌, refl, List, [], map, some, ◌==◌, string_equality, if◌then◌else◌, All, length,
}
use kozo.Json.{str, obj, nil, end}
use kozo.Registry.{checks}
use kozo.Registry.Codes.{ok as ok_code, evidence_file_missing}
use kozo.Result.{ok}
use kozo.Schema.Document.{SchemaHost}
use kozo.Schema.Conforms.{Conforms}
use kozo.Validator.{ValidationResult, pass_, fail as failing_result}
use kozo.Aggregator.Types.{Validator, Normalized, Artifact}
use kozo.Aggregator.Normalize.{make_entry, normalize_result, failed_projections}
use kozo.Aggregator.Artifact.{make_artifact, artifact_json}
use kozo.Aggregator.Pipeline.{run_aggregator}
use kozo.Aggregator.Entries.{IsCanonical, Normalizes, normalize_result-Normalizes}
use kozo.Aggregator.Outcome.{names, failing, Mirrors}
use kozo.Aggregator.Registration.{expected_order}
use kozo.Aggregator.Report.{
  Summarizes, run_aggregator-IsCanonical, run_aggregator-Mirrors, run_aggregator-Conforms,
  run_aggregator-Summarizes,
}

abbrev host : SchemaHost
host = record {
  re_search = λ pattern text. true;
  read_schema = λ name. some (obj end);
  describe = λ e. "schema error";
}

abbrev result_of : String → ValidationResult
result_of name =
    if name == "rust"
    then failing_result evidence_file_missing "a file is missing" "Restore the file"
    else pass_ ok_code "fine"

abbrev validators : List Validator
validators =
    map
      (λ (name, subsystem). record {
        name = name;
        subsystem = subsystem;
        validate = λ bundle. ok (result_of name);
      })
      checks

abbrev entries : List Normalized
entries =
    map (λ (name, subsystem). make_entry name subsystem (result_of name) (result_of name).detail)
      checks

abbrev artifact : Artifact
artifact =
    make_artifact "run-1" (map (λ (n : Normalized). n.check) entries) (failed_projections entries)
      [] [] "now"

returns : run_aggregator host validators end nil nil (str "run-1") (str "now") ≡ ok artifact
unfolding run_aggregator validate_nonempty_string validate_string_list collect_results collect
    normalize_all normalize_result check_result nonempty_string get_validator build_validator_map
    register absent find_validator expected_order text_lists_equal build_artifact
    validate_named_document validate_schema make_artifact make_entry failed_projections
    build_validation_bundle expected_subsystem find_subsystem is_subsystem is_code is_blank size
    lookup check_type check_const check_enum validate_shape artifact_json sorted_set
returns = refl

run_aggregator-IsCanonical_example :
    (names artifact.checks ≡ expected_order) × All IsCanonical artifact.checks
run_aggregator-IsCanonical_example =
    run_aggregator-IsCanonical host validators end nil nil (str "run-1") (str "now") artifact
      returns

run_aggregator-Mirrors_example : Mirrors artifact.failed_checks (failing artifact.checks)
run_aggregator-Mirrors_example =
    run_aggregator-Mirrors host validators end nil nil (str "run-1") (str "now") artifact returns

run_aggregator-Summarizes_example :
    Summarizes artifact (failing artifact.checks)
    × (artifact.total_checks ≡ length artifact.checks)
    × (artifact.failed_check_count ≡ length (failing artifact.checks))
run_aggregator-Summarizes_example =
    run_aggregator-Summarizes host validators end nil nil (str "run-1") (str "now") artifact returns

run_aggregator-Conforms_example : Conforms host.re_search (artifact_json artifact) (obj end)
run_aggregator-Conforms_example =
    run_aggregator-Conforms host validators end nil nil (str "run-1") (str "now") artifact returns
      (obj end) refl

abbrev passed : Normalized
passed = make_entry "schema" "schema" (pass_ ok_code "fine") "fine"

normalized : normalize_result "schema" "schema" (pass_ ok_code "fine") ≡ ok passed
unfolding normalize_result check_result nonempty_string make_entry expected_order expected_subsystem
    find_subsystem is_subsystem is_code is_blank
normalized = refl

normalize_result-Normalizes_example : Normalizes "schema" "schema" (pass_ ok_code "fine") passed
normalize_result-Normalizes_example =
    normalize_result-Normalizes "schema" "schema" (pass_ ok_code "fine") passed normalized

abbrev registered : Registered
registered =
    map
      (λ (name, subsystem). (
        name,
        record { name = name; subsystem = subsystem; validate = λ bundle. ok (result_of name) },
      ))
      checks

built : build_validators registered ≡ ok validators
unfolding build_validators build_from check_class class_of same_names sorted_set
built = refl

build_validators-checks_example : map declared validators ≡ checks
build_validators-checks_example = build_validators-checks registered validators built
