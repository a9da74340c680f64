-- ===== src/Aggregator/Artifact.antt =====
-- `_build_artifact` of harness/aggregator.py.
use mathlib.Core.Option
use kozo.Base.{String, length, string_equality, List, [], ◌∷◌, Option, none, some}
use kozo.Base.Int.{pos}
use kozo.Json.{Json, str, int, arr, obj, Items, nil, cons, Fields, end, field}
use kozo.Json.Access.{strings}
use kozo.Registry.{pass, fail, checks, artifact_version, summary_subsystem_generic}
use kozo.Registry.Codes.{ok as ok_code}
use kozo.Result.{ok, raise}
use kozo.Schema.Document.{SchemaHost, validate_named_document}
use kozo.Aggregator.Types.{invalid_artifact, Run, CheckEntry, FailedCheck, Artifact}

-- An entry that a dict has only where its value is there.
abbrev optional : String → Option Json → Fields → Fields
optional key none rest = rest
optional key (some v) rest = field key v rest

check_json : CheckEntry → Json
check_json c = obj (
    field "name" (str c.name) (
      field "subsystem" (str c.subsystem) (
        field "status" (str c.status) (
          field "code" (str c.code) (
            field "detail" (str c.detail)
              (optional "sub_results" (Option.map arr c.sub_results) end))))))

failed_json : FailedCheck → Json
failed_json f = obj (
    field "name" (str f.name) (
      field "subsystem" (str f.subsystem) (
        field "code" (str f.code) (
          field "detail" (str f.detail) (
            optional "action" (Option.map str f.action) (
              optional "action_code" (Option.map str f.action_code)
                (optional "sub_results" (Option.map arr f.sub_results) end)))))))

items_of : {A : Type 0} → (A → Json) → List A → Items
items_of f [] = nil
items_of f (x ∷ xs) = cons (f x) (items_of f xs)

-- The dict that `_build_artifact` makes.
unfoldable pub artifact_json : Artifact → Json
unfolding check_json failed_json items_of
artifact_json a = obj (
    field "artifact_version" (str artifact_version) (
      field "run_id" (str a.run_id) (
        field "status" (str a.status) (
          field "summary_code" (str a.summary_code) (
            field "summary_subsystem" (str a.summary_subsystem) (
              field "summary"
                (obj (
                  field "total_checks" (int (pos a.total_checks))
                    (field "failed_check_count" (int (pos a.failed_check_count)) end)))
                (field "checks" (arr (items_of check_json a.checks)) (
                  field "failed_checks" (arr (items_of failed_json a.failed_checks)) (
                    field "changed_files" (arr (strings a.changed_files)) (
                      field "evidence_files" (arr (strings a.evidence_files))
                        (field "generated_at" (str a.generated_at) end)))))))))))

-- the status and summary of `_build_artifact`
unfoldable pub summary_of : List FailedCheck → String × String × String
summary_of [] = (pass, ok_code, summary_subsystem_generic)
summary_of (f ∷ fs) = (fail, f.code, f.subsystem)

unfoldable pub make_artifact :
    String → List CheckEntry → List FailedCheck → List String → List String → String → Artifact
unfolding summary_of
make_artifact run_id checks failed changed evidence generated_at =
    let summary = summary_of failed in
    record {
      run_id = run_id;
      status = summary.0;
      summary_code = summary.1;
      summary_subsystem = summary.2;
      total_checks = length checks;
      failed_check_count = length failed;
      checks = checks;
      failed_checks = failed;
      changed_files = changed;
      evidence_files = evidence;
      generated_at = generated_at;
    }

module _ (host : SchemaHost) where
  -- `_build_artifact`
  unfoldable pub build_artifact :
      String
      → List CheckEntry
      → List FailedCheck
      → List String
      → List String
      → String
      → Run Artifact
  build_artifact run_id checks failed changed evidence generated_at =
      let artifact = make_artifact run_id checks failed changed evidence generated_at in
      elim (validate_named_document host "latest_verify" (artifact_json artifact)) [
        | ok u ↦ ok artifact
        | raise e ↦ raise (invalid_artifact e)
      ]
