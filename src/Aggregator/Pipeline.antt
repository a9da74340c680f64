-- ===== src/Aggregator/Pipeline.antt =====
-- `run_aggregator` of harness/aggregator.py.

use kozo.Base.{string_equality, List, map}
use kozo.Json.{Json, Items, Fields}
use kozo.Result.{◌>>=◌}
use kozo.Schema.Document.{SchemaHost}
use kozo.Aggregator.Types.{Run, Validator, Normalized, Artifact}
use kozo.Aggregator.Inputs.{validate_nonempty_string, validate_string_list}
use kozo.Aggregator.Normalize.{normalize_all, failed_projections}
use kozo.Aggregator.Collect.{collect_results}
use kozo.Aggregator.Artifact.{build_artifact}
use kozo.Aggregator.Collect.{build_validation_bundle}

module _ (host : SchemaHost) where
  -- `run_aggregator`
  unfoldable pub run_aggregator :
      List Validator → Fields → Items → Items → Json → Json → Run Artifact
  run_aggregator validators bundle changed_files evidence_files run_id generated_at = do
    run ← validate_nonempty_string run_id "run_id"
    generated ← validate_nonempty_string generated_at "generated_at"
    changed ← validate_string_list changed_files "changed_files"
    evidence ← validate_string_list evidence_files "evidence_files"
    raw ← collect_results validators (build_validation_bundle bundle changed evidence run generated)
    normalized ← normalize_all raw
    build_artifact host run (map (λ (n : Normalized). n.check) normalized)
        (failed_projections normalized) changed evidence generated
