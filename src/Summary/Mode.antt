-- ===== src/Summary/Mode.antt =====
-- The mode, the constraints and the rules of the context.
use Prim.Native.String.{◌++◌ as ◌<>◌}
use kozo.Base.{
  String, Bool, true, false, not, ◌&&◌, ◌||◌, ◌==◌, string_equality, eq_iff, if◌then◌else◌, List,
  [], ◌∷◌, ◌++◌, map, ◌≡◌, ◌≢◌, ◌↔◌, arith,
}
use kozo.Json.{Items, nil, cons}
use kozo.Plan.{Runtime}
use kozo.Registry.Codes.{replan_required, step_failure_threshold}

-- What the module reads of the verification artifact.
pub record VerifyArtifact : Type 0 where
  pub summary_code : String
  pub failed_checks : Items

abbrev pub no_items : Items → Bool
no_items nil = true
no_items (cons x xs) = false

-- `_is_recovery_state`
unfoldable pub is_recovery_state : Runtime → VerifyArtifact → Bool
is_recovery_state runtime verify =
    not (no_items verify.failed_checks) && not runtime.replan_required && not runtime.halted

-- `_build_mode`
unfoldable pub build_mode : Runtime → VerifyArtifact → String
build_mode runtime verify =
    if runtime.halted
    then "halted"
    else if runtime.replan_required || verify.summary_code == replan_required
    then "replan"
    else if is_recovery_state runtime verify
    then "halted"
    else if runtime.plan_status == "complete"
    then "complete"
    else "execute"

-- `_build_constraints`
unfoldable pub build_constraints : Runtime → VerifyArtifact → List String
build_constraints runtime verify =
    if runtime.plan_status == "complete"
    then "Plan is complete; any further edits require a new planned step."
      ∷ "Fail closed if a file falls outside the declared task scope." ∷ []
    else if is_recovery_state runtime verify
    then "Recovery is required before continuing execution."
      ∷ "Fail closed until the failed verification checks are addressed and verify passes." ∷ []
    else "Only edit files declared in current_step.files_expected."
      ∷ "Fail closed if the next verification reports any failed check." ∷ []

abbrev rule_if : Bool → String → List String
rule_if true rule = rule ∷ []
rule_if false rule = []

-- `_build_active_rules`
unfoldable pub build_active_rules : Runtime → VerifyArtifact → List String → List String
build_active_rules runtime verify next_commands =
    map (λ command. "Run: " <> command) next_commands
    ++ rule_if (verify.summary_code == step_failure_threshold)
        "Failure threshold reached; halt and recover before more edits."
    ++ rule_if (verify.summary_code == replan_required || runtime.replan_required)
        "Replan before continuing work."
    ++ rule_if (is_recovery_state runtime verify)
        "Recovery required: fix the failed checks before execution resumes."

-- The context says `execute` exactly when nothing stands in the way: the run is not halted, no new
-- plan is asked for by the runtime state or by the artifact, no check failed, and the plan is not
-- complete.
pub build_mode-execute :
    (runtime : Runtime) (verify : VerifyArtifact)
    → (build_mode runtime verify ≡ "execute") ↔ (
        (runtime.halted ≡ false)
        × (runtime.replan_required ≡ false)
        × (verify.summary_code ≢ replan_required)
        × (no_items verify.failed_checks ≡ true)
        × (runtime.plan_status ≢ "complete"))
unfolding build_mode is_recovery_state
build_mode-execute runtime verify = ground (
  arith,
  eq_iff "halted" "execute",
  eq_iff "replan" "execute",
  eq_iff "complete" "execute",
  eq_iff verify.summary_code replan_required,
  eq_iff runtime.plan_status "complete",
)
