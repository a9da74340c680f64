-- ===== src/Summary.antt =====
-- harness/summarize.py: the context of the next step, made from the plan, the runtime state and the
-- last verification artifact.
pub mod Next
pub mod Mode
pub mod Ready
use kozo.Base.{ℕ, String, Bool, List, [], ◌∷◌, Option, none, some, ◌==◌, if◌then◌else◌}
use kozo.Base.Int.{ℤ, int_equality}
use kozo.Json.{Json, int, str, arr, Items}
use kozo.Json.Access.{dict, strings}
use kozo.Plan.{Step, Todo, Runtime}
use kozo.Registry.{artifact_version}
use kozo.Result.{Result, ok, raise, ◌>>=◌}
use kozo.Schema.{SchemaError}
use kozo.Schema.Document.{SchemaHost, validate_named_document}
use Next.{SummaryError, step_not_found, bad_context, build_next_verification, extract_next_commands}
use Mode.{VerifyArtifact, build_mode, build_constraints, build_active_rules}

-- `_find_current_step`
unfoldable pub find_current_step : List Step → ℤ → Result SummaryError Step
find_current_step [] step_id = raise (step_not_found step_id)
find_current_step (step ∷ steps) step_id =
    let rest = find_current_step steps step_id in if step.id == step_id then ok step else rest

-- The dict that `summarize` builds.
unfoldable pub context : Runtime → VerifyArtifact → Step → List String → List String → Json
context runtime verify step next_verification next_commands = dict (
    ("artifact_version", str artifact_version)
    ∷ ("task_id", str runtime.task_id)
    ∷ ("task_title", str runtime.task_title)
    ∷ ("mode", str (build_mode runtime verify))
    ∷ (
      "current_step",
      dict (
          ("id", int step.id)
          ∷ ("kind", str step.kind)
          ∷ ("title", str step.title)
          ∷ ("files_expected", arr (strings step.files_expected))
          ∷ ("verification_refs", arr (strings step.verification_refs))
          ∷ []),
    )
    ∷ ("constraints", arr (strings (build_constraints runtime verify)))
    ∷ ("active_rules", arr (strings (build_active_rules runtime verify next_commands)))
    ∷ ("recent_failures", arr verify.failed_checks)
    ∷ ("next_verification", arr (strings next_verification))
    ∷ (
      "halt_conditions",
      arr (
          strings (
            "Any file outside the declared task scope changes."
            ∷ "The current step failure count reaches 2."
            ∷ "Verification returns status=fail after an execution attempt." ∷ [])),
    )
    ∷ ("updated_at", str runtime.updated_at)
    ∷ [])

module _ (host : SchemaHost) where
  check_context : Json → Result SummaryError Json
  check_context value = elim (validate_named_document host "agent_context" value) [
    | ok u ↦ ok value
    | raise e ↦ raise (bad_context e)
  ]

  unfoldable pub summarize : Todo → Runtime → VerifyArtifact → Result SummaryError Json
  unfolding check_context
  summarize todo runtime verify = find_current_step todo.steps runtime.current_step_id >>= λ step.
      (build_next_verification todo step >>= λ next_verification.
      (extract_next_commands todo next_verification >>= λ next_commands.
      check_context (context runtime verify step next_verification next_commands)))
