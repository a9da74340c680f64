-- ===== src/Plan/Narrative.antt =====
-- harness/validators_impl: explanation.py, preconditions.py and subagent.py
pub mod Verdict
use kozo.Base.{
  Bool, false, ◌&&◌, ◌||◌, not, any, null, contains, ◌==◌, string_equality, if◌then◌else◌, [], ◌∷◌,
  Option, none, some,
}
use kozo.Invariants.{is_nonempty_string_list}
use kozo.Json.{Json}
use kozo.Json.Access.{truthy}
use kozo.Plan.{Step, Verification, Todo, Bundle}
use kozo.Registry.Codes.{
  explanation_summary_required, precondition_unchecked, subagent_scope_violation, ok as ok_code,
}
use kozo.Validator.{ValidationResult, pass_, fail}

-- `step.get("status") == "done" and step.get("kind") in {"edit", "docs"}`
unfoldable pub is_explained_step : Step → Bool
is_explained_step step = step.status == "done" && contains ("edit" ∷ "docs" ∷ []) step.kind

unfoldable pub explanation_required : Todo → Bool
explanation_required todo = todo.plan_status == "complete" || any is_explained_step todo.steps

-- `ExplanationValidator.validate`
unfoldable pub validate_explanation : Bundle → ValidationResult
validate_explanation bundle =
    if explanation_required bundle.todo
      && not (is_nonempty_string_list bundle.todo.explanation_summary)
    then fail explanation_summary_required "Explanation summary required but missing or invalid"
        "Add a non-empty explanation_summary list describing completed edits"
    else pass_ ok_code "Explanation summary is present when the plan requires it"

-- `_has_verification_signal`
unfoldable pub has_verification_signal : Verification → Bool
has_verification_signal v =
    not (null v.tests_run)
    || not (null v.invariants)
    || not (null v.expected_behavior)
    || not (null v.actual_behavior)

-- `PreconditionsValidator.validate`
unfoldable pub validate_preconditions : Bundle → ValidationResult
validate_preconditions bundle =
    if not (null bundle.todo.preconditions)
      && not (has_verification_signal bundle.todo.verification)
    then fail precondition_unchecked "Preconditions are declared without any verification signal"
        "Document the verification that checks the stated preconditions"
    else pass_ ok_code "Preconditions are backed by declared verification signals"

-- `bool(d.get("subagents"))`
abbrev truthy_option : Option Json → Bool
truthy_option none = false
truthy_option (some v) = truthy v

-- `SubagentValidator.validate`
unfoldable pub validate_subagents : Bundle → ValidationResult
validate_subagents bundle =
    if truthy_option bundle.todo.subagents || truthy_option bundle.runtime.subagents
    then fail subagent_scope_violation
        "Subagent scope is not part of this minimal bootstrap protocol"
        "Remove subagent declarations until the harness defines that protocol"
    else pass_ ok_code "No subagent scope needs validation in this bootstrap plan"
