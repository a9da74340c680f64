-- ===== src/Tests/Plans.antt =====
-- A plan with one done step and one pending step, and its runtime state.
use kozo.Base.{
  String, Bool, true, false, ◌≡◌, ◌≢◌, ◌↔◌, ◌⊎◌, inl, inr, refl, List, [], ◌∷◌, none, All, Member,
}
use kozo.Base.Text.{strip_prefix}
use kozo.Invariants.Reference.{fullmatch_ref, match_section, match_index, resolve_ref, split_ref}
use kozo.Base.Int.{pos}
use kozo.Json.{str, arr, cons, nil}
use kozo.Registry.Codes.{ok as ok_code, replan_required}
use kozo.Result.{ok}
use kozo.Validator.{Passes}
use kozo.Plan.{Step, Verification, Todo, Runtime, Bundle}
use kozo.Plan.Lifecycle
use kozo.Plan.Lifecycle.{out_of_order}
use kozo.Plan.Lifecycle.Order.{IsAscending, out_of_order_iff}
use kozo.Plan.Lifecycle.Verdict.{IsConsistent, validate-IsConsistent}
use kozo.Plan.Scope
use kozo.Plan.Scope.Verdict.{IsWithin, validate-IsWithin}
use kozo.Plan.Refs
use kozo.Plan.Refs.{check_steps, check_refs, check_ref}
use kozo.Plan.Refs.Verdict.{StepResolves, validate-Resolves}
use kozo.Plan.Evidence
use kozo.Plan.Evidence.Verdict.{IsBacked, validate-IsBacked}
use kozo.Plan.Narrative.{validate_explanation}
use kozo.Plan.Narrative.Verdict.{IsExplained, validate_explanation-IsExplained}
use kozo.Invariants.{is_nonempty_string_list}
use kozo.Summary.Next.{build_next_verification, extract_next_commands}
use kozo.Summary.Mode.{VerifyArtifact, no_items, build_mode, build_mode-execute}
use kozo.Summary.Ready.{summarize-ready}

abbrev first : Step
first = record {
  id = pos 1;
  title = "Write";
  status = "done";
  kind = "edit";
  files_expected = "src/a.py" ∷ [];
  verification_refs = "verification.tests_run[0]" ∷ [];
}

abbrev second : Step
second = record {
  id = pos 2;
  title = "Document";
  status = "pending";
  kind = "docs";
  files_expected = "docs/a.md" ∷ [];
  verification_refs = "verification.tests_run[0]" ∷ [];
}

abbrev verification : Verification
verification = record {
  tests_run = record { tool = "pytest"; command = "pytest -q"; status = "pass" } ∷ [];
  logs = [];
  diffs = [];
  invariants = [];
  expected_behavior = [];
  actual_behavior = [];
}

abbrev todo : Todo
todo = record {
  plan_status = "approved";
  preconditions = [];
  file_scope = "src/" ∷ "docs/" ∷ [];
  steps = first ∷ second ∷ [];
  verification = verification;
  explanation_summary = arr (cons (str "The module is written.") nil);
  subagents = none;
}

abbrev runtime : Runtime
runtime = record {
  task_id = "task-1";
  task_title = "A module";
  plan_status = "approved";
  current_step_id = pos 2;
  replan_required = false;
  halted = false;
  updated_at = "2024-01-01T00:00:00Z";
  subagents = none;
}

abbrev bundle : Bundle
bundle = record {
  todo = todo;
  runtime = runtime;
  changed_files = "docs/a.md" ∷ [];
  evidence_files = "log.txt" ∷ [];
  root_dir = str "/repo";
}

abbrev verify : VerifyArtifact
verify = record { summary_code = ok_code; failed_checks = nil }

validate-IsConsistent_example : Passes (Lifecycle.validate bundle) ↔ IsConsistent bundle
validate-IsConsistent_example = validate-IsConsistent bundle

out_of_order_iff_example :
    (out_of_order (pos 1 ∷ pos 2 ∷ []) ≡ false) ↔ IsAscending (pos 1 ∷ pos 2 ∷ [])
out_of_order_iff_example = out_of_order_iff (pos 1 ∷ pos 2 ∷ [])

validate-IsWithin_example : Passes (Scope.validate bundle) ↔ IsWithin bundle
validate-IsWithin_example = validate-IsWithin bundle

validate-Resolves_example :
    Passes (Refs.validate bundle) ↔ All (StepResolves verification) (first ∷ second ∷ [])
validate-Resolves_example = validate-Resolves bundle

abbrev on_disk : String → String → Bool
on_disk root path = true

validate-IsBacked_example :
    Passes (Evidence.validate on_disk bundle) ↔ IsBacked on_disk (str "/repo") ("log.txt" ∷ [])
validate-IsBacked_example = validate-IsBacked on_disk bundle

validate_explanation-IsExplained_example : Passes (validate_explanation bundle) ↔ (
    (todo.plan_status ≡ "complete") ⊎ ((step : Step) × Member step todo.steps × IsExplained step)
    → is_nonempty_string_list todo.explanation_summary ≡ true)
validate_explanation-IsExplained_example = validate_explanation-IsExplained bundle

build_mode-execute_example : (build_mode runtime verify ≡ "execute") ↔ (
    (runtime.halted ≡ false)
    × (runtime.replan_required ≡ false)
    × (verify.summary_code ≢ replan_required)
    × (no_items verify.failed_checks ≡ true)
    × (runtime.plan_status ≢ "complete"))
build_mode-execute_example = build_mode-execute runtime verify

passes : Passes (Refs.validate bundle)
unfolding Refs.validate check_steps check_refs check_ref fullmatch_ref strip_prefix match_section
    match_index resolve_ref split_ref Refs.section_entries
passes = refl

summarize-ready_example :
    (refs commands : List String) × (build_next_verification todo second ≡ ok refs)
    × (extract_next_commands todo refs ≡ ok commands)
    × ((ref : String) → Member ref refs ↔ Member ref second.verification_refs)
summarize-ready_example = summarize-ready bundle second passes (inr (inl refl))
