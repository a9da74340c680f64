-- ===== src/Plan/Narrative/Verdict.antt =====
-- What the explanation validator passes.
use kozo.Base.{
  true, Member, any, any_iff, ◌≡◌, ◌↔◌, ◌⊎◌, inl, inr, arith, ◌==◌, string_equality, eq_iff,
  Bool-cases,
}
use kozo.Invariants.{is_nonempty_string_list}
use kozo.Plan.{Step, Bundle}
use kozo.Plan.Narrative.{is_explained_step, explanation_required, validate_explanation}
use kozo.Validator.{Passes, fail-ne-pass}

-- A done step that edits the program or its documents.
abbrev pub IsExplained : Step → Type 0
IsExplained step = (step.status ≡ "done") × ((step.kind ≡ "edit") ⊎ (step.kind ≡ "docs"))

is_explained_step_iff : (step : Step) → (is_explained_step step ≡ true) ↔ IsExplained step
unfolding is_explained_step
is_explained_step_iff step =
    ground (arith, eq_iff step.status "done", eq_iff step.kind "edit", eq_iff step.kind "docs")

-- The explanation validator passes exactly when a plan that is complete, or has a done step that
-- edits the program or its documents, has a summary that is a list of at least one text, of which
-- each fits the pattern of a text that is not empty.
pub validate_explanation-IsExplained :
    (b : Bundle)
    → Passes (validate_explanation b) ↔ (
        (b.todo.plan_status ≡ "complete")
          ⊎ ((step : Step) × Member step b.todo.steps × IsExplained step)
        → is_nonempty_string_list b.todo.explanation_summary ≡ true)
unfolding validate_explanation explanation_required
validate_explanation-IsExplained b =
    let found = any_iff is_explained_step b.todo.steps in
    let listed = is_nonempty_string_list b.todo.explanation_summary in
    (
      λ h need. elim need [
        | inl e ↦ ground (arith, fail-ne-pass, eq_iff b.todo.plan_status "complete")
        | inr (step, m, e) ↦
            let some_step = found.1 (step, m, (is_explained_step_iff step).1 e) in
            ground (arith, fail-ne-pass)
      ],
      λ h. elim (Bool-cases (b.todo.plan_status == "complete")) [
        | inl e ↦ let l = h (inl ((eq_iff b.todo.plan_status "complete").0 e)) in ground arith
        | inr e ↦ elim (Bool-cases (any is_explained_step b.todo.steps)) [
          | inl a ↦
              let (step, m, q) = found.0 a in
              let l = h (inr (step, m, (is_explained_step_iff step).0 q)) in ground arith
          | inr a ↦ ground arith
        ]
      ],
    )
