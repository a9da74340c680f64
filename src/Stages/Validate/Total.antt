-- ===== src/Stages/Validate/Total.antt =====
-- The validator answers on every contract: it raises no `KeyError`, and its loop ends.
use kozo.Base.{◌≡◌, refl, String, Bool, string_equality}
use kozo.Base.Dict.{IsDistinct}
use kozo.Issue.Laws.{Answers, step-Answers, first_check-Answers}
use kozo.Result.{ok, ok-injective}
use kozo.Stages.{StagesContract, stage_names}
use kozo.Stages.Cycle.Verdict.{indirect_cycle_issue-Answers}
use kozo.Stages.Graph.{build_graph}
use kozo.Stages.Graph.Order.{prerequisite_reference_issue-AreKnown}
use kozo.Stages.Graph.Total.{
  prerequisite_order_issue-Answers, stage_status_issue-Answers, allowed_transition_issue-Answers,
}
use kozo.Stages.Structure.{structural_issue}
use kozo.Stages.Structure.Total.{structural_issue-Answers, structural_issue-AreNamed}
use kozo.Stages.Validate.{graph_checks, graph_issue, stages_issue, verdict, validate_stages}
use kozo.Validator.{ValidationResult}

module _ (is_file : String → Bool) where
  graph_issue-Answers :
      (contract : StagesContract)
      → IsDistinct (stage_names contract.stages)
      → Answers (graph_issue is_file contract (build_graph contract.stages))
  unfolding graph_issue
  graph_issue-Answers contract distinct =
      let stages = contract.stages in
      first_check-Answers (graph_checks is_file contract (build_graph stages)) (
        (_, refl),
        λ references.
            let known =
              (prerequisite_reference_issue-AreKnown stages distinct).0
                (ok-injective _ _ references) in
            (
              (_, refl),
              λ _. (
                (_, refl),
                λ _. (
                  indirect_cycle_issue-Answers _ _,
                  λ _. (
                    prerequisite_order_issue-Answers stages distinct known,
                    λ _. (
                      stage_status_issue-Answers stages distinct known,
                      λ _. (
                        allowed_transition_issue-Answers stages distinct,
                        λ _. ((_, refl), λ _. tt),
                      ),
                    ),
                  ),
                ),
              ),
            ),
      )

  stages_issue-Answers : (contract : StagesContract) → Answers (stages_issue is_file contract)
  unfolding stages_issue
  stages_issue-Answers contract =
      step-Answers (structural_issue is_file contract) _ (structural_issue-Answers is_file contract)
        (λ h.
          let (distinct, _, _) = structural_issue-AreNamed is_file contract h in
          graph_issue-Answers contract distinct)

-- On every contract the validator gives a verdict: no lookup of a stage or of the required evidence
-- raises `KeyError`, since the checks before it rule that out, and the loop on cycles ends.
pub validate_stages-total :
    (is_file : String → Bool) (contract : StagesContract)
    → (result : ValidationResult) × (validate_stages is_file contract ≡ ok result)
unfolding validate_stages
validate_stages-total is_file contract =
    let (found, answer) = stages_issue-Answers is_file contract in
    (verdict found, rw (answer, validate_stages) refl)
