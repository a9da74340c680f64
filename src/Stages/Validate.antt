-- ===== src/Stages/Validate.antt =====
-- `RuntimeProgressionStagesValidator.validate`, on the contract that was loaded.
pub mod Total
pub mod WellFormed
pub mod Reach
use kozo.Base.{String, Bool, List, [], ◌∷◌, Option, none, some}
use kozo.Issue.{Raised, Issue, Find, Check, first_check, then_check}
use kozo.Json.{str}
use kozo.Registry.Codes.{runtime_progression_stages_invalid, ok as ok_code}
use kozo.Result.{Result, ok, raise, ◌>>=◌}
use kozo.Stages.{StagesContract}
use kozo.Stages.Cycle.{indirect_cycle_issue}
use kozo.Stages.Graph.{
  Graph, build_graph, prerequisite_reference_issue, mandatory_prerequisite_issue,
  direct_cycle_issue, prerequisite_order_issue, stage_status_issue, allowed_transition_issue,
}
use kozo.Stages.Owners.{transition_authority_issue}
use kozo.Stages.Structure.{structural_issue}
use kozo.Validator.{ValidationResult, pass_, fail_with}

module _ (is_file : String → Bool) where
  -- the checks of `_graph_issue`; only some of them look keys up
  abbrev pub graph_checks : StagesContract → Graph → List Check
  graph_checks contract graph =
      ok (prerequisite_reference_issue graph)
      ∷ ok (mandatory_prerequisite_issue graph)
      ∷ ok (direct_cycle_issue graph)
      ∷ indirect_cycle_issue graph.order_by_name graph.stages
      ∷ prerequisite_order_issue graph
      ∷ stage_status_issue graph
      ∷ allowed_transition_issue graph
      ∷ ok (transition_authority_issue is_file contract.transitions graph)
      ∷ []

  -- `_graph_issue`
  unfoldable pub graph_issue : StagesContract → Graph → Check
  graph_issue contract graph = first_check (graph_checks contract graph)

  -- `_runtime_progression_stages_issue` after the contract was loaded
  unfoldable pub stages_issue : StagesContract → Check
  stages_issue contract = structural_issue is_file contract >>= λ found.
      then_check found (graph_issue contract (build_graph contract.stages))

abbrev failure : Issue → ValidationResult
failure i =
    fail_with runtime_progression_stages_invalid i.detail
      "Keep runtime progression acyclic, monotonic, and subordinate to the halt contract"
      (("reason", str i.reason) ∷ ("contract_field", str i.contract_field) ∷ [])

verdict : Find → ValidationResult
verdict (some i) = failure i
verdict none =
    pass_ ok_code "Runtime progression stages form an acyclic, monotonic, authority-backed graph"

module _ (is_file : String → Bool) where
  unfoldable pub validate_stages : StagesContract → Result Raised ValidationResult
  unfolding verdict
  validate_stages contract = stages_issue is_file contract >>= λ found. ok (verdict found)
