-- ===== src/Stages/Validate/WellFormed.antt =====
-- What a contract has that the validator passes.
use kozo.Base.{
  suc, ◌≡◌, refl, ◌∙◌, ap, String, Bool, List, ◌∷◌, none, some, Member, length, contains,
  if◌then◌else◌, string_equality,
}
use kozo.Issue.{Raised, Find}
use kozo.Issue.Laws.{first_check-none, step-none}
use kozo.Result.{Result, ok, ok-injective, >>=-eq-ok}
use kozo.Stages.{Stage, StagesContract, stage_names}
use kozo.Stages.Cycle.Verdict.{AreKnown, IsRank}
use kozo.Stages.Graph.{build_graph, stage_status_issue}
use kozo.Stages.Graph.Chain.{IsChain, allowed_transition_issue-IsChain}
use kozo.Stages.Graph.Lookup.{place}
use kozo.Stages.Graph.Order.{prerequisite_reference_issue-AreKnown, prerequisite_order_issue-IsRank}
use kozo.Stages.Graph.Proven.{IsProven, Requires, Requires-IsProven}
use kozo.Stages.Owners.{Edge, edge_equality, expected_transition_edges, transition_authority_issue}
use kozo.Stages.Owners.Count.{owners_in, transition_authority_issue-single}
use kozo.Stages.Structure.{structural_issue}
use kozo.Stages.Structure.Total.{AreNamed, structural_issue-AreNamed}
use kozo.Stages.Validate.{graph_checks, graph_issue, stages_issue, verdict, validate_stages}
use kozo.Stages.Validate.Reach.{Reaches, Reaches-first, Move, Move-place}
use kozo.Validator.{ValidationResult, Passes, fail-ne-pass}

-- Distinct known names numbered in order, prerequisites that name earlier stages, a chain of allowed
-- transitions, and statuses that the check accepts.
abbrev pub IsOrdered : StagesContract → Type 0
IsOrdered contract =
    AreNamed contract.stages
    × AreKnown (stage_names contract.stages) contract.stages
    × IsRank (place (stage_names contract.stages)) contract.stages
    × IsChain contract.stages

passed :
    (found : Find) (result : ValidationResult)
    → ◌≡◌ {A = Result Raised ValidationResult} (ok (verdict found)) (ok result)
    → Passes result
    → found ≡ none
unfolding verdict
passed none result h p = refl
passed (some i) result h p =
    let same : verdict (some i) ≡ result = ok-injective _ _ h in
    absurd (fail-ne-pass (ap (λ (r : ValidationResult). r.status) same ∙ p))

module _ (is_file : String → Bool) (contract : StagesContract) where
  stages_issue-parts :
      stages_issue is_file contract ≡ ok none
      → IsOrdered contract
        × (stage_status_issue (build_graph contract.stages) ≡ ok none)
        × (transition_authority_issue is_file contract.transitions (build_graph contract.stages)
            ≡ none)
  unfolding stages_issue graph_issue
  stages_issue-parts h =
      let stages = contract.stages in
      let (structural, graph) = (step-none (structural_issue is_file contract) _).0 h in
      let named = structural_issue-AreNamed is_file contract structural in
      let (references, (_, (_, (_, (order, (status, (transitions, (owners, _)))))))) =
        (first_check-none (graph_checks is_file contract (build_graph stages))).0 graph in
      let (distinct, _, _) = named in
      let known =
        (prerequisite_reference_issue-AreKnown stages distinct).0 (ok-injective _ _ references) in
      (
        (
          named,
          known,
          (prerequisite_order_issue-IsRank stages distinct known).0 order,
          (allowed_transition_issue-IsChain stages distinct).0 transitions,
        ),
        status,
        ok-injective _ _ owners,
      )

  Passes-issue :
      (result : ValidationResult)
      → validate_stages is_file contract ≡ ok result
      → Passes result
      → stages_issue is_file contract ≡ ok none
  unfolding validate_stages
  Passes-issue result h p =
      let (found, answer, given) = >>=-eq-ok (stages_issue is_file contract) _ h in
      answer ∙ ap ok (passed found result given p)

-- A contract that passes is ordered: its stages have distinct names among the known ones and carry the
-- identifiers 0, 1, 2 and on, every prerequisite names a stage that stands before the one that requires
-- it, and each stage allows first the stage after it, the last one none.
pub validate_stages-IsOrdered :
    (is_file : String → Bool) (contract : StagesContract) (result : ValidationResult)
    → validate_stages is_file contract ≡ ok result
    → Passes result
    → IsOrdered contract
validate_stages-IsOrdered is_file contract result h p =
    (stages_issue-parts is_file contract (Passes-issue is_file contract result h p)).0

-- In a contract that passes, whatever a proven stage requires, directly or through other stages, is
-- proven too.
pub validate_stages-IsProven :
    (is_file : String → Bool) (contract : StagesContract) (result : ValidationResult)
    → validate_stages is_file contract ≡ ok result
    → Passes result
    → (a b : String) → Requires contract.stages a b
    → IsProven contract.stages a
    → IsProven contract.stages b
validate_stages-IsProven is_file contract result h p a b r proven =
    let ((named, known, _, _), status, _) =
      stages_issue-parts is_file contract (Passes-issue is_file contract result h p) in
    let (distinct, _, _) = named in
    Requires-IsProven contract.stages distinct known status a b r proven

-- In a contract that passes, an edge has one owner where it leads from a stage to the first stage that
-- it allows, and none otherwise.
pub validate_stages-single_owner :
    (is_file : String → Bool) (contract : StagesContract) (result : ValidationResult)
    → validate_stages is_file contract ≡ ok result
    → Passes result
    → (edge : Edge)
    → length (owners_in edge contract.transitions)
      ≡ (if contains (expected_transition_edges contract.stages) edge then 1 else 0)
unfolding build_graph
validate_stages-single_owner is_file contract result h p edge =
    let (_, _, owners) =
      stages_issue-parts is_file contract (Passes-issue is_file contract result h p) in
    transition_authority_issue-single is_file contract.transitions (build_graph contract.stages)
      owners edge

-- In a contract that passes, every stage is reached from the first by going again and again to the
-- first stage that a stage allows, and each such move goes exactly one position further, so that no
-- stage is left out on the way. Stages that are allowed after the first are not spoken of.
pub validate_stages-Reaches :
    (is_file : String → Bool) (contract : StagesContract) (result : ValidationResult)
    (start : Stage) (rest : List Stage)
    → validate_stages is_file contract ≡ ok result
    → Passes result
    → contract.stages ≡ start ∷ rest
    → ((t : Stage)
        → Member t contract.stages
        → Reaches contract.stages start.stage_name t.stage_name)
      × ((a b : String)
          → Move contract.stages a b
          → place (stage_names contract.stages) b ≡ suc (place (stage_names contract.stages) a))
validate_stages-Reaches is_file contract result start rest h p e =
    let ((distinct, _, _), _, _, chain) = validate_stages-IsOrdered is_file contract result h p in
    (rw e (Reaches-first start rest (rw e at chain)), Move-place contract.stages distinct chain)
