-- ===== src/Stages/Graph.antt =====
-- The graph checks of harness/validators_impl/runtime_progression_stages.py, apart from the one of
-- indirect cycles.
pub mod Lookup
pub mod Order
pub mod Proven
pub mod Chain
pub mod Total
use Prim.Native.String.{◌++◌ as ◌<>◌}
use kozo.Base.{
  ℕ, zero, suc, ◌+◌, String, Bool, true, false, not, ◌&&◌, ◌||◌, null, contains, length, all, any,
  ltb, leb, ◌==◌, nat_equality, string_equality, get_elem?, if◌then◌else◌, List, [], ◌∷◌, ◌++◌, map,
  Option, none, some,
}
use kozo.Base.Dict.{get, put_all, keys}
use kozo.Issue.{
  Raised, key_error, Issue, Find, Check, issue, issue_unless, first_issue, first_of, first_check,
  first_check_of, then_check,
}
use kozo.Result.{Result, ok, raise, ◌>>=◌}
use kozo.Stages.{Stage, Transition, stage_names}
use kozo.Stages.Structure.{authority_contract_issue}

-- `RuntimeProgressionGraph`
pub record Graph : Type 0 where
  pub stages : List Stage
  pub stages_by_name : List (String × Stage)
  pub order_by_name : List (String × ℕ)

abbrev pub numbered : ℕ → List Stage → List (String × ℕ)
numbered index [] = []
numbered index (stage ∷ stages) = (stage.stage_name, index) ∷ numbered (index + 1) stages

-- `_build_graph`
unfoldable pub build_graph : List Stage → Graph
build_graph stages = record {
  stages = stages;
  stages_by_name = put_all [] (map (λ (s : Stage). (s.stage_name, s)) stages);
  order_by_name = put_all [] (numbered 0 stages);
}

-- `d[key]`
abbrev pub need : {V : Type 0} → String → List (String × V) → Result Raised V
need key d = elim (get key d) [ none ↦ raise (key_error key) | some v ↦ ok v ]

abbrev stage_field : Stage → String → String
stage_field stage name = "stages." <> (stage.stage_name <> ("." <> name))

-- `_prerequisite_reference_issue`
unfoldable pub prerequisite_reference_issue : Graph → Find
prerequisite_reference_issue graph =
    first_of
      (λ stage.
        first_of
          (λ prerequisite.
            issue_unless (contains (keys graph.stages_by_name) prerequisite)
              "unknown_stage_reference"
              (stage_field stage ("required_prerequisites." <> prerequisite))
              ("Unknown prerequisite stage: " <> prerequisite))
          stage.required_prerequisites)
      graph.stages

after_first_issue : List Stage → Find
after_first_issue [] = none
after_first_issue (first ∷ stages) =
    first_of
      (λ stage.
        issue_unless (not (null stage.required_prerequisites)) "missing_prerequisite"
          (stage_field stage "required_prerequisites")
          "Every stage after the initial stage must declare a prerequisite")
      stages

-- `_mandatory_prerequisite_issue`
unfoldable pub mandatory_prerequisite_issue : Graph → Find
unfolding after_first_issue
mandatory_prerequisite_issue graph = after_first_issue graph.stages

-- `_direct_cycle_issue`
unfoldable pub direct_cycle_issue : Graph → Find
direct_cycle_issue graph =
    first_of
      (λ stage.
        issue_unless (not (contains stage.required_prerequisites stage.stage_name)) "direct_cycle"
          (stage_field stage ("required_prerequisites." <> stage.stage_name))
          ("Stage cannot require itself: " <> stage.stage_name))
      graph.stages

-- the inner loop's body of `_prerequisite_order_issue`
unfoldable pub order_issue : Graph → Stage → String → Check
order_issue graph stage prerequisite = need prerequisite graph.order_by_name >>= λ here.
    (need stage.stage_name graph.order_by_name >>= λ there. ok (
      issue_unless (ltb here there) "forward_prerequisite"
        (stage_field stage ("required_prerequisites." <> prerequisite))
        ("Prerequisite must reference an earlier stage: " <> prerequisite)))

-- `_prerequisite_order_issue`
unfoldable pub prerequisite_order_issue : Graph → Check
prerequisite_order_issue graph =
    first_check_of (λ stage. first_check_of (order_issue graph stage) stage.required_prerequisites)
      graph.stages

-- the inner loop's body of `_stage_status_issue`
unfoldable pub status_issue : Graph → Stage → String → Check
status_issue graph stage prerequisite = need prerequisite graph.stages_by_name >>= λ required. ok (
    issue_unless (required.status == "proven") "unproven_prerequisite" (stage_field stage "status")
      ("Proven stage requires unproven stage: " <> prerequisite))

-- `_stage_status_issue`
unfoldable pub stage_status_issue : Graph → Check
stage_status_issue graph =
    first_check_of
      (λ stage.
        if not (stage.status == "proven")
        then ok none
        else first_check_of (status_issue graph stage) stage.required_prerequisites)
      graph.stages

abbrev pub first : List String → Option String
first [] = none
first (x ∷ xs) = some x

abbrev pub next_name : List Stage → Option String
next_name [] = none
next_name (stage ∷ stages) = some stage.stage_name

abbrev pub same_name : Option String → Option String → Bool
same_name none none = true
same_name none (some b) = false
same_name (some a) none = false
same_name (some a) (some b) = a == b

-- the f-string of an optional name
abbrev or_none : Option String → String
or_none none = "None"
or_none (some a) = a

skipped_issue : Stage → Option String → Option String → Find
skipped_issue stage actual expected =
    issue_unless (same_name actual expected) "skipped_mandatory_stage"
      (stage_field stage "allowed_next_stages")
      ("Allowed transition must advance to: " <> or_none expected)

-- the tests on a stage that is named
named_transition_issue : Graph → ℕ → Stage → String → Option String → Check
unfolding skipped_issue
named_transition_issue graph index stage actual expected =
    if not (contains (keys graph.stages_by_name) actual)
    then ok (
        some (
          issue "unknown_stage_reference" (stage_field stage "allowed_next_stages")
            ("Allowed transition references unknown stage: " <> actual)))
    else (need actual graph.order_by_name >>= λ position. ok (
        first_issue (
          issue_unless (not (leb position index)) "backward_transition"
            (stage_field stage "allowed_next_stages")
            ("Allowed transition moves backward to: " <> actual)
          ∷ skipped_issue stage (some actual) expected
          ∷ [])))

-- `_stage_transition_issue`; `rest` are the stages after this one
unfoldable pub stage_transition_issue : Graph → ℕ → Stage → List Stage → Check
unfolding named_transition_issue skipped_issue
stage_transition_issue graph index stage rest = elim (first stage.allowed_next_stages) [
  | none ↦ ok (skipped_issue stage none (next_name rest))
  | some actual ↦ named_transition_issue graph index stage actual (next_name rest)
]

-- the loop of `_allowed_transition_issue`, from an index on
unfoldable pub transitions_from : Graph → ℕ → List Stage → Check
transitions_from graph index [] = ok none
transitions_from graph index (stage ∷ stages) =
    stage_transition_issue graph index stage stages >>= λ found.
    then_check found (transitions_from graph (index + 1) stages)

-- `_allowed_transition_issue`
unfoldable pub allowed_transition_issue : Graph → Check
allowed_transition_issue graph = transitions_from graph 0 graph.stages
