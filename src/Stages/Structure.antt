-- ===== src/Stages/Structure.antt =====
-- The structural checks of harness/validators_impl/runtime_progression_stages.py. `is_file` says whether
-- a path of the repository, or an absolute path, is a file.
pub mod Facts
pub mod Total
use Prim.Native.String.{◌++◌ as ◌<>◌}
use kozo.Base.{
  ℕ, ◌+◌, String, Bool, true, false, not, ◌||◌, ◌&&◌, null, contains, length, ◌==◌, nat_equality,
  string_equality, if◌then◌else◌, List, [], ◌∷◌, filter, map, Option, none, some,
}
use kozo.Base.Int.{ℤ, pos, int_equality}
use kozo.Base.Text.{codes, starts_with, strip_prefix}
use kozo.Base.Order.{sorted_set}
use kozo.Base.Dict.{get}
use kozo.Issue.{
  key_error, Issue, Find, Check, issue, issue_unless, first_issue, first_of, first_check_of,
  then_check,
}
use kozo.Registry.{check_names}
use kozo.Result.{ok, raise, ◌>>=◌}
use kozo.Stages.Required.{
  required_stage_evidence, required_stage_names, required_transition_requirements,
  required_forbidden_shortcuts, required_non_goals,
}
use kozo.Stages.{StageState, Stage, StagesContract, stage_names}

-- `_expected_value_issue`
unfoldable pub expected_value_issue : String → String → String → String → Find
expected_value_issue actual expected reason contract_field =
    issue_unless (actual == expected) reason contract_field
      ("Expected " <> (contract_field <> (" to be " <> (expected <> (", got " <> actual)))))

-- `_required_value_issue`
unfoldable pub required_value_issue : List String → List String → String → String → Find
required_value_issue actual_values expected_values reason contract_field =
    first_of
      (λ expected.
        issue_unless (contains actual_values expected) reason (contract_field <> ("." <> expected))
          ("Runtime progression stages contract must declare: " <> expected))
      expected_values

-- `_non_empty_issue`
unfoldable pub non_empty_issue : List String → String → String → Find
non_empty_issue values reason contract_field =
    issue_unless (not (null values)) reason contract_field
      ("Runtime progression stage must declare " <> contract_field)

abbrev has_rest : Option (List ℕ) → Bool
has_rest none = false
has_rest (some t) = not (null t)

-- `_is_planned_reference`
unfoldable pub is_planned_reference : String → Bool
is_planned_reference reference = has_rest (strip_prefix (codes "planned:") (codes reference))

-- `len(set(xs))` is `len(xs)`
unfoldable pub all_distinct : List String → Bool
all_distinct [] = true
all_distinct (x ∷ xs) = not (contains xs x) && all_distinct xs

unfoldable pub all_distinct_ids : List ℤ → Bool
all_distinct_ids [] = true
all_distinct_ids (x ∷ xs) = not (contains xs x) && all_distinct_ids xs

abbrev pub stage_ids : List Stage → List ℤ
stage_ids = map (λ (s : Stage). s.stage_id)

-- `_duplicate_stage_issue`
unfoldable pub duplicate_stage_issue : List Stage → Find
duplicate_stage_issue stages = first_issue (
    issue_unless (all_distinct_ids (stage_ids stages)) "duplicate_stage_id" "stages.stage_id"
      "Runtime progression stage identifiers must be unique"
    ∷ issue_unless (all_distinct (stage_names stages)) "duplicate_stage_name" "stages.stage_name"
        "Runtime progression stage names must be unique"
    ∷ [])

-- an issue with the first of the names, where there is one
abbrev first_named : List String → (String → Issue) → Find
first_named [] f = none
first_named (name ∷ names) f = some (f name)

-- `_required_stage_issue`
unfoldable pub required_stage_issue : List Stage → Find
required_stage_issue stages =
    let actual = stage_names stages in
    let missing = sorted_set (filter (λ n. not (contains actual n)) required_stage_names) in
    let unexpected = sorted_set (filter (λ n. not (contains required_stage_names n)) actual) in
    first_issue (
      first_named missing (λ name.
        issue "missing_stage" "stages" ("Required runtime progression stage is missing: " <> name))
      ∷ first_named unexpected (λ name.
        issue "unknown_stage_reference" ("stages." <> name)
          ("Unknown runtime progression stage: " <> name))
      ∷ [])

-- the identifiers against `range`, from an index on
unfoldable pub ids_from : ℕ → List ℤ → Bool
ids_from index [] = true
ids_from index (x ∷ xs) = x == pos index && ids_from (index + 1) xs

-- `_stage_id_issue`
unfoldable pub stage_id_issue : List Stage → Find
stage_id_issue stages =
    issue_unless (ids_from 0 (stage_ids stages)) "non_monotonic_stage_id" "stages.stage_id"
      "Stage identifiers must be contiguous and follow contract order"

-- `_required_validator_issue`
unfoldable pub required_validator_issue : Stage → Find
required_validator_issue stage =
    first_of
      (λ reference.
        issue_unless (contains check_names reference || is_planned_reference reference)
          "unknown_required_validator"
          ("stages." <> (stage.stage_name <> (".required_validators." <> reference)))
          ("Unknown required validator: " <> reference))
      stage.required_validators

-- `_required_stage_evidence_issue`
unfoldable pub required_stage_evidence_issue : Stage → Check
required_stage_evidence_issue stage = elim (get stage.stage_name required_stage_evidence) [
  | none ↦ raise (key_error stage.stage_name)
  | some expected ↦ ok (
      issue_unless (contains stage.required_evidence expected) "missing_evidence_requirement"
        ("stages." <> (stage.stage_name <> (".required_evidence." <> expected)))
        ("Stage must declare required evidence: " <> expected))
]

module _ (is_file : String → Bool) where
  -- `_contract_reference_issue`
  unfoldable pub contract_reference_issue : String → String → Find
  contract_reference_issue reference contract_field =
      issue_unless (is_file reference) "missing_contract_reference" contract_field
        ("Referenced contract is missing: " <> reference)

  -- `_authority_contract_issue`
  unfoldable pub authority_contract_issue : String → String → Find
  authority_contract_issue reference contract_field =
      issue_unless
        (is_planned_reference reference
          || (starts_with (codes "contracts/") (codes reference) && is_file reference))
        "unknown_required_contract" (contract_field <> ("." <> reference))
        ("Unknown required contract: " <> reference)

  -- `_required_contract_issue`
  unfoldable pub required_contract_issue : Stage → Find
  required_contract_issue stage =
      first_of
        (λ reference.
          authority_contract_issue reference
            ("stages." <> (stage.stage_name <> ".required_contracts")))
        stage.required_contracts

  -- `_current_state_issue`
  unfoldable pub current_state_issue : StagesContract → Find
  current_state_issue contract =
      let state = contract.current_state in
      first_issue (
        expected_value_issue contract.architecture "x86_64" "wrong_architecture" "architecture"
        ∷ expected_value_issue state.path
            "boot_smoke_to_stack_memory_and_runtime_progression_to_halt" "wrong_runtime_path"
            "current_state.path"
        ∷ expected_value_issue state.terminal_behavior "halt_loop" "wrong_terminal_behavior"
            "current_state.terminal_behavior"
        ∷ [])

  -- `_current_contract_reference_issue`
  unfoldable pub current_contract_reference_issue : StageState → Find
  current_contract_reference_issue state = first_issue (
      contract_reference_issue state.halt_contract "current_state.halt_contract"
      ∷ contract_reference_issue state.progression_contract "current_state.progression_contract"
      ∷ contract_reference_issue state.progression_entry_contract
          "current_state.progression_entry_contract"
      ∷ [])

  -- the body of the loop of `_stage_content_issue`: all of its checks are evaluated
  unfoldable pub stage_issue : Stage → Check
  stage_issue stage =
      let key : String → String = λ name. "stages." <> (stage.stage_name <> ("." <> name)) in
      required_stage_evidence_issue stage >>= λ evidence. ok (
        first_issue (
          non_empty_issue stage.required_evidence "missing_evidence_requirement"
            (key "required_evidence")
          ∷ non_empty_issue stage.required_contracts "missing_contract_requirement"
              (key "required_contracts")
          ∷ non_empty_issue stage.required_validators "missing_validator_requirement"
              (key "required_validators")
          ∷ non_empty_issue stage.forbidden_shortcuts "missing_forbidden_shortcut"
              (key "forbidden_shortcuts")
          ∷ evidence
          ∷ required_contract_issue stage
          ∷ required_validator_issue stage
          ∷ []))

  -- `_stage_content_issue`
  unfoldable pub stage_content_issue : List Stage → Check
  stage_content_issue stages = first_check_of stage_issue stages

  abbrev pub before_content : StagesContract → Find
  before_content contract = first_issue (
      current_state_issue contract
      ∷ current_contract_reference_issue contract.current_state
      ∷ duplicate_stage_issue contract.stages
      ∷ required_stage_issue contract.stages
      ∷ stage_id_issue contract.stages
      ∷ [])

  abbrev pub after_content : StagesContract → Find
  after_content contract = first_issue (
      required_value_issue contract.transition_requirements required_transition_requirements
        "missing_transition_requirement" "transition_requirements"
      ∷ required_value_issue contract.forbidden_global_shortcuts required_forbidden_shortcuts
          "missing_forbidden_shortcut" "forbidden_global_shortcuts"
      ∷ required_value_issue contract.non_goals required_non_goals "missing_non_goal" "non_goals"
      ∷ [])

  -- `_structural_issue`: the checks run one by one, and only the one of the contents looks a key up
  unfoldable pub structural_issue : StagesContract → Check
  structural_issue contract = then_check (before_content contract) (
      stage_content_issue contract.stages >>= λ found.
      then_check found (ok (after_content contract)))
