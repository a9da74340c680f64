-- ===== src/Tests/Stages.antt =====
-- The repository's contract on the stages of the runtime, contracts/runtime_progression_stages.v0.json,
-- and the theorems at it. Every path it names counts as a file.
use kozo.Base.{
  ℕ, ◌≡◌, ◌↔◌, refl, String, Bool, true, List, [], ◌∷◌, none, suc, length, string_equality, Member,
  inl, inr,
}
use kozo.Base.Int.{pos}
use kozo.Stages.{Stage, StagesContract, stage_names}
use kozo.Registry.Codes.{ok as ok_code}
use kozo.Result.{ok}
use kozo.Validator.{ValidationResult, Passes, pass_}
use kozo.Base.Order.{sorted_set, insert, text_ltb}
use kozo.Base.Text.{starts_with, strip_prefix}
use kozo.Stages.Structure.{
  structural_issue, current_state_issue, expected_value_issue, current_contract_reference_issue,
  contract_reference_issue, duplicate_stage_issue, all_distinct_ids, all_distinct,
  required_stage_issue, stage_id_issue, ids_from, stage_content_issue, stage_issue,
  required_stage_evidence_issue, non_empty_issue, required_contract_issue, authority_contract_issue,
  is_planned_reference, required_validator_issue, required_value_issue,
}
use kozo.Stages.Cycle.{cycle_loop, earliest, indirect_cycle_issue, ready_names, remove_ready_stages}
use kozo.Stages.Graph.{
  allowed_transition_issue, build_graph, direct_cycle_issue, mandatory_prerequisite_issue,
  order_issue, prerequisite_order_issue, prerequisite_reference_issue, stage_status_issue,
  stage_transition_issue, status_issue, transitions_from,
}
use kozo.Stages.Owners.{
  add_owners, duplicate_transition_owner_issue, expected_transition_edges,
  transition_alignment_issue, transition_authority_issue, transition_owner_reference_issue,
  transition_reference_issue,
}
use kozo.Stages.Cycle.Verdict.{IsRank, indirect_cycle_issue-IsRank}
use kozo.Stages.Graph.Chain.{IsChain, allowed_transition_issue-IsChain}
use kozo.Stages.Graph.Lookup.{place}
use kozo.Stages.Graph.Order.{prerequisite_order_issue-IsRank}
use kozo.Stages.Graph.Proven.{IsProven, Requires, directly, through}
use kozo.Stages.Owners.{Edge}
use kozo.Stages.Owners.Count.{owners_in}
use kozo.Stages.Validate.Total.{validate_stages-total}
use kozo.Stages.Validate.Reach.{Reaches, Move}
use kozo.Stages.Validate.WellFormed.{
  IsOrdered, validate_stages-IsOrdered, validate_stages-IsProven, validate_stages-single_owner,
  validate_stages-Reaches,
}
use kozo.Stages.Validate.{graph_issue, validate_stages, stages_issue}

abbrev is_file : String → Bool
is_file path = true

abbrev stage_0 : Stage
stage_0 = record {
  stage_id = pos 0;
  stage_name = "BOOT_SMOKE";
  description =
      "QEMU serial smoke evidence reaches the governed boot smoke marker and remains under the runtime halt contract.";
  status = "proven";
  required_prerequisites = [];
  required_evidence =
      ("artifacts/runtime/qemu_smoke.metadata.json" ∷ "artifacts/runtime/qemu_smoke.summary.txt"
        ∷ "artifacts/runtime/boot_blocker_report.json" ∷ []);
  required_contracts =
      ("contracts/runtime_halt_contract.v0.json" ∷ "contracts/runtime_evidence_taxonomy.v0.json"
        ∷ []);
  required_validators =
      ("qemu_smoke_evidence" ∷ "boot_blocker_report" ∷ "runtime_halt_contract"
        ∷ "runtime_evidence_taxonomy" ∷ []);
  allowed_next_stages = ("STACK_INITIALIZATION_EVIDENCE" ∷ []);
  forbidden_shortcuts =
      ("BOOT_SMOKE to MEMORY_INITIALIZATION_EVIDENCE" ∷ "BOOT_SMOKE to RUNTIME_PROGRESSION_ENTRY"
        ∷ "BOOT_SMOKE to FIRST_GOVERNED_RUNTIME_CAPABILITY" ∷ "BOOT_SMOKE to USERSPACE_PLANNING"
        ∷ []);
}

abbrev stage_1 : Stage
stage_1 = record {
  stage_id = pos 1;
  stage_name = "STACK_INITIALIZATION_EVIDENCE";
  description =
      "Evidence proves the controlled boot stack boundary before memory or runtime progression evidence.";
  status = "proven";
  required_prerequisites = ("BOOT_SMOKE" ∷ []);
  required_evidence =
      ("QEMU evidence for KOZO_STACK_INIT_OK" ∷ "stack initialization metadata" ∷ []);
  required_contracts = ("contracts/stack_initialization_evidence_contract.v0.json" ∷ []);
  required_validators =
      ("stack_initialization_evidence_contract" ∷ "stack_initialization_evidence" ∷ []);
  allowed_next_stages = ("MEMORY_INITIALIZATION_EVIDENCE" ∷ []);
  forbidden_shortcuts =
      ("STACK_INITIALIZATION_EVIDENCE to RUNTIME_PROGRESSION_ENTRY"
        ∷ "STACK_INITIALIZATION_EVIDENCE to RUNTIME_INITIALIZATION_EVIDENCE"
        ∷ "STACK_INITIALIZATION_EVIDENCE to FIRST_GOVERNED_RUNTIME_CAPABILITY"
        ∷ "STACK_INITIALIZATION_EVIDENCE to USERSPACE_PLANNING" ∷ []);
}

abbrev stage_2 : Stage
stage_2 = record {
  stage_id = pos 2;
  stage_name = "MEMORY_INITIALIZATION_EVIDENCE";
  description =
      "Evidence proves the governed static memory initialization boundary after stack evidence.";
  status = "proven";
  required_prerequisites = ("STACK_INITIALIZATION_EVIDENCE" ∷ []);
  required_evidence =
      ("QEMU evidence for KOZO_MEMORY_INIT_OK" ∷ "memory initialization metadata" ∷ []);
  required_contracts = ("contracts/memory_initialization_evidence_contract.v0.json" ∷ []);
  required_validators =
      ("memory_initialization_evidence_contract" ∷ "memory_initialization_evidence" ∷ []);
  allowed_next_stages = ("RUNTIME_PROGRESSION_ENTRY" ∷ []);
  forbidden_shortcuts =
      ("MEMORY_INITIALIZATION_EVIDENCE to RUNTIME_INITIALIZATION_EVIDENCE"
        ∷ "MEMORY_INITIALIZATION_EVIDENCE to FIRST_GOVERNED_RUNTIME_CAPABILITY"
        ∷ "MEMORY_INITIALIZATION_EVIDENCE to USERSPACE_PLANNING" ∷ []);
}

abbrev stage_3 : Stage
stage_3 = record {
  stage_id = pos 3;
  stage_name = "RUNTIME_PROGRESSION_ENTRY";
  description =
      "Hosted QEMU evidence proves assembly enters the bounded Odin runtime path after stack and memory evidence.";
  status = "proven";
  required_prerequisites = ("MEMORY_INITIALIZATION_EVIDENCE" ∷ []);
  required_evidence =
      ("QEMU evidence for KOZO_RUNTIME_PROGRESS_ENTRY" ∷ "release evidence update" ∷ []);
  required_contracts =
      ("contracts/runtime_halt_contract.v0.json" ∷ "contracts/runtime_progression_contract.v0.json"
        ∷ "contracts/runtime_progression_entry_contract.v0.json" ∷ []);
  required_validators =
      ("runtime_progression_contract" ∷ "runtime_progression_entry_contract"
        ∷ "runtime_progression_evidence" ∷ "qemu_smoke_evidence" ∷ []);
  allowed_next_stages = ("RUNTIME_INITIALIZATION_EVIDENCE" ∷ []);
  forbidden_shortcuts =
      ("RUNTIME_PROGRESSION_ENTRY to CONTROLLED_RUNTIME_LOOP"
        ∷ "RUNTIME_PROGRESSION_ENTRY to FIRST_GOVERNED_RUNTIME_CAPABILITY"
        ∷ "RUNTIME_PROGRESSION_ENTRY to USERSPACE_PLANNING" ∷ []);
}

abbrev stage_4 : Stage
stage_4 = record {
  stage_id = pos 4;
  stage_name = "RUNTIME_INITIALIZATION_EVIDENCE";
  description =
      "Hosted QEMU evidence proves Odin validates the bootstrap context, completes the bounded volatile runtime-state probe, and returns through the governed continuation.";
  status = "proven";
  required_prerequisites = ("RUNTIME_PROGRESSION_ENTRY" ∷ []);
  required_evidence =
      ("QEMU evidence for KOZO_RUNTIME_INIT_OK" ∷ "QEMU evidence for KOZO_RUNTIME_RETURN_OK" ∷ []);
  required_contracts = ("contracts/runtime_progression_entry_contract.v0.json" ∷ []);
  required_validators = ("runtime_progression_evidence" ∷ []);
  allowed_next_stages = ("CONTROLLED_RUNTIME_LOOP" ∷ []);
  forbidden_shortcuts =
      ("RUNTIME_INITIALIZATION_EVIDENCE to FIRST_GOVERNED_RUNTIME_CAPABILITY"
        ∷ "RUNTIME_INITIALIZATION_EVIDENCE to USERSPACE_PLANNING" ∷ []);
}

abbrev stage_5 : Stage
stage_5 = record {
  stage_id = pos 5;
  stage_name = "CONTROLLED_RUNTIME_LOOP";
  description =
      "Hosted QEMU evidence proves the bounded three-iteration Odin loop completed after runtime initialization and before the governed capability boundary.";
  status = "proven";
  required_prerequisites = ("RUNTIME_INITIALIZATION_EVIDENCE" ∷ []);
  required_evidence =
      ("QEMU evidence through KOZO_RUNTIME_LOOP_EXIT_OK"
        ∷ "kernel ELF evidence for a backward branch in controlled_runtime_loop"
        ∷ "release evidence update" ∷ []);
  required_contracts = ("contracts/controlled_runtime_loop_contract.v0.json" ∷ []);
  required_validators =
      ("controlled_runtime_loop_contract" ∷ "controlled_runtime_loop_evidence" ∷ []);
  allowed_next_stages = ("FIRST_GOVERNED_RUNTIME_CAPABILITY" ∷ []);
  forbidden_shortcuts = ("CONTROLLED_RUNTIME_LOOP to USERSPACE_PLANNING" ∷ []);
}

abbrev stage_6 : Stage
stage_6 = record {
  stage_id = pos 6;
  stage_name = "FIRST_GOVERNED_RUNTIME_CAPABILITY";
  description =
      "A bounded internal runtime status query is implemented after the accepted controlled loop; hosted evidence remains pending.";
  status = "implemented_pending_ci";
  required_prerequisites = ("CONTROLLED_RUNTIME_LOOP" ∷ []);
  required_evidence =
      ("QEMU evidence for first governed runtime capability" ∷ "release evidence update" ∷ []);
  required_contracts = ("contracts/first_governed_runtime_capability.v0.json" ∷ []);
  required_validators =
      ("first_governed_runtime_capability" ∷ "first_governed_runtime_capability_evidence" ∷ []);
  allowed_next_stages = ("USERSPACE_PLANNING" ∷ []);
  forbidden_shortcuts = ("FIRST_GOVERNED_RUNTIME_CAPABILITY to userspace implementation" ∷ []);
}

abbrev stage_7 : Stage
stage_7 = record {
  stage_id = pos 7;
  stage_name = "USERSPACE_PLANNING";
  description =
      "Future planning stage for userspace boundaries after governed runtime capability evidence exists.";
  status = "planned";
  required_prerequisites = ("FIRST_GOVERNED_RUNTIME_CAPABILITY" ∷ []);
  required_evidence = ("userspace planning evidence" ∷ []);
  required_contracts = ("planned:userspace_planning_contract" ∷ []);
  required_validators = ("planned:userspace_planning" ∷ []);
  allowed_next_stages = [];
  forbidden_shortcuts =
      ("USERSPACE_PLANNING to userspace execution without separate implementation evidence" ∷ []);
}

abbrev contract : StagesContract
contract = record {
  version = pos 0;
  architecture = "x86_64";
  current_state = record {
    path = "boot_smoke_to_stack_memory_and_runtime_progression_to_halt";
    halt_contract = "contracts/runtime_halt_contract.v0.json";
    progression_contract = "contracts/runtime_progression_contract.v0.json";
    progression_entry_contract = "contracts/runtime_progression_entry_contract.v0.json";
    terminal_behavior = "halt_loop";
  };
  stages = (stage_0 ∷ stage_1 ∷ stage_2 ∷ stage_3 ∷ stage_4 ∷ stage_5 ∷ stage_6 ∷ stage_7 ∷ []);
  transitions =
      (record {
        from_stage = "BOOT_SMOKE";
        to_stage = "STACK_INITIALIZATION_EVIDENCE";
        owner_contract = "contracts/stack_initialization_evidence_contract.v0.json";
      }
        ∷ record {
          from_stage = "STACK_INITIALIZATION_EVIDENCE";
          to_stage = "MEMORY_INITIALIZATION_EVIDENCE";
          owner_contract = "contracts/memory_initialization_evidence_contract.v0.json";
        }
        ∷ record {
          from_stage = "MEMORY_INITIALIZATION_EVIDENCE";
          to_stage = "RUNTIME_PROGRESSION_ENTRY";
          owner_contract = "contracts/runtime_progression_entry_contract.v0.json";
        }
        ∷ record {
          from_stage = "RUNTIME_PROGRESSION_ENTRY";
          to_stage = "RUNTIME_INITIALIZATION_EVIDENCE";
          owner_contract = "contracts/runtime_progression_entry_contract.v0.json";
        }
        ∷ record {
          from_stage = "RUNTIME_INITIALIZATION_EVIDENCE";
          to_stage = "CONTROLLED_RUNTIME_LOOP";
          owner_contract = "contracts/controlled_runtime_loop_contract.v0.json";
        }
        ∷ record {
          from_stage = "CONTROLLED_RUNTIME_LOOP";
          to_stage = "FIRST_GOVERNED_RUNTIME_CAPABILITY";
          owner_contract = "contracts/first_governed_runtime_capability.v0.json";
        }
        ∷ record {
          from_stage = "FIRST_GOVERNED_RUNTIME_CAPABILITY";
          to_stage = "USERSPACE_PLANNING";
          owner_contract = "planned:userspace_planning_contract";
        }
        ∷ []);
  transition_requirements =
      ("runtime_halt_contract remains authoritative after bounded runtime progression"
        ∷ "runtime_progression_stages contract owns canonical stage order and allowed transitions"
        ∷ "transition owner contracts own destination-stage proof boundaries"
        ∷ "evidence contracts must not redefine canonical stage order"
        ∷ "stages must advance in declared order unless a later contract explicitly supersedes this stage model"
        ∷ "halt replacement requires a separately governed controlled runtime loop"
        ∷ "planning stages do not constitute runtime evidence" ∷ []);
  forbidden_global_shortcuts =
      ("delete halt loop without progression evidence"
        ∷ "replace halt loop without progression evidence"
        ∷ "bypass halt loop without progression evidence"
        ∷ "jump around halt loop without progression evidence"
        ∷ "claim userspace execution from planning evidence"
        ∷ "claim production readiness from planning evidence" ∷ []);
  non_goals =
      ("runtime progression beyond the bounded entry call" ∷ "halt loop replacement"
        ∷ "general stack readiness" ∷ "general memory management"
        ∷ "complete Odin runtime readiness" ∷ "interrupt handling" ∷ "scheduler behavior"
        ∷ "userspace execution" ∷ "process model behavior" ∷ "VFS behavior"
        ∷ "device driver behavior" ∷ "Linux compatibility" ∷ "POSIX compatibility"
        ∷ "production readiness" ∷ []);
}

structure_holds : structural_issue is_file contract ≡ ok none
unfolding structural_issue current_state_issue expected_value_issue current_contract_reference_issue
    contract_reference_issue duplicate_stage_issue all_distinct_ids all_distinct
    required_stage_issue stage_id_issue ids_from stage_content_issue stage_issue
    required_stage_evidence_issue non_empty_issue required_contract_issue authority_contract_issue
    is_planned_reference required_validator_issue required_value_issue sorted_set insert text_ltb
    starts_with strip_prefix
structure_holds = refl

graph_holds : graph_issue is_file contract (build_graph contract.stages) ≡ ok none
unfolding graph_issue sorted_set insert text_ltb starts_with strip_prefix is_planned_reference
    authority_contract_issue cycle_loop earliest indirect_cycle_issue ready_names
    remove_ready_stages allowed_transition_issue build_graph direct_cycle_issue
    mandatory_prerequisite_issue order_issue prerequisite_order_issue prerequisite_reference_issue
    stage_status_issue stage_transition_issue status_issue transitions_from add_owners
    duplicate_transition_owner_issue expected_transition_edges transition_alignment_issue
    transition_authority_issue transition_owner_reference_issue transition_reference_issue
graph_holds = refl

passed : ValidationResult
passed =
    pass_ ok_code "Runtime progression stages form an acyclic, monotonic, authority-backed graph"

is_pass : Passes passed
unfolding passed
is_pass = refl

contract_passes : validate_stages is_file contract ≡ ok passed
unfolding validate_stages stages_issue passed
contract_passes = rw (structure_holds, graph_holds, stages_issue, validate_stages) refl

abbrev edge : Edge
edge = ("BOOT_SMOKE", "STACK_INITIALIZATION_EVIDENCE")

validate_stages-total_example :
    (result : ValidationResult) × (validate_stages is_file contract ≡ ok result)
validate_stages-total_example = validate_stages-total is_file contract

validate_stages-IsOrdered_example : IsOrdered contract
validate_stages-IsOrdered_example =
    validate_stages-IsOrdered is_file contract passed contract_passes is_pass

stack-Requires_boot : Requires contract.stages "STACK_INITIALIZATION_EVIDENCE" "BOOT_SMOKE"
stack-Requires_boot = directly stage_1 "BOOT_SMOKE" (inr (inl refl)) (inl refl)

memory-Requires_boot : Requires contract.stages "MEMORY_INITIALIZATION_EVIDENCE" "BOOT_SMOKE"
memory-Requires_boot =
    through "MEMORY_INITIALIZATION_EVIDENCE" "STACK_INITIALIZATION_EVIDENCE" "BOOT_SMOKE"
      (directly stage_2 "STACK_INITIALIZATION_EVIDENCE" (inr (inr (inl refl))) (inl refl))
      stack-Requires_boot

validate_stages-IsProven_example : IsProven contract.stages "BOOT_SMOKE"
validate_stages-IsProven_example =
    validate_stages-IsProven is_file contract passed contract_passes is_pass
      "MEMORY_INITIALIZATION_EVIDENCE" "BOOT_SMOKE" memory-Requires_boot
      (stage_2, inr (inr (inl refl)), refl, refl)

validate_stages-single_owner_example : length (owners_in edge contract.transitions) ≡ 1
unfolding expected_transition_edges
validate_stages-single_owner_example =
    validate_stages-single_owner is_file contract passed contract_passes is_pass edge

later_stages : List Stage
later_stages = stage_1 ∷ stage_2 ∷ stage_3 ∷ stage_4 ∷ stage_5 ∷ stage_6 ∷ stage_7 ∷ []

validate_stages-Reaches_example :
    ((t : Stage) → Member t contract.stages → Reaches contract.stages "BOOT_SMOKE" t.stage_name)
    × ((a b : String)
        → Move contract.stages a b
        → place (stage_names contract.stages) b ≡ suc (place (stage_names contract.stages) a))
unfolding later_stages
validate_stages-Reaches_example =
    validate_stages-Reaches is_file contract passed stage_0 later_stages contract_passes is_pass
      refl

-- Two stages that require each other, and one that they do not reach.
abbrev small_stage : String → List String → List String → Stage
small_stage name required next = record {
  stage_id = pos 0;
  stage_name = name;
  description = "";
  status = "planned";
  required_prerequisites = required;
  required_evidence = [];
  required_contracts = [];
  required_validators = [];
  allowed_next_stages = next;
  forbidden_shortcuts = [];
}

abbrev chained : List Stage
chained =
    small_stage "BOOT" [] ("LOOP" ∷ [])
    ∷ small_stage "LOOP" ("BOOT" ∷ []) ("HALT" ∷ [])
    ∷ small_stage "HALT" ("LOOP" ∷ []) []
    ∷ []

abbrev tangled : List Stage
tangled =
    small_stage "BOOT" [] []
    ∷ small_stage "LOOP" ("HALT" ∷ []) []
    ∷ small_stage "HALT" ("LOOP" ∷ []) []
    ∷ []

indirect_cycle_issue-IsRank_example :
    (indirect_cycle_issue [] tangled ≡ ok none) ↔ ((rank : String → ℕ) × IsRank rank tangled)
indirect_cycle_issue-IsRank_example =
    indirect_cycle_issue-IsRank [] tangled (refl, (refl, (refl, tt)))
      (tt, ((refl, tt), ((refl, tt), tt)))

allowed_transition_issue-IsChain_example :
    (allowed_transition_issue (build_graph chained) ≡ ok none) ↔ IsChain chained
allowed_transition_issue-IsChain_example =
    allowed_transition_issue-IsChain chained (refl, (refl, (refl, tt)))

prerequisite_order_issue-IsRank_example :
    (prerequisite_order_issue (build_graph chained) ≡ ok none)
    ↔ IsRank (place (stage_names chained)) chained
prerequisite_order_issue-IsRank_example =
    prerequisite_order_issue-IsRank chained (refl, (refl, (refl, tt)))
      (tt, ((refl, tt), ((refl, tt), tt)))
