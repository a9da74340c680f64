-- ===== src/Registry.antt =====
-- The protocol's vocabulary: harness/registry.py (statuses, subsystems, the canonical checks) and
-- harness/codes.py (the diagnostic codes).
pub mod Codes
use kozo.Base.{String, Bool, List, [], ◌∷◌, contains, string_equality}
use mathlib.Core.List.{map}
use Codes.{code_names}

abbrev pub artifact_version : String
artifact_version = "1"

abbrev pub pass : String
pass = "pass"

abbrev pub fail : String
fail = "fail"

abbrev pub summary_subsystem_generic : String
summary_subsystem_generic = "generic"

abbrev pub plan_statuses : List String
plan_statuses = "approved" ∷ "complete" ∷ []

abbrev pub step_statuses : List String
step_statuses = "pending" ∷ "done" ∷ []

abbrev pub step_kinds : List String
step_kinds = "edit" ∷ "docs" ∷ []

abbrev pub task_kinds : List String
task_kinds = "non_trivial" ∷ []

abbrev pub approval_statuses : List String
approval_statuses = "approved" ∷ []

abbrev pub context_modes : List String
context_modes = "execute" ∷ "replan" ∷ "halted" ∷ "complete" ∷ []

abbrev pub verification_sections : List String
verification_sections =
    "tests_run" ∷ "logs" ∷ "diffs" ∷ "invariants" ∷ "expected_behavior" ∷ "actual_behavior" ∷ []

-- The keys of `SUBSYSTEMS`, whose values are all empty.
abbrev pub subsystems : List String
subsystems =
    "generic" ∷ "schema" ∷ "lifecycle" ∷ "step_scope" ∷ "verification_refs" ∷ "explanation"
    ∷ "preconditions" ∷ "subagent" ∷ "rust" ∷ "odin" ∷ "abi" ∷ "abi_manifest" ∷ "abi_surface_report"
    ∷ "syscall_boundary_contract" ∷ "syscall_boundary_conformance" ∷ "syscall_table_contract"
    ∷ "syscall_class_contract" ∷ "syscall_table_conformance" ∷ "syscall_catalog"
    ∷ "syscall_surface_report" ∷ "governance_index_report" ∷ "protocol_contract_alignment"
    ∷ "structural_integrity" ∷ "execution_foundation" ∷ "bridge_alignment" ∷ "runtime_trap_path"
    ∷ "runtime_smoke_evidence" ∷ "runtime_evidence_review" ∷ "runtime_evidence_taxonomy"
    ∷ "runtime_halt_contract" ∷ "runtime_progression_contract"
    ∷ "runtime_progression_entry_contract" ∷ "runtime_progression_evidence"
    ∷ "runtime_progression_stages" ∷ "stack_initialization_evidence_contract"
    ∷ "stack_initialization_evidence" ∷ "memory_initialization_evidence_contract"
    ∷ "memory_initialization_evidence" ∷ "controlled_runtime_loop_contract"
    ∷ "controlled_runtime_loop_evidence" ∷ "first_governed_runtime_capability"
    ∷ "first_governed_runtime_capability_evidence" ∷ "boot_blocker_report"
    ∷ "boot_protocol_decision" ∷ "boot_image_skeleton" ∷ "boot_image_packaging" ∷ "boot_tooling"
    ∷ "kernel_loadability" ∷ "host_dependency_portability" ∷ "qemu_smoke_evidence"
    ∷ "return_path_proof" ∷ "execution_proof" ∷ "validator_coverage" ∷ "evidence" ∷ []

-- The canonical checks in order, each with its subsystem.
abbrev pub checks : List (String × String)
checks =
    ("schema", "schema")
    ∷ ("plan_lifecycle", "lifecycle")
    ∷ ("step_scope", "step_scope")
    ∷ ("verification_refs", "verification_refs")
    ∷ ("explanation", "explanation")
    ∷ ("preconditions", "preconditions")
    ∷ ("subagent", "subagent")
    ∷ ("rust", "rust")
    ∷ ("odin", "odin")
    ∷ ("abi", "abi")
    ∷ ("abi_manifest", "abi_manifest")
    ∷ ("abi_surface_report", "abi_surface_report")
    ∷ ("syscall_boundary_contract", "syscall_boundary_contract")
    ∷ ("syscall_boundary_conformance", "syscall_boundary_conformance")
    ∷ ("syscall_table_contract", "syscall_table_contract")
    ∷ ("syscall_class_contract", "syscall_class_contract")
    ∷ ("syscall_table_conformance", "syscall_table_conformance")
    ∷ ("syscall_catalog", "syscall_catalog")
    ∷ ("syscall_surface_report", "syscall_surface_report")
    ∷ ("governance_index_report", "governance_index_report")
    ∷ ("protocol_contract_alignment", "protocol_contract_alignment")
    ∷ ("layout_parity", "structural_integrity")
    ∷ ("execution_foundation", "execution_foundation")
    ∷ ("bridge_alignment", "bridge_alignment")
    ∷ ("runtime_trap_path", "runtime_trap_path")
    ∷ ("runtime_smoke_evidence", "runtime_smoke_evidence")
    ∷ ("runtime_evidence_review", "runtime_evidence_review")
    ∷ ("runtime_evidence_taxonomy", "runtime_evidence_taxonomy")
    ∷ ("runtime_halt_contract", "runtime_halt_contract")
    ∷ ("runtime_progression_contract", "runtime_progression_contract")
    ∷ ("runtime_progression_entry_contract", "runtime_progression_entry_contract")
    ∷ ("runtime_progression_evidence", "runtime_progression_evidence")
    ∷ ("runtime_progression_stages", "runtime_progression_stages")
    ∷ ("stack_initialization_evidence_contract", "stack_initialization_evidence_contract")
    ∷ ("stack_initialization_evidence", "stack_initialization_evidence")
    ∷ ("memory_initialization_evidence_contract", "memory_initialization_evidence_contract")
    ∷ ("memory_initialization_evidence", "memory_initialization_evidence")
    ∷ ("controlled_runtime_loop_contract", "controlled_runtime_loop_contract")
    ∷ ("controlled_runtime_loop_evidence", "controlled_runtime_loop_evidence")
    ∷ ("first_governed_runtime_capability", "first_governed_runtime_capability")
    ∷ ("first_governed_runtime_capability_evidence", "first_governed_runtime_capability_evidence")
    ∷ ("boot_blocker_report", "boot_blocker_report")
    ∷ ("boot_protocol_decision", "boot_protocol_decision")
    ∷ ("boot_image_skeleton", "boot_image_skeleton")
    ∷ ("boot_image_packaging", "boot_image_packaging")
    ∷ ("boot_tooling", "boot_tooling")
    ∷ ("kernel_loadability", "kernel_loadability")
    ∷ ("host_dependency_portability", "host_dependency_portability")
    ∷ ("qemu_smoke_evidence", "qemu_smoke_evidence")
    ∷ ("return_path_proof", "return_path_proof")
    ∷ ("execution_proof", "execution_proof")
    ∷ ("validator_coverage", "validator_coverage")
    ∷ ("evidence", "evidence")
    ∷ []

-- `name in CHECKS`, `subsystem in _ALLOWED_SUBSYSTEMS` and `code in CODES`
abbrev pub check_names : List String
check_names = map (λ (name, _). name) checks

unfoldable pub is_subsystem : String → Bool
is_subsystem s = contains subsystems s

unfoldable pub is_code : String → Bool
is_code c = contains code_names c

-- `status in PLAN_STATUSES` and `status in STEP_STATUSES`
unfoldable pub is_plan_status : String → Bool
is_plan_status s = contains plan_statuses s

unfoldable pub is_step_status : String → Bool
is_step_status s = contains step_statuses s
