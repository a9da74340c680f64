-- ===== src/Registry/Codes.antt =====
-- harness/codes.py: the diagnostic codes that a validator may emit, with their descriptions.
use kozo.Base.{String, List, [], ◌∷◌}
use mathlib.Core.List.{map}

abbrev pub ok : String
ok = "OK"

abbrev pub runtime_progression_stages_invalid : String
runtime_progression_stages_invalid = "RUNTIME_PROGRESSION_STAGES_INVALID"

abbrev pub kernel_loadability_invalid : String
kernel_loadability_invalid = "KERNEL_LOADABILITY_INVALID"

abbrev pub step_failure_threshold : String
step_failure_threshold = "STEP_FAILURE_THRESHOLD"

abbrev pub replan_required : String
replan_required = "REPLAN_REQUIRED"

abbrev pub schema_invalid : String
schema_invalid = "SCHEMA_INVALID"

abbrev pub plan_status_invalid : String
plan_status_invalid = "PLAN_STATUS_INVALID"

abbrev pub step_order_invalid : String
step_order_invalid = "STEP_ORDER_INVALID"

abbrev pub step_scope_unplanned_file : String
step_scope_unplanned_file = "STEP_SCOPE_UNPLANNED_FILE"

abbrev pub step_scope_empty_done_step : String
step_scope_empty_done_step = "STEP_SCOPE_EMPTY_DONE_STEP"

abbrev pub step_scope_outside_task_scope : String
step_scope_outside_task_scope = "STEP_SCOPE_OUTSIDE_TASK_SCOPE"

abbrev pub verification_refs_invalid : String
verification_refs_invalid = "VERIFICATION_REFS_INVALID"

abbrev pub missing_ref : String
missing_ref = "MISSING_REF"

abbrev pub explanation_summary_required : String
explanation_summary_required = "EXPLANATION_SUMMARY_REQUIRED"

abbrev pub precondition_unchecked : String
precondition_unchecked = "PRECONDITION_UNCHECKED"

abbrev pub subagent_scope_violation : String
subagent_scope_violation = "SUBAGENT_SCOPE_VIOLATION"

abbrev pub evidence_file_missing : String
evidence_file_missing = "EVIDENCE_FILE_MISSING"

abbrev pub execution_proof_invalid : String
execution_proof_invalid = "EXECUTION_PROOF_INVALID"

abbrev pub return_path_proof_invalid : String
return_path_proof_invalid = "RETURN_PATH_PROOF_INVALID"

abbrev pub runtime_trap_path_invalid : String
runtime_trap_path_invalid = "RUNTIME_TRAP_PATH_INVALID"

abbrev pub syscall_table_contract_invalid : String
syscall_table_contract_invalid = "SYSCALL_TABLE_CONTRACT_INVALID"

-- `CODES`
abbrev pub code_table : List (String × String)
code_table =
    ("OK", "Operation succeeded")
    ∷ ("SCHEMA_INVALID", "Artifact failed JSON schema validation")
    ∷ ("PLAN_STATUS_INVALID", "Illegal plan status transition")
    ∷ ("STEP_ORDER_INVALID", "Step ordering violated")
    ∷ ("STEP_FAILURE_THRESHOLD", "Step failure threshold exceeded")
    ∷ ("REPLAN_REQUIRED", "Execution halted pending replan")
    ∷ ("STEP_SCOPE_UNPLANNED_FILE", "Changed file outside step scope")
    ∷ ("STEP_SCOPE_EMPTY_DONE_STEP", "Completed step produced no file effects")
    ∷ ("STEP_SCOPE_OUTSIDE_TASK_SCOPE", "Step scope outside task scope")
    ∷ ("VERIFICATION_REFS_INVALID", "Invalid verification reference")
    ∷ ("MISSING_REF", "Verification reference points to missing entry")
    ∷ ("EXPLANATION_SUMMARY_REQUIRED", "Explanation summary required but missing")
    ∷ ("PRECONDITION_UNCHECKED", "Precondition lacks verification")
    ∷ ("SUBAGENT_SCOPE_VIOLATION", "Subagent modified files outside scope")
    ∷ ("RUST_FMT_FAILED", "cargo fmt failed")
    ∷ ("RUST_CLIPPY_FAILED", "cargo clippy failed")
    ∷ ("RUST_TEST_FAILED", "cargo test failed")
    ∷ ("ODIN_CHECK_FAILED", "odin check failed")
    ∷ ("ABI_WIDTH_MISMATCH", "ABI width mismatch")
    ∷ ("ABI_LAYOUT_MISMATCH", "ABI layout mismatch")
    ∷ (
      "ABI_MANIFEST_INVALID",
      "ABI manifest is missing, invalid, or inconsistent with the canonical ABI",
    )
    ∷ ("ABI_SURFACE_REPORT_INVALID", "Generated ABI surface report is missing or stale")
    ∷ ("GOVERNANCE_INDEX_REPORT_INVALID", "Generated governance index report is missing or stale")
    ∷ (
      "SYSCALL_BOUNDARY_CONTRACT_INVALID",
      "Syscall boundary contract is missing, invalid, or inconsistent with the proven trap path",
    )
    ∷ (
      "SYSCALL_BOUNDARY_CONFORMANCE_INVALID",
      "Live sources do not conform to the syscall boundary contract",
    )
    ∷ (
      "SYSCALL_TABLE_CONTRACT_INVALID",
      "Syscall table contract is missing, invalid, or inconsistent with the live dispatcher",
    )
    ∷ (
      "SYSCALL_CLASS_CONTRACT_INVALID",
      "Syscall class contract is missing, invalid, or inconsistent with the syscall table contract",
    )
    ∷ (
      "SYSCALL_TABLE_CONFORMANCE_INVALID",
      "Live dispatcher source does not conform to the syscall table contract",
    )
    ∷ (
      "SYSCALL_CATALOG_INVALID",
      "Syscall catalog is missing, invalid, or inconsistent with governed syscall contracts",
    )
    ∷ ("SYSCALL_SURFACE_REPORT_INVALID", "Generated syscall surface report is missing or stale")
    ∷ ("PROTOCOL_MISMATCH", "Kernel and service protocol usage drifted from the ABI")
    ∷ ("LAYOUT_PARITY_MISMATCH", "Generated bindings do not preserve the heartbeat payload layout")
    ∷ (
      "EXECUTION_FOUNDATION_INVALID",
      "Kernel boot and trap entry symbols are misaligned with the execution foundation contract",
    )
    ∷ (
      "BRIDGE_ALIGNMENT_INVALID",
      "Assembly ingress registers do not align with the exported Odin trap dispatcher signature",
    )
    ∷ (
      "RUNTIME_TRAP_PATH_INVALID",
      "Rust does not cross the assembly syscall bridge as required by the runtime trap contract",
    )
    ∷ (
      "RUNTIME_SMOKE_EVIDENCE_INVALID",
      "Runtime smoke evidence is missing, malformed, or inconsistent with release evidence policy",
    )
    ∷ (
      "RUNTIME_EVIDENCE_REVIEW_INVALID",
      "Runtime evidence review policy is missing, incomplete, or overclaim-prone",
    )
    ∷ (
      "RUNTIME_EVIDENCE_TAXONOMY_INVALID",
      "Runtime evidence taxonomy is missing, malformed, or inconsistent with governed smoke vocabulary",
    )
    ∷ (
      "RUNTIME_HALT_CONTRACT_INVALID",
      "Runtime halt contract is missing, malformed, or inconsistent with the post-smoke terminal path",
    )
    ∷ (
      "RUNTIME_PROGRESSION_CONTRACT_INVALID",
      "Runtime progression contract is missing, malformed, or inconsistent with halt-to-runtime transition governance",
    )
    ∷ (
      "RUNTIME_PROGRESSION_ENTRY_CONTRACT_INVALID",
      "Runtime progression entry contract is missing, malformed, or inconsistent with the assembly-to-Odin boundary",
    )
    ∷ (
      "RUNTIME_PROGRESSION_EVIDENCE_INVALID",
      "Runtime progression evidence is missing, malformed, or inconsistent with source, symbols, markers, stages, or halt behavior",
    )
    ∷ (
      "RUNTIME_PROGRESSION_STAGES_INVALID",
      "Runtime progression stages contract is missing, malformed, or inconsistent with canonical progression ordering",
    )
    ∷ (
      "STACK_INITIALIZATION_EVIDENCE_CONTRACT_INVALID",
      "Stack initialization evidence contract is missing, malformed, or inconsistent with future stack proof governance",
    )
    ∷ (
      "STACK_INITIALIZATION_EVIDENCE_INVALID",
      "Stack initialization evidence is missing, malformed, or inconsistent with the controlled boot stack proof",
    )
    ∷ (
      "MEMORY_INITIALIZATION_EVIDENCE_CONTRACT_INVALID",
      "Memory initialization evidence contract is missing, malformed, or inconsistent with future memory proof governance",
    )
    ∷ (
      "MEMORY_INITIALIZATION_EVIDENCE_INVALID",
      "Memory initialization evidence is missing, malformed, or inconsistent with the controlled static-region proof",
    )
    ∷ (
      "CONTROLLED_RUNTIME_LOOP_CONTRACT_INVALID",
      "Controlled runtime loop contract is missing, malformed, or inconsistent with bounded loop governance",
    )
    ∷ (
      "CONTROLLED_RUNTIME_LOOP_EVIDENCE_INVALID",
      "Controlled runtime loop evidence is missing, malformed, or inconsistent with source, ELF, QEMU, stage, or halt state",
    )
    ∷ (
      "FIRST_GOVERNED_RUNTIME_CAPABILITY_INVALID",
      "First governed runtime capability contract is missing, malformed, or inconsistent with its bounded internal request and response boundary",
    )
    ∷ (
      "FIRST_GOVERNED_RUNTIME_CAPABILITY_EVIDENCE_INVALID",
      "First governed runtime capability evidence is missing, malformed, or inconsistent with source, ELF, QEMU, stage, or halt state",
    )
    ∷ (
      "BOOT_BLOCKER_REPORT_INVALID",
      "Boot blocker report is missing, malformed, or inconsistent with boot baseline policy",
    )
    ∷ (
      "BOOT_PROTOCOL_DECISION_INVALID",
      "Boot protocol decision is missing, incomplete, or inconsistent with boot blocker policy",
    )
    ∷ (
      "BOOT_IMAGE_SKELETON_INVALID",
      "Boot image skeleton is missing, incomplete, or inconsistent with boot blocker state",
    )
    ∷ (
      "BOOT_IMAGE_PACKAGING_INVALID",
      "Boot image packaging metadata is missing, malformed, or inconsistent with boot blocker state",
    )
    ∷ (
      "BOOT_TOOLING_INVALID",
      "Boot tooling policy is missing, incomplete, or inconsistent with boot blocker state",
    )
    ∷ (
      "KERNEL_LOADABILITY_INVALID",
      "Kernel ELF loadability evidence is missing, malformed, or inconsistent with boot blocker state",
    )
    ∷ (
      "HOST_DEPENDENCY_PORTABILITY_INVALID",
      "Host dependency portability policy is missing, malformed, or relies on local host state",
    )
    ∷ (
      "QEMU_SMOKE_EVIDENCE_INVALID",
      "QEMU smoke evidence is missing, malformed, or inconsistent with boot evidence policy",
    )
    ∷ (
      "RETURN_PATH_PROOF_INVALID",
      "Rust does not prove that post-call payload mutations are observed after the trap bridge returns",
    )
    ∷ (
      "EXECUTION_PROOF_INVALID",
      "Syscall execution behavior proof is missing or misordered in source",
    )
    ∷ (
      "VALIDATOR_COVERAGE_INVALID",
      "Registered validators do not have focused negative-path test coverage",
    )
    ∷ ("EVIDENCE_FILE_MISSING", "Required evidence file missing")
    ∷ []

abbrev pub code_names : List String
code_names = map (λ (name, _). name) code_table
