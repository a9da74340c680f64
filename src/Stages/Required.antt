-- ===== src/Stages/Required.antt =====
-- What harness/validators_impl/runtime_progression_stages.py requires of every contract.
use kozo.Base.{String, List, [], ◌∷◌}

abbrev pub required_stage_evidence : List (String × String)
required_stage_evidence =
    ("BOOT_SMOKE", "artifacts/runtime/qemu_smoke.metadata.json")
    ∷ ("STACK_INITIALIZATION_EVIDENCE", "QEMU evidence for KOZO_STACK_INIT_OK")
    ∷ ("MEMORY_INITIALIZATION_EVIDENCE", "QEMU evidence for KOZO_MEMORY_INIT_OK")
    ∷ ("RUNTIME_PROGRESSION_ENTRY", "QEMU evidence for KOZO_RUNTIME_PROGRESS_ENTRY")
    ∷ ("RUNTIME_INITIALIZATION_EVIDENCE", "QEMU evidence for KOZO_RUNTIME_INIT_OK")
    ∷ ("CONTROLLED_RUNTIME_LOOP", "QEMU evidence through KOZO_RUNTIME_LOOP_EXIT_OK")
    ∷ ("FIRST_GOVERNED_RUNTIME_CAPABILITY", "QEMU evidence for first governed runtime capability")
    ∷ ("USERSPACE_PLANNING", "userspace planning evidence")
    ∷ []

abbrev pub required_stage_names : List String
required_stage_names =
    "BOOT_SMOKE" ∷ "STACK_INITIALIZATION_EVIDENCE" ∷ "MEMORY_INITIALIZATION_EVIDENCE"
    ∷ "RUNTIME_PROGRESSION_ENTRY" ∷ "RUNTIME_INITIALIZATION_EVIDENCE" ∷ "CONTROLLED_RUNTIME_LOOP"
    ∷ "FIRST_GOVERNED_RUNTIME_CAPABILITY" ∷ "USERSPACE_PLANNING" ∷ []

abbrev pub required_transition_requirements : List String
required_transition_requirements =
    "runtime_halt_contract remains authoritative after bounded runtime progression"
    ∷ "runtime_progression_stages contract owns canonical stage order and allowed transitions"
    ∷ "transition owner contracts own destination-stage proof boundaries"
    ∷ "evidence contracts must not redefine canonical stage order"
    ∷ "stages must advance in declared order unless a later contract explicitly supersedes this stage model"
    ∷ "halt replacement requires a separately governed controlled runtime loop"
    ∷ "planning stages do not constitute runtime evidence" ∷ []

abbrev pub required_forbidden_shortcuts : List String
required_forbidden_shortcuts =
    "delete halt loop without progression evidence"
    ∷ "replace halt loop without progression evidence"
    ∷ "bypass halt loop without progression evidence"
    ∷ "jump around halt loop without progression evidence"
    ∷ "claim userspace execution from planning evidence"
    ∷ "claim production readiness from planning evidence" ∷ []

abbrev pub required_non_goals : List String
required_non_goals =
    "runtime progression beyond the bounded entry call" ∷ "halt loop replacement"
    ∷ "general stack readiness" ∷ "general memory management" ∷ "complete Odin runtime readiness"
    ∷ "interrupt handling" ∷ "scheduler behavior" ∷ "userspace execution" ∷ "process model behavior"
    ∷ "VFS behavior" ∷ "device driver behavior" ∷ "Linux compatibility" ∷ "POSIX compatibility"
    ∷ "production readiness" ∷ []
