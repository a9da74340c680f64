-- ===== src/Elf/Report/Names.antt =====
-- The symbols that the report looks for, and what it says that it does not prove.
use kozo.Base.{String, List, [], ◌∷◌}

abbrev pub runtime_progression_symbols : List String
runtime_progression_symbols =
    "runtime_progression_entry" ∷ "runtime_bootstrap_context" ∷ "runtime_progression_state"
    ∷ "runtime_serial_write_init_marker" ∷ []

abbrev pub controlled_runtime_loop_symbols : List String
controlled_runtime_loop_symbols =
    "controlled_runtime_loop" ∷ "runtime_loop_state" ∷ "runtime_serial_write_loop_enter_marker"
    ∷ "runtime_serial_write_loop_iter_1_marker" ∷ "runtime_serial_write_loop_iter_2_marker"
    ∷ "runtime_serial_write_loop_iter_3_marker" ∷ "runtime_serial_write_loop_exit_marker" ∷ []

abbrev pub first_capability_symbols : List String
first_capability_symbols =
    "execute_first_governed_capability" ∷ "dispatch_runtime_capability" ∷ "query_runtime_status"
    ∷ "runtime_serial_write_capability_dispatch_marker" ∷ "runtime_serial_write_status_query_marker"
    ∷ "runtime_serial_write_first_capability_marker" ∷ []

abbrev pub required_non_claims : List String
required_non_claims =
    "QEMU boot" ∷ "kernel entry execution" ∷ "serial initialization" ∷ "hardware trap execution"
    ∷ "Linux compatibility" ∷ "POSIX compatibility" ∷ "general userspace execution"
    ∷ "process model behavior" ∷ "VFS behavior" ∷ "scheduler maturity" ∷ "ELF loading by Limine"
    ∷ "file descriptor behavior" ∷ "production readiness" ∷ []
