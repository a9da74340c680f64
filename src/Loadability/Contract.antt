-- ===== src/Loadability/Contract.antt =====
-- The values that harness/validators_impl/kernel_loadability.py holds the reports to.
use kozo.Base.{String, List, [], ◌∷◌}

abbrev pub common_fields : List (String × String)
common_fields =
    ("phase", "v0.4.2")
    ∷ ("evidence_type", "kernel-elf-loadability")
    ∷ ("generated_by", "scripts/kernel_elf_report.py")
    ∷ ("kernel_elf", "artifacts/runtime/boot_image/image-root/boot/kozo/kozo-kernel.elf")
    ∷ ("linker_script", "linker/kernel.ld")
    ∷ ("architecture", "x86_64")
    ∷ ("elf_class", "ELF64")
    ∷ ("endianness", "little")
    ∷ ("elf_type", "EXEC")
    ∷ ("entry_symbol", "_start")
    ∷ []

abbrev pub required_non_claims : List String
required_non_claims =
    "QEMU boot" ∷ "kernel entry execution" ∷ "serial initialization" ∷ "hardware trap execution"
    ∷ "Linux compatibility" ∷ "POSIX compatibility" ∷ "general userspace execution"
    ∷ "process model behavior" ∷ "VFS behavior" ∷ "scheduler maturity" ∷ "ELF loading by Limine"
    ∷ "file descriptor behavior" ∷ "production readiness" ∷ []

abbrev pub issue_blockers : List String
issue_blockers =
    "invalid_kernel_elf" ∷ "missing_load_segments" ∷ "invalid_kernel_entry"
    ∷ "linker_output_invalid" ∷ "limine_lower_half_phdr" ∷ []

abbrev pub build_external_blockers : List String
build_external_blockers =
    "missing_iso_generation_tooling" ∷ "missing_qemu_tooling" ∷ "missing_boot_image"
    ∷ "qemu_launch_failed" ∷ []

abbrev pub post_loadability_blockers : List String
post_loadability_blockers =
    "none" ∷ "kernel_not_loaded" ∷ "kernel_entry_not_reached" ∷ "serial_not_initialized"
    ∷ "marker_not_emitted" ∷ "qemu_timeout" ∷ "missing_qemu_serial_evidence"
    ∷ build_external_blockers
