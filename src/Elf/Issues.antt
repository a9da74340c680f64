-- ===== src/Elf/Issues.antt =====
-- `detected_issues`, `blocker_category` and `proves_for`.
pub mod Verdict
use kozo.Base.{
  ℕ, String, Bool, true, false, not, null, ltb, contains, ◌==◌, nat_equality, string_equality,
  if◌then◌else◌, Option, none, some, List, [], ◌∷◌, ◌++◌,
}
use kozo.Base.Text.{Text, codes}
use kozo.Base.Order.{sorted_set}
use kozo.Elf.Types.{
  ElfHeader, ProgramHeader, LoadLayout, et_exec, em_x86_64, lower_half_phdr_blocker,
}

abbrev pub issue_if : Bool → String → List String
issue_if true issue = issue ∷ []
issue_if false issue = []

-- `symbol_address is None or symbol_address != header.entry`
unfoldable pub misses_entry : Option ℕ → ElfHeader → Bool
misses_entry none header = true
misses_entry (some address) header = not (address == header.entry)

unfoldable pub detected_issues :
    ElfHeader → List ProgramHeader → Option ℕ → LoadLayout → List String
detected_issues header segments symbol_address layout = sorted_set (
    issue_if (not (header.elf_type == et_exec)) "linker_output_invalid"
    ++ issue_if (not (header.machine == em_x86_64)) "wrong_architecture"
    ++ issue_if (header.entry == 0) "invalid_kernel_entry"
    ++ issue_if (null segments) "missing_load_segments"
    ++ issue_if (misses_entry symbol_address header) "invalid_kernel_entry"
    ++ issue_if layout.has_lower_half_load_segment lower_half_phdr_blocker)

unfoldable pub blocker_category : List String → String
blocker_category issues =
    if contains issues lower_half_phdr_blocker
    then lower_half_phdr_blocker
    else if contains issues "missing_load_segments"
    then "missing_load_segments"
    else if contains issues "invalid_kernel_entry"
    then "invalid_kernel_entry"
    else if contains issues "wrong_architecture"
    then "invalid_kernel_elf"
    else if contains issues "linker_output_invalid"
    then "linker_output_invalid"
    else "none"

unfoldable pub proves_for : List String → List String
proves_for (issue ∷ issues) = "kernel ELF loadability was inspected" ∷ []
proves_for [] =
    "kernel ELF is an x86_64 executable" ∷ "kernel ELF has an entry point matching _start"
    ∷ "kernel ELF has PT_LOAD segments"
    ∷ "kernel ELF load layout was inspected for Limine lower-half PHDR rejection" ∷ []
