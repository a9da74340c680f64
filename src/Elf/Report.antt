-- ===== src/Elf/Report.antt =====
-- `build_report` and the records that it is made of. `host` is what `nm` and `objdump` say of the file.
pub mod Names
pub mod Verdict
use kozo.Elf.Report.Names.{
  runtime_progression_symbols, controlled_runtime_loop_symbols, first_capability_symbols,
  required_non_claims,
}
use Prim.Native.String.{◌++◌ as ◌<>◌}
use kozo.Base.{
  ℕ, ◌-◌, ◌/◌, ◌%◌, String, Bool, true, false, not, ◌&&◌, null, any, leb, ◌==◌, nat_equality,
  string_equality, filter, length, if◌then◌else◌, Option, none, some, List, [], ◌∷◌, ◌++◌, map,
}
use kozo.Base.Text.{codes, starts_with}
use kozo.Base.Int.{ℤ, pos, negsuc}
use kozo.Base.Format.{show_nat, show_hex}
use kozo.Json.{Json, bool, int, str, arr, Items, nil, cons}
use kozo.Json.Access.{dict, strings}
use kozo.Elf.Types.{
  ElfHeader, ProgramHeader, LoadLayout, pt_load, em_x86_64, et_exec, memory_region_alignment,
}
use kozo.Elf.Reader.{Parsed, malformed, parsed, struct_error, parse_elf}
use kozo.Elf.Layout.{load_layout}
use kozo.Elf.Issues.{detected_issues, blocker_category, proves_for}
use kozo.Elf.Branches.{Instruction, backward_branch_records, calls_address}

-- `symbols` is the dict that `symbol_addresses` makes of the output of `nm`; `disassembly` gives the
-- instructions of a symbol; `linker_script` is relative to the repository.
pub record ElfHost : Type 0 where
  pub symbols : List (String × ℕ)
  pub disassembly : String → List Instruction
  pub linker_script : String

-- `symbols.get(name)`
unfoldable pub address_of : String → List (String × ℕ) → Option ℕ
address_of name [] = none
address_of name ((k, n) ∷ symbols) =
    let rest = address_of name symbols in if name == k then some n else rest

abbrev pub hex_or_empty : Option ℕ → String
hex_or_empty none = ""
hex_or_empty (some n) = show_hex n

abbrev pub is_some {ℓ} : {A : Type ℓ} → Option A → Bool
is_some none = false
is_some (some a) = true

abbrev same_address : Option ℕ → ℕ → Bool
same_address none m = false
same_address (some n) m = n == m

abbrev pub region_start : String
region_start = "boot_memory_region"

abbrev pub region_end : String
region_end = "boot_memory_region_end"

-- `size if size is not None and size >= 0 else -1`
unfoldable pub region_size : Option ℕ → Option ℕ → ℤ
region_size (some first) (some last) = if leb first last then pos (last - first) else negsuc 0
region_size _ _ = negsuc 0

unfoldable pub start_aligned : Option ℕ → Bool
start_aligned none = false
start_aligned (some address) = address % memory_region_alignment == 0

unfoldable pub memory_evidence_region_record : List (String × ℕ) → Json
memory_evidence_region_record symbols =
    let first = address_of region_start symbols in
    let last = address_of region_end symbols in
    dict (
      ("start_symbol", str region_start)
      ∷ ("end_symbol", str region_end)
      ∷ ("start_address", str (hex_or_empty first))
      ∷ ("end_address", str (hex_or_empty last))
      ∷ ("size_bytes", int (region_size first last))
      ∷ ("required_alignment_bytes", int (pos memory_region_alignment))
      ∷ ("start_aligned", bool (start_aligned first))
      ∷ [])

-- `symbol_record`, and `runtime_progression_symbol_record` at its own names
unfoldable pub symbol_record : List (String × ℕ) → List String → Json
symbol_record symbols names = dict (
    map
      (λ name. (
        name,
        dict (
            ("present", bool (is_some (address_of name symbols)))
            ∷ ("address", str (hex_or_empty (address_of name symbols)))
            ∷ []),
      ))
      names)

abbrev items_of : {A : Type 0} → (A → Json) → List A → Items
items_of f [] = nil
items_of f (x ∷ xs) = cons (f x) (items_of f xs)

branch_record : ℕ × ℕ → Json
branch_record (address, target) = dict (
    ("instruction_address", str (show_hex address))
    ∷ ("target_address", str (show_hex target))
    ∷ [])

unfoldable pub controlled_runtime_loop_record : ElfHost → List (String × ℕ) → Json
unfolding branch_record
controlled_runtime_loop_record host symbols =
    let instructions = host.disassembly "controlled_runtime_loop" in
    let back_edges = backward_branch_records instructions in
    dict (
      ("symbols", symbol_record symbols controlled_runtime_loop_symbols)
      ∷ ("disassembly_available", bool (not (null instructions)))
      ∷ ("backward_branch_present", bool (not (null back_edges)))
      ∷ ("backward_branches", arr (items_of branch_record back_edges))
      ∷ (
        "terminal_comparison_present",
        bool (any (λ i. starts_with (codes "cmp") (codes i.mnemonic)) instructions),
      )
      ∷ [])

unfoldable pub first_capability_record : ElfHost → List (String × ℕ) → Json
first_capability_record host symbols = dict (
    ("symbols", symbol_record symbols first_capability_symbols)
    ∷ (
      "progression_call_present",
      bool (
          calls_address (host.disassembly "runtime_progression_entry")
            (address_of "execute_first_governed_capability" symbols)),
    )
    ∷ [])

-- `flags & mask` for a mask of one bit
abbrev pub has_flag : ℕ → ℕ → Bool
has_flag flags mask = not ((flags / mask) % 2 == 0)

unfoldable pub segment_flags : ℕ → String
segment_flags flags =
    (if has_flag flags 4 then "r" else "-")
    <> (if has_flag flags 2 then "w" else "-")
    <> (if has_flag flags 1 then "x" else "-")

unfoldable pub segment_record : ProgramHeader → Json
segment_record segment = dict (
    ("type", str "PT_LOAD")
    ∷ ("flags", str (segment_flags segment.flags))
    ∷ ("offset", str (show_hex segment.offset))
    ∷ ("virtual_address", str (show_hex segment.virtual_address))
    ∷ ("physical_address", str (show_hex segment.physical_address))
    ∷ ("file_size", str (show_hex segment.file_size))
    ∷ ("memory_size", str (show_hex segment.memory_size))
    ∷ ("alignment", str (show_hex segment.alignment))
    ∷ [])

-- The entries that both reports start with.
abbrev report_head : ElfHost → List (String × Json) → List (String × Json)
report_head host rest =
    ("version", int (pos 0))
    ∷ ("phase", str "v0.4.2")
    ∷ ("evidence_type", str "kernel-elf-loadability")
    ∷ ("generated_by", str "scripts/kernel_elf_report.py")
    ∷ ("kernel_elf", str "artifacts/runtime/boot_image/image-root/boot/kozo/kozo-kernel.elf")
    ∷ ("linker_script", str host.linker_script)
    ∷ rest

unfoldable pub malformed_report : ElfHost → String → Json
malformed_report host issue = dict (
    report_head host (
      ("architecture", str "")
      ∷ ("elf_class", str "")
      ∷ ("endianness", str "")
      ∷ ("elf_type", str "")
      ∷ ("entry_symbol", str "_start")
      ∷ ("entry_address", str "")
      ∷ ("entry_symbol_address", str "")
      ∷ ("entry_symbol_matches_entry", bool false)
      ∷ ("entry_is_lower_half", bool false)
      ∷ ("entry_address_class", str "zero")
      ∷ ("memory_evidence_region", memory_evidence_region_record [])
      ∷ ("runtime_progression_symbols", symbol_record [] runtime_progression_symbols)
      ∷ ("controlled_runtime_loop", controlled_runtime_loop_record host [])
      ∷ ("first_governed_runtime_capability", first_capability_record host [])
      ∷ ("program_header_count", int (pos 0))
      ∷ ("section_count", int (pos 0))
      ∷ ("load_segments", arr nil)
      ∷ ("virtual_base", str "")
      ∷ ("physical_load_base", str "")
      ∷ ("minimum_load_virtual_address", str "")
      ∷ ("minimum_load_physical_address", str "")
      ∷ ("has_lower_half_load_segment", bool false)
      ∷ ("all_load_segments_higher_half", bool false)
      ∷ ("load_layout_blocker", str "invalid_kernel_elf")
      ∷ ("detected_issues", arr (strings ("invalid_kernel_elf" ∷ [])))
      ∷ ("blocker_category", str "invalid_kernel_elf")
      ∷ ("proves", arr (strings ("kernel ELF loadability was inspected" ∷ [])))
      ∷ ("does_not_prove", arr (strings required_non_claims))
      ∷ ("detail", str issue)
      ∷ []))

-- The report on a file that was read.
unfoldable pub parsed_report : ElfHost → ElfHeader → List ProgramHeader → Json
parsed_report host header program_headers =
    let load_segments = filter (λ p. p.header_type == pt_load) program_headers in
    let symbol_address = address_of "_start" host.symbols in
    let layout = load_layout header load_segments in
    let issues = detected_issues header load_segments symbol_address layout in
    dict (
      report_head host (
        (
          "architecture",
          str (
              if header.machine == em_x86_64
              then "x86_64"
              else ("machine-" <> show_nat header.machine)),
        )
        ∷ ("elf_class", str "ELF64")
        ∷ ("endianness", str "little")
        ∷ (
          "elf_type",
          str (
              if header.elf_type == et_exec then "EXEC" else ("type-" <> show_nat header.elf_type)),
        )
        ∷ ("entry_symbol", str "_start")
        ∷ ("entry_address", str (show_hex header.entry))
        ∷ ("entry_symbol_address", str (hex_or_empty symbol_address))
        ∷ ("entry_symbol_matches_entry", bool (same_address symbol_address header.entry))
        ∷ ("entry_is_lower_half", bool layout.entry_is_lower_half)
        ∷ ("entry_address_class", str layout.entry_address_class)
        ∷ ("memory_evidence_region", memory_evidence_region_record host.symbols)
        ∷ ("runtime_progression_symbols", symbol_record host.symbols runtime_progression_symbols)
        ∷ ("controlled_runtime_loop", controlled_runtime_loop_record host host.symbols)
        ∷ ("first_governed_runtime_capability", first_capability_record host host.symbols)
        ∷ ("program_header_count", int (pos header.program_header_count))
        ∷ ("section_count", int (pos header.section_header_count))
        ∷ ("load_segments", arr (items_of segment_record load_segments))
        ∷ ("virtual_base", str (hex_or_empty layout.minimum_load_virtual_address))
        ∷ ("physical_load_base", str (hex_or_empty layout.minimum_load_physical_address))
        ∷ ("minimum_load_virtual_address", str (hex_or_empty layout.minimum_load_virtual_address))
        ∷ ("minimum_load_physical_address", str (hex_or_empty layout.minimum_load_physical_address))
        ∷ ("has_lower_half_load_segment", bool layout.has_lower_half_load_segment)
        ∷ ("all_load_segments_higher_half", bool layout.all_load_segments_higher_half)
        ∷ ("load_layout_blocker", str layout.blocker_category)
        ∷ ("detected_issues", arr (strings issues))
        ∷ ("blocker_category", str (blocker_category issues))
        ∷ ("proves", arr (strings (proves_for issues)))
        ∷ ("does_not_prove", arr (strings required_non_claims))
        ∷ []))

-- `build_report`; `none` is an exception of `struct`. A file that is not there has no bytes.
unfoldable pub build_report : ElfHost → List ℕ → Option Json
build_report host bytes = elim (parse_elf bytes) [
  | malformed issue ↦ some (malformed_report host issue)
  | parsed header program_headers ↦ some (parsed_report host header program_headers)
  | struct_error ↦ none
]
