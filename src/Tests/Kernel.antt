-- ===== src/Tests/Kernel.antt =====
-- A kernel file with one load segment in the higher half.
use kozo.Base.{
  ℕ, String, true, false, ◌≡◌, ◌↔◌, ◌⊎◌, refl, sym, arith, List, [], ◌∷◌, ◌++◌, some, All, length,
  null,
}
use kozo.Json.{Json}
use kozo.Elf.Types.{ElfHeader, ProgramHeader}
use kozo.Elf.Unpack.{pack, unpack, unpack-pack, length-pack, Fits}
use kozo.Elf.Reader.{
  malformed, parsed, elf_header_widths, program_header_widths, elf_header_issue, header_of,
  program_header_of, read_elf_header, read_program_headers, parse_elf,
}
use kozo.Elf.Reader.Total.{parse_elf-answers}
use kozo.Elf.Reader.Header.{Unread, elf64_fields, bytes_of, FitsField, read_elf_header-elf64_fields}
use kozo.Elf.Reader.Segments.{FitsTable, bytes_of_table, read_program_headers-bytes_of_table}
use kozo.Elf.Reader.Table.{table}
use kozo.Elf.Layout.{load_layout}
use kozo.Elf.Layout.Halves.{Outside, load_layout-Outside}
use kozo.Elf.Issues.{blocker_category, detected_issues}
use kozo.Elf.Issues.Verdict.{IsLoadable, blocker_category-IsLoadable}
use kozo.Elf.Report.{ElfHost, build_report}
use kozo.Elf.Report.Verdict.{Names, HasNoBlocker, build_report-HasNoBlocker}

abbrev header_values : List ℕ
header_values =
    0x010102464c457f ∷ 2 ∷ 62 ∷ 1 ∷ 0xffffffff80000000 ∷ 64 ∷ 0 ∷ 0 ∷ 64 ∷ 56 ∷ 1 ∷ 64 ∷ 0 ∷ 0 ∷ []

abbrev segment_values : List ℕ
segment_values = 1 ∷ 5 ∷ 4096 ∷ 0xffffffff80000000 ∷ 0x100000 ∷ 512 ∷ 512 ∷ 4096 ∷ []

abbrev header : ElfHeader
header = header_of header_values

abbrev segments : List ProgramHeader
segments = program_header_of segment_values ∷ []

abbrev bytes : List ℕ
bytes = pack elf_header_widths header_values ++ (table (segment_values ∷ []) ++ [])

abbrev host : ElfHost
host = record {
  symbols = ("_start", 0xffffffff80000000) ∷ [];
  disassembly = λ symbol. [];
  linker_script = "linker/kernel.ld";
}

header-Fits : Fits elf_header_widths header_values
header-Fits = ground arith

segment-Fits : Fits program_header_widths segment_values
segment-Fits = ground arith

place : header.program_header_offset ≡ length (pack elf_header_widths header_values)
unfolding header_of
place = sym (length-pack elf_header_widths header_values header-Fits)

unpack-pack_example :
    unpack (1 ∷ 2 ∷ []) (pack (1 ∷ 2 ∷ []) (7 ∷ 300 ∷ []) ++ (9 ∷ [])) ≡ some (7 ∷ 300 ∷ [])
unpack-pack_example =
    unpack-pack (1 ∷ 2 ∷ []) (7 ∷ 300 ∷ []) (9 ∷ []) (omega arith, (omega arith, tt))

abbrev identification : List ℕ
identification = 0x7f ∷ 0x45 ∷ 0x4c ∷ 0x46 ∷ 2 ∷ 1 ∷ 1 ∷ 0 ∷ 0 ∷ 0 ∷ 0 ∷ 0 ∷ 0 ∷ 0 ∷ 0 ∷ 0 ∷ []

abbrev kernel_header : ElfHeader
kernel_header = record {
  elf_type = 2;
  machine = 62;
  entry = 0xffffffff80000000;
  program_header_offset = 64;
  section_header_offset = 8192;
  program_header_entry_size = 56;
  program_header_count = 1;
  section_header_count = 7;
}

abbrev unread : Unread
unread = record {
  version = 1;
  flags = 0;
  header_size = 64;
  section_header_entry_size = 64;
  section_name_index = 6;
}

kernel_header-FitsField : All FitsField (elf64_fields kernel_header unread)
kernel_header-FitsField = ground arith

read_elf_header-elf64_fields_example :
    read_elf_header (identification ++ bytes_of (elf64_fields kernel_header unread) (9 ∷ []))
    ≡ some kernel_header
read_elf_header-elf64_fields_example =
    read_elf_header-elf64_fields identification kernel_header unread (9 ∷ []) refl
      kernel_header-FitsField

kernel_segment-FitsTable : All FitsTable segments
unfolding program_header_of
kernel_segment-FitsTable = ground arith

read_program_headers-bytes_of_table_example :
    read_program_headers (pack elf_header_widths header_values ++ bytes_of_table segments []) header
    ≡ some segments
unfolding header_of
read_program_headers-bytes_of_table_example =
    read_program_headers-bytes_of_table (pack elf_header_widths header_values) [] header segments
      kernel_segment-FitsTable place refl refl

parse_elf-answers_example :
    ((issue : String) × (elf_header_issue bytes ≡ some issue) × (parse_elf bytes ≡ malformed issue))
    ⊎ ((h : ElfHeader) × (ps : List ProgramHeader) × (read_elf_header bytes ≡ some h)
        × (read_program_headers bytes h ≡ some ps)
        × (parse_elf bytes ≡ parsed h ps))
parse_elf-answers_example = parse_elf-answers bytes

blocker_category-IsLoadable_example :
    (blocker_category
        (detected_issues header segments (some 0xffffffff80000000) (load_layout header segments))
      ≡ "none")
    ↔ IsLoadable header segments (some 0xffffffff80000000)
blocker_category-IsLoadable_example =
    blocker_category-IsLoadable header segments (some 0xffffffff80000000)

load_layout-Outside_example :
    ((load_layout header segments).all_load_segments_higher_half ≡ true)
    ↔ ((null segments ≡ false) × All Outside segments)
load_layout-Outside_example = load_layout-Outside header segments

build_report-HasNoBlocker_example :
    (report : Json) × (build_report host bytes ≡ some report)
    × ((Names report "none") ↔ HasNoBlocker host bytes)
build_report-HasNoBlocker_example = build_report-HasNoBlocker host bytes
