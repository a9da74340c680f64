-- ===== src/Elf/Reader.antt =====
-- Reading an ELF file: `parse_elf` and its parts.
pub mod Total
pub mod Table
pub mod Header
pub mod Segments
use kozo.Base.{
  ℕ, zero, suc, ◌+◌, ◌*◌, String, Bool, true, false, not, ltb, leb, ◌==◌, nat_equality,
  if◌then◌else◌, Option, none, some, List, [], ◌∷◌, length, drop, take, get_elem?,
}
use kozo.Base.Text.{text_equality}
use kozo.Elf.Types.{ElfHeader, ProgramHeader, elf_magic}
use kozo.Elf.Unpack.{unpack}

-- `parse_elf` returns the issue, or the header with its program headers. `struct_error` is the
-- exception of a read beyond the end of the bytes.
pub data Parsed : Type 0 where
  malformed : String → Parsed
  parsed : ElfHeader → List ProgramHeader → Parsed
  struct_error : Parsed

abbrev pub value_at : List ℕ → ℕ → ℕ
value_at values i = elim (get_elem? values i) [ none ↦ 0 | some n ↦ n ]

-- "<16sHHIQQQIHHHHHH" and "<IIQQQQQQ"
abbrev pub elf_header_widths : List ℕ
elf_header_widths = 16 ∷ 2 ∷ 2 ∷ 4 ∷ 8 ∷ 8 ∷ 8 ∷ 4 ∷ 2 ∷ 2 ∷ 2 ∷ 2 ∷ 2 ∷ 2 ∷ []

abbrev pub program_header_widths : List ℕ
program_header_widths = 4 ∷ 4 ∷ 8 ∷ 8 ∷ 8 ∷ 8 ∷ 8 ∷ 8 ∷ []

-- the byte at an index that the length test has covered
abbrev pub byte_at : List ℕ → ℕ → ℕ
byte_at = value_at

unfoldable pub elf_header_issue : List ℕ → Option String
elf_header_issue bytes =
    if ltb (length bytes) 64
    then some "kernel ELF is missing or too small"
    else if not (take 4 bytes == elf_magic)
    then some "kernel file is not an ELF image"
    else if not (byte_at bytes 4 == 2)
    then some "kernel ELF is not ELF64"
    else if not (byte_at bytes 5 == 1)
    then some "kernel ELF is not little-endian"
    else none

unfoldable pub header_of : List ℕ → ElfHeader
header_of values = record {
  elf_type = value_at values 1;
  machine = value_at values 2;
  entry = value_at values 4;
  program_header_offset = value_at values 5;
  section_header_offset = value_at values 6;
  program_header_entry_size = value_at values 9;
  program_header_count = value_at values 10;
  section_header_count = value_at values 12;
}

-- `read_elf_header`; `none` is the `struct.error`
unfoldable pub read_elf_header : List ℕ → Option ElfHeader
read_elf_header bytes = elim (unpack elf_header_widths bytes) [
  | none ↦ none
  | some values ↦ some (header_of values)
]

unfoldable pub program_header_of : List ℕ → ProgramHeader
program_header_of values = record {
  header_type = value_at values 0;
  flags = value_at values 1;
  offset = value_at values 2;
  virtual_address = value_at values 3;
  physical_address = value_at values 4;
  file_size = value_at values 5;
  memory_size = value_at values 6;
  alignment = value_at values 7;
}

-- `read_program_header`
unfoldable pub read_program_header : List ℕ → ℕ → Option ProgramHeader
read_program_header bytes offset = elim (unpack program_header_widths (drop offset bytes)) [
  | none ↦ none
  | some values ↦ some (program_header_of values)
]

-- `_has_program_header`; an offset is never negative
unfoldable pub has_program_header : List ℕ → ℕ → Bool
has_program_header bytes offset = leb (offset + 56) (length bytes)

-- the comprehension over `range(count)`, from `index` on
unfoldable pub read_from : List ℕ → ElfHeader → ℕ → ℕ → Option (List ProgramHeader)
read_from bytes header zero index = some []
read_from bytes header (suc rounds) index =
    let offset = header.program_header_offset + index * header.program_header_entry_size in
    let rest = read_from bytes header rounds (index + 1) in
    if has_program_header bytes offset
    then elim (read_program_header bytes offset) [
      | none ↦ none
      | some p ↦ elim rest [ none ↦ none | some ps ↦ some (p ∷ ps) ]
    ]
    else rest

-- `read_program_headers`
unfoldable pub read_program_headers : List ℕ → ElfHeader → Option (List ProgramHeader)
unfolding read_from
read_program_headers bytes header = read_from bytes header header.program_header_count 0

abbrev pub parse_body : List ℕ → Option ElfHeader → Parsed
parse_body bytes none = struct_error
parse_body bytes (some header) = elim (read_program_headers bytes header) [
  | none ↦ struct_error
  | some program_headers ↦ parsed header program_headers
]

unfoldable pub parse_elf : List ℕ → Parsed
parse_elf bytes = elim (elf_header_issue bytes) [
  | some issue ↦ malformed issue
  | none ↦ parse_body bytes (read_elf_header bytes)
]
