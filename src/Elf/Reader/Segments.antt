-- ===== src/Elf/Reader/Segments.antt =====
-- Reading back a table of program headers that are laid out as an ELF64 file has them.
use kozo.Base.{
  ℕ, ◌≡◌, refl, sym, ap, ◌∙◌, List, [], ◌∷◌, ◌++◌, some, length, All, map, append_assoc, suc,
}
use kozo.Elf.Types.{ElfHeader, ProgramHeader}
use kozo.Elf.Unpack.{pack, Fits, write_le}
use kozo.Elf.Reader.{program_header_widths, program_header_of, read_program_headers}
use kozo.Elf.Reader.Header.{bytes_of, FitsField}
use kozo.Elf.Reader.Table.{table, read_program_headers-table}

-- The fields of a program header of an ELF64 file: the size of each in bytes, and its value.
abbrev pub program_fields : ProgramHeader → List (ℕ × ℕ)
program_fields p =
    (4, p.header_type)
    ∷ (4, p.flags)
    ∷ (8, p.offset)
    ∷ (8, p.virtual_address)
    ∷ (8, p.physical_address)
    ∷ (8, p.file_size)
    ∷ (8, p.memory_size)
    ∷ (8, p.alignment)
    ∷ []

-- The bytes of program headers, one behind the other, and what follows them.
abbrev pub bytes_of_table : List ProgramHeader → List ℕ → List ℕ
bytes_of_table [] rest = rest
bytes_of_table (p ∷ ps) rest = bytes_of (program_fields p) (bytes_of_table ps rest)

abbrev pub FitsTable : ProgramHeader → Type 0
FitsTable p = All FitsField (program_fields p)

abbrev values_of : ProgramHeader → List ℕ
values_of p = map (λ f. f.1) (program_fields p)

bytes_of-pack :
    (fields : List (ℕ × ℕ)) (rest : List ℕ)
    → bytes_of fields rest ≡ pack (map (λ f. f.0) fields) (map (λ f. f.1) fields) ++ rest
unfolding pack
bytes_of-pack [] rest = refl
bytes_of-pack ((size, value) ∷ fields) rest =
    ap (λ l. write_le size value ++ l) (bytes_of-pack fields rest)
    ∙ sym (
        append_assoc (write_le size value) (pack (map (λ f. f.0) fields) (map (λ f. f.1) fields))
          rest)

Fits-of_fields :
    (fields : List (ℕ × ℕ))
    → All FitsField fields
    → Fits (map (λ f. f.0) fields) (map (λ f. f.1) fields)
Fits-of_fields [] h = tt
Fits-of_fields ((size, value) ∷ fields) (fit, h) = (fit, Fits-of_fields fields h)

bytes_of_table-table :
    (ps : List ProgramHeader) (rest : List ℕ)
    → bytes_of_table ps rest ≡ table (map values_of ps) ++ rest
bytes_of_table-table [] rest = refl
bytes_of_table-table (p ∷ ps) rest =
    bytes_of-pack (program_fields p) (bytes_of_table ps rest)
    ∙ ap (λ l. pack program_header_widths (values_of p) ++ l) (bytes_of_table-table ps rest)
    ∙ sym (append_assoc (pack program_header_widths (values_of p)) (table (map values_of ps)) rest)

Fits-table :
    (ps : List ProgramHeader)
    → All FitsTable ps
    → All (Fits program_header_widths) (map values_of ps)
Fits-table [] h = tt
Fits-table (p ∷ ps) (fits, h) = (Fits-of_fields (program_fields p) fits, Fits-table ps h)

read_again : (ps : List ProgramHeader) → map program_header_of (map values_of ps) ≡ ps
unfolding program_header_of
read_again [] = refl
read_again (p ∷ ps) = ap (λ l. p ∷ l) (read_again ps)

length-values : (ps : List ProgramHeader) → length (map values_of ps) ≡ length ps
length-values [] = refl
length-values (p ∷ ps) = ap suc (length-values ps)

-- A table of program headers is read back from its bytes in an ELF64 file, which has the fields of
-- each entry in the order and with the sizes of the format, each value fitting its size. The header
-- gives the table's place, its length and the entries' size of 56 bytes, and anything may stand
-- before and after the table.
pub read_program_headers-bytes_of_table :
    (before rest : List ℕ) (header : ElfHeader) (ps : List ProgramHeader)
    → All FitsTable ps
    → header.program_header_offset ≡ length before
    → header.program_header_entry_size ≡ 56
    → header.program_header_count ≡ length ps
    → read_program_headers (before ++ bytes_of_table ps rest) header ≡ some ps
read_program_headers-bytes_of_table before rest header ps fits place size count =
    ap (λ l. read_program_headers (before ++ l) header) (bytes_of_table-table ps rest)
    ∙ read_program_headers-table before rest header (map values_of ps) (Fits-table ps fits) place
        size (count ∙ sym (length-values ps))
    ∙ ap some (read_again ps)
