-- ===== src/Elf/Reader/Header.antt =====
-- Reading back a header that is laid out as an ELF64 file has it.
use kozo.Base.{ℕ, ◌+◌, ◌*◌, ◌^◌, ◌<◌, ◌≡◌, refl, List, [], ◌∷◌, ◌++◌, some, length, All, map}
use kozo.Elf.Types.{ElfHeader}
use kozo.Elf.Unpack.{read_le, read_le-write_le, unpack, write_le}
use kozo.Elf.Reader.{header_of, read_elf_header}

-- The fields of an ELF64 header that the report has no use for.
pub record Unread : Type 0 where
  pub version : ℕ
  pub flags : ℕ
  pub header_size : ℕ
  pub section_header_entry_size : ℕ
  pub section_name_index : ℕ

-- The fields of an ELF64 header behind its 16 bytes of identification: the size of each in bytes,
-- and its value.
abbrev pub elf64_fields : ElfHeader → Unread → List (ℕ × ℕ)
elf64_fields h u =
    (2, h.elf_type)
    ∷ (2, h.machine)
    ∷ (4, u.version)
    ∷ (8, h.entry)
    ∷ (8, h.program_header_offset)
    ∷ (8, h.section_header_offset)
    ∷ (4, u.flags)
    ∷ (2, u.header_size)
    ∷ (2, h.program_header_entry_size)
    ∷ (2, h.program_header_count)
    ∷ (2, u.section_header_entry_size)
    ∷ (2, h.section_header_count)
    ∷ (2, u.section_name_index)
    ∷ []

-- The bytes of fields, one behind the other and each with its least significant byte first, and what
-- follows them.
abbrev pub bytes_of : List (ℕ × ℕ) → List ℕ → List ℕ
bytes_of [] rest = rest
bytes_of ((size, value) ∷ fields) rest = write_le size value ++ bytes_of fields rest

-- The value of a field needs no more bytes than the field has.
abbrev pub FitsField : ℕ × ℕ → Type 0
FitsField (size, value) = value < 256 ^ size

-- The value of bytes, the least significant one first.
abbrev value_of : List ℕ → ℕ
value_of [] = 0
value_of (b ∷ bytes) = b + 256 * value_of bytes

read_le-append :
    (bytes rest : List ℕ) → read_le (length bytes) (bytes ++ rest) ≡ some (value_of bytes, rest)
unfolding read_le
read_le-append [] rest = refl
read_le-append (b ∷ bytes) rest = rw (read_le-append bytes rest, read_le) refl

unpack-bytes_of :
    (fields : List (ℕ × ℕ)) (rest : List ℕ)
    → All FitsField fields
    → unpack (map (λ f. f.0) fields) (bytes_of fields rest) ≡ some (map (λ f. f.1) fields)
unfolding unpack
unpack-bytes_of [] rest fits = refl
unpack-bytes_of ((size, value) ∷ fields) rest (fit, fits) =
    rw (read_le-write_le size value (bytes_of fields rest) fit, unpack)
      (rw (unpack-bytes_of fields rest fits, unpack) refl)

-- The same behind bytes that are read as one number.
unpack-behind :
    (ident : List ℕ) (fields : List (ℕ × ℕ)) (rest : List ℕ)
    → All FitsField fields
    → unpack (length ident ∷ map (λ f. f.0) fields) (ident ++ bytes_of fields rest)
      ≡ some (value_of ident ∷ map (λ f. f.1) fields)
unfolding unpack
unpack-behind ident fields rest fits =
    rw (read_le-append ident (bytes_of fields rest), unpack)
      (rw (unpack-bytes_of fields rest fits, unpack) refl)

-- A header is read back from the bytes that an ELF64 file has for it: 16 bytes of identification
-- and then its fields in the order and with the sizes of the format, each fitting its size, whatever
-- follows.
pub read_elf_header-elf64_fields :
    (ident : List ℕ) (h : ElfHeader) (u : Unread) (rest : List ℕ)
    → length ident ≡ 16
    → All FitsField (elf64_fields h u)
    → read_elf_header (ident ++ bytes_of (elf64_fields h u) rest) ≡ some h
unfolding read_elf_header header_of
read_elf_header-elf64_fields ident h u rest size fits =
    let e = rw size at (unpack-behind ident (elf64_fields h u) rest fits) in
    rw (e, read_elf_header) refl
