-- ===== src/Elf/Types.antt =====
-- The constants and records of scripts/kernel_elf_report.py.
use kozo.Base.{ℕ, String, Bool, Option, List, [], ◌∷◌}

abbrev pub pt_load : ℕ
pt_load = 1

abbrev pub em_x86_64 : ℕ
em_x86_64 = 62

abbrev pub et_exec : ℕ
et_exec = 2

-- "\x7fELF"
abbrev pub elf_magic : List ℕ
elf_magic = 0x7f ∷ b'E' ∷ b'L' ∷ b'F' ∷ []

abbrev pub lower_half_limit : ℕ
lower_half_limit = 0x0000800000000000

abbrev pub lower_half_phdr_blocker : String
lower_half_phdr_blocker = "limine_lower_half_phdr"

abbrev pub memory_region_alignment : ℕ
memory_region_alignment = 4096

pub record ElfHeader : Type 0 where
  pub elf_type : ℕ
  pub machine : ℕ
  pub entry : ℕ
  pub program_header_offset : ℕ
  pub section_header_offset : ℕ
  pub program_header_entry_size : ℕ
  pub program_header_count : ℕ
  pub section_header_count : ℕ

pub record ProgramHeader : Type 0 where
  pub header_type : ℕ
  pub flags : ℕ
  pub offset : ℕ
  pub virtual_address : ℕ
  pub physical_address : ℕ
  pub file_size : ℕ
  pub memory_size : ℕ
  pub alignment : ℕ

pub record LoadLayout : Type 0 where
  pub minimum_load_virtual_address : Option ℕ
  pub minimum_load_physical_address : Option ℕ
  pub has_lower_half_load_segment : Bool
  pub all_load_segments_higher_half : Bool
  pub entry_is_lower_half : Bool
  pub entry_address_class : String
  pub blocker_category : String
