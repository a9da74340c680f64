-- ===== src/Elf.antt =====
-- scripts/kernel_elf_report.py: the report on a kernel ELF file. The bytes of the file are a list of
-- numbers below 256; what `nm` and `objdump` say of it are parameters.
pub mod Types
pub mod Unpack
pub mod Reader
pub mod Layout
pub mod Issues
pub mod Branches
pub mod Report
