-- ===== src/Elf/Reader/Total.antt =====
-- Every file is answered: no read runs beyond the end of its bytes.
use kozo.Base.{
  inr, Option-cases, ◌⊎◌, inl, ℕ, zero, suc, ◌+◌, ◌*◌, ◌≤◌, ◌≡◌, refl, String, true, List, [], ◌∷◌,
  none, some, length, drop, arith, Bool-cases, length-drop, nat_equality,
}
use kozo.Elf.Types.{ElfHeader, ProgramHeader}
use kozo.Elf.Unpack.{unpack-total}
use kozo.Elf.Reader.{
  parse_body, malformed, parsed, elf_header_issue, header_of, read_elf_header, program_header_of,
  read_program_header, has_program_header, read_from, read_program_headers, parse_elf,
  elf_header_widths, program_header_widths,
}

large_enough : (bytes : List ℕ) → elf_header_issue bytes ≡ none → 64 ≤ length bytes
unfolding elf_header_issue
large_enough bytes h = ground arith

read_elf_header-total :
    (bytes : List ℕ)
    → 64 ≤ length bytes
    → (header : ElfHeader) × (read_elf_header bytes ≡ some header)
unfolding read_elf_header
read_elf_header-total bytes h =
    let (ns, e, l) = unpack-total elf_header_widths bytes h in
    (header_of ns, rw (e, read_elf_header) refl)

read_program_header-total :
    (bytes : List ℕ) (offset : ℕ)
    → has_program_header bytes offset ≡ true
    → (p : ProgramHeader) × (read_program_header bytes offset ≡ some p)
unfolding read_program_header has_program_header
read_program_header-total bytes offset h =
    let fits = length-drop offset bytes (ground arith) in
    let (ns, e, l) = unpack-total program_header_widths (drop offset bytes) (ground arith) in
    (program_header_of ns, rw (e, read_program_header) refl)

read_from-total :
    (bytes : List ℕ) (header : ElfHeader) (rounds index : ℕ)
    → (ps : List ProgramHeader) × (read_from bytes header rounds index ≡ some ps)
unfolding read_from
read_from-total bytes header zero index = ([], refl)
read_from-total bytes header (suc rounds) index =
    let offset = header.program_header_offset + index * header.program_header_entry_size in
    let (rest, e) = read_from-total bytes header rounds (index + 1) in
    elim (Bool-cases (has_program_header bytes offset)) [
      | inl h ↦
          let (p, f) = read_program_header-total bytes offset h in
          (p ∷ rest, rw (h, read_from) (rw (f, read_from) (rw (e, read_from) refl)))
      | inr h ↦ (rest, rw (h, read_from) (rw (e, read_from) refl))
    ]

parse_elf-parsed :
    (bytes : List ℕ) (header : ElfHeader) (ps : List ProgramHeader)
    → elf_header_issue bytes ≡ none
    → read_elf_header bytes ≡ some header
    → read_program_headers bytes header ≡ some ps
    → parse_elf bytes ≡ parsed header ps
unfolding parse_elf
parse_elf-parsed bytes header ps i h p =
    rw (i, parse_elf) (rw (h, parse_elf) (rw (p, parse_body) refl))

-- `parse_elf` names the header's issue, or it reads the header and the program headers: no read
-- goes beyond the end of the bytes.
pub parse_elf-answers :
    (bytes : List ℕ)
    → ((issue : String) × (elf_header_issue bytes ≡ some issue)
        × (parse_elf bytes ≡ malformed issue))
      ⊎ ((header : ElfHeader) × (ps : List ProgramHeader) × (read_elf_header bytes ≡ some header)
          × (read_program_headers bytes header ≡ some ps)
          × (parse_elf bytes ≡ parsed header ps))
unfolding parse_elf read_program_headers
parse_elf-answers bytes = elim (Option-cases (elf_header_issue bytes)) [
  | inl none_found ↦
      let (header, h) = read_elf_header-total bytes (large_enough bytes none_found) in
      let (ps, p) = read_from-total bytes header header.program_header_count 0 in
      inr (header, ps, h, p, parse_elf-parsed bytes header ps none_found h p)
  | inr (issue, e) ↦ inl (issue, e, rw (e, parse_elf) refl)
]
