-- ===== src/Elf/Reader/Table.antt =====
-- Reading back a table of program headers that were packed.
use kozo.Base.{
  ℕ, ◌+◌, ◌*◌, ◌≤◌, ◌≡◌, refl, sym, ap, ◌∙◌, List, [], ◌∷◌, ◌++◌, some, All, length, drop, map,
  arith, drop-append, drop-drop, length-drop, length-append, append_assoc, true,
}
use kozo.Elf.Types.{ElfHeader}
use kozo.Elf.Unpack.{pack, unpack-pack, length-pack, Fits}
use kozo.Elf.Reader.{
  program_header_widths, program_header_of, read_program_header, read_program_headers, read_from,
  has_program_header,
}

abbrev pub table : List (List ℕ) → List ℕ
table [] = []
table (values ∷ entries) = pack program_header_widths values ++ table entries

-- One entry of a table, whose place starts with its bytes.
read_entry :
    (bytes values rest : List ℕ) (offset : ℕ)
    → Fits program_header_widths values
    → drop offset bytes ≡ pack program_header_widths values ++ rest
    → read_program_header bytes offset ≡ some (program_header_of values)
unfolding read_program_header
read_entry bytes values rest offset f e =
    rw (e, read_program_header)
      (rw (unpack-pack program_header_widths values rest f, read_program_header) refl)

entry_there :
    (bytes values rest : List ℕ) (offset : ℕ)
    → offset ≤ length bytes
    → Fits program_header_widths values
    → drop offset bytes ≡ pack program_header_widths values ++ rest
    → (has_program_header bytes offset ≡ true)
      × (offset + 56 ≤ length bytes)
      × (drop (offset + 56) bytes ≡ rest)
unfolding has_program_header
entry_there bytes values rest offset o f e =
    let packed = pack program_header_widths values in
    let size = length-pack program_header_widths values f in
    let whole = length-drop offset bytes o ∙ ap (λ l. offset + length l) e in
    let fits : offset + 56 ≤ length bytes = omega (arith, size, whole, length-append packed rest) in
    let next : drop (offset + 56) bytes ≡ rest =
      sym (drop-drop offset 56 bytes)
      ∙ ap (drop 56) e
      ∙ ap (λ n. drop n (packed ++ rest)) (sym size)
      ∙ drop-append packed rest in
    (ground arith, fits, next)

-- The rest of the table, from an index on.
read_table :
    (bytes rest : List ℕ) (header : ElfHeader) (entries : List (List ℕ)) (index : ℕ)
    → header.program_header_entry_size ≡ 56
    → All (Fits program_header_widths) entries
    → header.program_header_offset + index * 56 ≤ length bytes
    → drop (header.program_header_offset + index * 56) bytes ≡ table entries ++ rest
    → read_from bytes header (length entries) index ≡ some (map program_header_of entries)
unfolding read_from
read_table bytes rest header [] index size fits o e = refl
read_table bytes rest header (values ∷ entries) index size fits o e =
    let offset = header.program_header_offset + index * 56 in
    let placed = e ∙ append_assoc (pack program_header_widths values) (table entries) rest in
    let (there, o', next) =
      entry_there bytes values (table entries ++ rest) offset o fits.0 placed in
    let step : offset + 56 ≡ header.program_header_offset + (index + 1) * 56 = omega arith in
    let ih =
      read_table bytes rest header entries (index + 1) size fits.1 (rw (← step) o')
        (rw (← step) next) in
    let entry = read_entry bytes values (table entries ++ rest) offset fits.0 placed in
    rw (size, read_from) (rw (there, read_from) (rw (entry, read_from) (rw (ih, read_from) refl)))

-- A table of program headers is read back entry by entry: the header gives its place, its length
-- and the entries' size of 56 bytes, and anything may stand before and after it.
pub read_program_headers-table :
    (before rest : List ℕ) (header : ElfHeader) (entries : List (List ℕ))
    → All (Fits program_header_widths) entries
    → header.program_header_offset ≡ length before
    → header.program_header_entry_size ≡ 56
    → header.program_header_count ≡ length entries
    → read_program_headers (before ++ (table entries ++ rest)) header
      ≡ some (map program_header_of entries)
unfolding read_program_headers
read_program_headers-table before rest header entries fits place size count =
    let bytes = before ++ (table entries ++ rest) in
    let offset : header.program_header_offset + 0 * 56 ≡ length before = omega (arith, place) in
    let o : header.program_header_offset + 0 * 56 ≤ length bytes =
      omega (arith, offset, length-append before (table entries ++ rest)) in
    rw (count, read_program_headers)
      (read_table bytes rest header entries 0 size fits o
        (ap (λ n. drop n bytes) offset ∙ drop-append before (table entries ++ rest)))
