-- ===== src/Elf/Layout.antt =====
-- `load_layout` and the address classes.
pub mod Halves
use kozo.Base.{
  ℕ, String, Bool, true, false, not, ◌&&◌, any, null, ltb, ◌==◌, nat_equality, if◌then◌else◌,
  Option, none, some, List, [], ◌∷◌, map,
}
use kozo.Elf.Types.{ElfHeader, ProgramHeader, LoadLayout, lower_half_limit, lower_half_phdr_blocker}

unfoldable pub is_lower_half : ℕ → Bool
is_lower_half address = ltb 0 address && ltb address lower_half_limit

unfoldable pub address_class : ℕ → String
address_class address =
    if address == 0 then "zero" else if is_lower_half address then "lower-half" else "higher-half"

-- `min` of the addresses, `None` where there are none
unfoldable pub minimum : List ℕ → Option ℕ
minimum [] = none
minimum (n ∷ ns) = elim (minimum ns) [ none ↦ some n | some m ↦ some (if ltb m n then m else n) ]

unfoldable pub minimum_load_virtual_address : List ProgramHeader → Option ℕ
minimum_load_virtual_address segments = minimum (map (λ s. s.virtual_address) segments)

unfoldable pub minimum_load_physical_address : List ProgramHeader → Option ℕ
minimum_load_physical_address segments = minimum (map (λ s. s.physical_address) segments)

unfoldable pub has_lower_load : List ProgramHeader → Bool
has_lower_load segments = any (λ s. is_lower_half s.virtual_address) segments

unfoldable pub load_layout : ElfHeader → List ProgramHeader → LoadLayout
load_layout header segments = record {
  minimum_load_virtual_address = minimum_load_virtual_address segments;
  minimum_load_physical_address = minimum_load_physical_address segments;
  has_lower_half_load_segment = has_lower_load segments;
  all_load_segments_higher_half = not (null segments) && not (has_lower_load segments);
  entry_is_lower_half = is_lower_half header.entry;
  entry_address_class = address_class header.entry;
  blocker_category = if has_lower_load segments then lower_half_phdr_blocker else "none";
}
