-- ===== src/Elf/Layout/Halves.antt =====
-- What the layout says of the segments.
use kozo.Base.{true, false, null, nat_equality, All, List, [], ◌∷◌, ◌≡◌, refl, ◌↔◌, ◌⊎◌, ◌≤◌, arith}
use kozo.Elf.Types.{ElfHeader, ProgramHeader, lower_half_limit}
use kozo.Elf.Layout.{is_lower_half, has_lower_load, load_layout}

-- An address that the program does not count as lower-half: zero, or one from the limit on.
abbrev pub Outside : ProgramHeader → Type 0
Outside segment = (segment.virtual_address ≡ 0) ⊎ (lower_half_limit ≤ segment.virtual_address)

Outside-iff : (p : ProgramHeader) → (is_lower_half p.virtual_address ≡ false) ↔ Outside p
unfolding is_lower_half
Outside-iff p = ground arith

pub has_lower_load_iff :
    (segments : List ProgramHeader) → (has_lower_load segments ≡ false) ↔ All Outside segments
unfolding has_lower_load
has_lower_load_iff [] = (λ _. tt, λ _. refl)
has_lower_load_iff (p ∷ segments) = ground (arith, Outside-iff p, has_lower_load_iff segments)

-- The layout calls all load segments higher-half exactly when there is a segment and every segment
-- is at the limit or above it, or at address zero.
pub load_layout-Outside :
    (header : ElfHeader) (segments : List ProgramHeader)
    → ((load_layout header segments).all_load_segments_higher_half ≡ true)
      ↔ ((null segments ≡ false) × All Outside segments)
unfolding load_layout
load_layout-Outside header segments = ground (arith, has_lower_load_iff segments)
