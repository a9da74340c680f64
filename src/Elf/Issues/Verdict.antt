-- ===== src/Elf/Issues/Verdict.antt =====
-- What the issues and the blocker category of an ELF file say of it.
use kozo.Base.{
  ◌∙◌, ap, ℕ, String, Bool, true, false, not, null, ◌&&◌, ◌||◌, contains, ◌==◌, nat_equality,
  string_equality, eq_iff, Option, none, some, List, [], ◌∷◌, ◌++◌, ◌≡◌, ◌≢◌, ◌↔◌, refl, arith, All,
}
use kozo.Elf.Types.{ElfHeader, ProgramHeader, et_exec, em_x86_64}
use kozo.Elf.Layout.{load_layout, has_lower_load}
use kozo.Elf.Layout.Halves.{Outside, has_lower_load_iff}
use kozo.Base.Order.{sorted_set, contains-sorted_set}
use kozo.Elf.Issues.{
  lower_half_phdr_blocker, issue_if, detected_issues, misses_entry, blocker_category,
}

contains-append :
    (xs ys : List String) (a : String) → contains (xs ++ ys) a ≡ (contains xs a || contains ys a)
contains-append [] ys a = refl
contains-append (x ∷ xs) ys a = ground (arith, contains-append xs ys a)

contains-issue_if : (b : Bool) (s a : String) → contains (issue_if b s) a ≡ (b && a == s)
contains-issue_if true s a = ground arith
contains-issue_if false s a = refl

-- What an ELF file must be for the report to name no blocker. The lower half starts above the address
-- zero here, as the program has it.
abbrev pub IsLoadable : ElfHeader → List ProgramHeader → Option ℕ → Type 0
IsLoadable header segments symbol_address =
    (header.elf_type ≡ et_exec)
    × (header.machine ≡ em_x86_64)
    × (header.entry ≢ 0)
    × (null segments ≡ false)
    × (symbol_address ≡ some header.entry)
    × All Outside segments

misses_entry_iff :
    (o : Option ℕ) (header : ElfHeader) → (misses_entry o header ≡ false) ↔ (o ≡ some header.entry)
unfolding misses_entry
misses_entry_iff none header = (λ h. cc, λ h. cc)
misses_entry_iff (some n) header = (λ h. ap some (ground arith), λ h. ground arith)

blocker-none :
    (issues : List String)
    → (blocker_category issues ≡ "none") ↔ (
        (contains issues "linker_output_invalid" ≡ false)
        × (contains issues "wrong_architecture" ≡ false)
        × (contains issues "invalid_kernel_entry" ≡ false)
        × (contains issues "missing_load_segments" ≡ false)
        × (contains issues "limine_lower_half_phdr" ≡ false))
unfolding blocker_category
blocker-none issues = ground (
  arith,
  eq_iff "limine_lower_half_phdr" "none",
  eq_iff "missing_load_segments" "none",
  eq_iff "invalid_kernel_entry" "none",
  eq_iff "invalid_kernel_elf" "none",
  eq_iff "linker_output_invalid" "none",
)

-- The issues by the six tests.
abbrev issues_of : Bool → Bool → Bool → Bool → Bool → Bool → List String
issues_of b1 b2 b3 b4 b5 b6 = sorted_set (
    issue_if b1 "linker_output_invalid"
    ++ issue_if b2 "wrong_architecture"
    ++ issue_if b3 "invalid_kernel_entry"
    ++ issue_if b4 "missing_load_segments"
    ++ issue_if b5 "invalid_kernel_entry"
    ++ issue_if b6 lower_half_phdr_blocker)

contains-issues_of :
    (b1 b2 b3 b4 b5 b6 : Bool) (a : String)
    → contains (issues_of b1 b2 b3 b4 b5 b6) a ≡ (
        (b1 && a == "linker_output_invalid")
        || (b2 && a == "wrong_architecture")
        || (b3 && a == "invalid_kernel_entry")
        || (b4 && a == "missing_load_segments")
        || (b5 && a == "invalid_kernel_entry")
        || (b6 && a == lower_half_phdr_blocker))
contains-issues_of b1 b2 b3 b4 b5 b6 a = ground (
  arith,
  contains-sorted_set
      (issue_if b1 "linker_output_invalid"
        ++ issue_if b2 "wrong_architecture"
        ++ issue_if b3 "invalid_kernel_entry"
        ++ issue_if b4 "missing_load_segments"
        ++ issue_if b5 "invalid_kernel_entry"
        ++ issue_if b6 lower_half_phdr_blocker)
      a,
  contains-append (issue_if b1 "linker_output_invalid")
      (issue_if b2 "wrong_architecture"
        ++ issue_if b3 "invalid_kernel_entry"
        ++ issue_if b4 "missing_load_segments"
        ++ issue_if b5 "invalid_kernel_entry"
        ++ issue_if b6 lower_half_phdr_blocker)
      a,
)

five :
    (b1 b2 b3 b4 b5 b6 : Bool)
    → ((b1 && true || b2 && false || b3 && false || b4 && false || b5 && false || b6 && false) ≡ b1)
      × ((b1 && false || b2 && true || b3 && false || b4 && false || b5 && false || b6 && false)
          ≡ b2)
      × ((b1 && false || b2 && false || b3 && true || b4 && false || b5 && true || b6 && false)
          ≡ (b3 || b5))
      × ((b1 && false || b2 && false || b3 && false || b4 && true || b5 && false || b6 && false)
          ≡ b4)
      × ((b1 && false || b2 && false || b3 && false || b4 && false || b5 && false || b6 && true)
          ≡ b6)
five b1 b2 b3 b4 b5 b6 = ground arith

no_blocker_of :
    (issues : List String) (b1 b2 b3 b4 b5 b6 : Bool)
    → contains issues "linker_output_invalid" ≡ b1
    → contains issues "wrong_architecture" ≡ b2
    → contains issues "invalid_kernel_entry" ≡ (b3 || b5)
    → contains issues "missing_load_segments" ≡ b4
    → contains issues "limine_lower_half_phdr" ≡ b6
    → (blocker_category issues ≡ "none")
      ↔ ((b1 ≡ false) × (b2 ≡ false) × (b3 ≡ false) × (b4 ≡ false) × (b5 ≡ false) × (b6 ≡ false))
no_blocker_of issues b1 b2 b3 b4 b5 b6 e1 e2 e3 e4 e6 = ground (arith, blocker-none issues)

no_blocker :
    (b1 b2 b3 b4 b5 b6 : Bool)
    → (blocker_category (issues_of b1 b2 b3 b4 b5 b6) ≡ "none")
      ↔ ((b1 ≡ false) × (b2 ≡ false) × (b3 ≡ false) × (b4 ≡ false) × (b5 ≡ false) × (b6 ≡ false))
no_blocker b1 b2 b3 b4 b5 b6 =
    let issues = issues_of b1 b2 b3 b4 b5 b6 in
    let has = contains-issues_of b1 b2 b3 b4 b5 b6 in
    let (e1, e2, e3, e4, e6) = five b1 b2 b3 b4 b5 b6 in
    no_blocker_of issues b1 b2 b3 b4 b5 b6 (has "linker_output_invalid" ∙ e1)
      (has "wrong_architecture" ∙ e2) (has "invalid_kernel_entry" ∙ e3)
      (has "missing_load_segments" ∙ e4) (has "limine_lower_half_phdr" ∙ e6)

-- The blocker category of the detected issues is `none` exactly when the file is an executable for
-- x86-64 with an entry that is not zero and is the address of `_start`, and has load segments, each
-- of them at the limit of the lower half or above it, or at address zero.
pub blocker_category-IsLoadable :
    (header : ElfHeader) (segments : List ProgramHeader) (symbol_address : Option ℕ)
    → (blocker_category
          (detected_issues header segments symbol_address (load_layout header segments))
        ≡ "none")
      ↔ IsLoadable header segments symbol_address
unfolding detected_issues load_layout
blocker_category-IsLoadable header segments symbol_address = ground (
  arith,
  no_blocker (not (header.elf_type == et_exec)) (not (header.machine == em_x86_64))
      (header.entry == 0) (null segments) (misses_entry symbol_address header)
      (has_lower_load segments),
  misses_entry_iff symbol_address header,
  has_lower_load_iff segments,
)
