-- ===== src/Elf/Report/Verdict.antt =====
-- What the blocker category of a report says of the file.
use kozo.Base.{
  ap, inr, ◌∙◌, sym, inl, ℕ, String, List, some, filter, ◌≡◌, ◌≢◌, ◌↔◌, refl, ◌==◌, nat_equality,
  eq_iff, arith,
}
use kozo.Json.{Json, str, obj, Fields}
use kozo.Json.Access.{lookup, dict, entries}
use kozo.Elf.Types.{ElfHeader, ProgramHeader, pt_load}
use kozo.Elf.Layout.{load_layout}
use kozo.Elf.Reader.{parse_elf, malformed, parsed}
use kozo.Elf.Reader.Total.{parse_elf-answers}
use kozo.Elf.Issues.{blocker_category, detected_issues}
use kozo.Elf.Issues.Verdict.{IsLoadable, blocker_category-IsLoadable}
use kozo.Elf.Report.{ElfHost, address_of, malformed_report, parsed_report, build_report}

-- The file is read, and its header and segments have no blocker.
pub HasNoBlocker : ElfHost → List ℕ → Type 0
HasNoBlocker host bytes =
    (header : ElfHeader) × (ps : List ProgramHeader) × (parse_elf bytes ≡ parsed header ps)
    × IsLoadable header (filter (λ p. p.header_type == pt_load) ps)
        (address_of "_start" host.symbols)

-- The category that a report names.
abbrev pub Names : Json → String → Type 0
Names report category =
    (fields : Fields) × (report ≡ obj fields)
    × (lookup "blocker_category" fields ≡ some (str category))

malformed_report-Names :
    (host : ElfHost) (issue : String) → Names (malformed_report host issue) "invalid_kernel_elf"
unfolding malformed_report dict entries lookup
malformed_report-Names host issue = (_, refl, refl)

parsed_report-Names :
    (host : ElfHost) (header : ElfHeader) (ps : List ProgramHeader)
    → let segments = filter (λ p. p.header_type == pt_load) ps in
      Names (parsed_report host header ps) (
        blocker_category (
          detected_issues header segments
            (address_of "_start" host.symbols)
            (load_layout header segments)))
unfolding parsed_report dict entries lookup
parsed_report-Names host header ps = (_, refl, refl)

not_none : ◌≢◌ {A = String} "invalid_kernel_elf" "none"
not_none h = ground (arith, eq_iff "invalid_kernel_elf" "none")

malformed_not_parsed :
    (issue : String) (header : ElfHeader) (ps : List ProgramHeader)
    → malformed issue ≢ parsed header ps
malformed_not_parsed issue header ps h = cc

IsLoadable-same :
    (host : ElfHost) (header header' : ElfHeader) (ps ps' : List ProgramHeader)
    → parsed header ps ≡ parsed header' ps'
    → IsLoadable header'
        (filter (λ p. p.header_type == pt_load) ps')
        (address_of "_start" host.symbols)
    → IsLoadable header
        (filter (λ p. p.header_type == pt_load) ps)
        (address_of "_start" host.symbols)
IsLoadable-same host header header' ps ps' e l =
    let h : header ≡ header' = cc in let p : ps ≡ ps' = cc in rw (h, p) l

category_same :
    (fields fields' : Fields) (c c' : String)
    → obj fields ≡ obj fields'
    → lookup "blocker_category" fields ≡ some (str c)
    → lookup "blocker_category" fields' ≡ some (str c')
    → c ≡ c'
category_same fields fields' c c' e l l' = cc

Names-iff :
    (report : Json) (category : String)
    → Names report category
    → (Names report "none") ↔ (category ≡ "none")
Names-iff report category (fields, e, l) = (
  λ (fields', e', l'). category_same fields fields' category "none" (sym e ∙ e') l l',
  λ h. (fields, e, l ∙ ap (λ c. some (str c)) h),
)

malformed_iff :
    (host : ElfHost) (bytes : List ℕ) (issue : String)
    → parse_elf bytes ≡ malformed issue
    → (Names (malformed_report host issue) "none") ↔ HasNoBlocker host bytes
unfolding HasNoBlocker
malformed_iff host bytes issue e = (
  λ n. absurd (not_none ((Names-iff _ _ (malformed_report-Names host issue)).0 n)),
  λ (header, ps, p, l). absurd (malformed_not_parsed issue header ps (sym e ∙ p)),
)

parsed_iff :
    (host : ElfHost) (bytes : List ℕ) (header : ElfHeader) (ps : List ProgramHeader)
    → parse_elf bytes ≡ parsed header ps
    → (Names (parsed_report host header ps) "none") ↔ HasNoBlocker host bytes
unfolding HasNoBlocker
parsed_iff host bytes header ps e =
    let segments = filter (λ p. p.header_type == pt_load) ps in
    let loadable = blocker_category-IsLoadable header segments (address_of "_start" host.symbols) in
    let named = Names-iff _ _ (parsed_report-Names host header ps) in
    (
      λ n. (header, ps, e, loadable.0 (named.0 n)),
      λ (header', ps', e', l).
          named.1 (loadable.1 (IsLoadable-same host header header' ps ps' (sym e ∙ e') l)),
    )

-- Every file has a report, and the report names the blocker category `none` exactly when the file is
-- read as an ELF file that is an executable for x86-64, with an entry that is not zero and is the
-- address of `_start`, and with load segments, each of them at the limit of the lower half or above
-- it, or at address zero.
pub build_report-HasNoBlocker :
    (host : ElfHost) (bytes : List ℕ)
    → (report : Json) × (build_report host bytes ≡ some report)
      × ((Names report "none") ↔ HasNoBlocker host bytes)
unfolding build_report
build_report-HasNoBlocker host bytes = elim (parse_elf-answers bytes) [
  | inl (issue, i, e) ↦
      (malformed_report host issue, rw (e, build_report) refl, malformed_iff host bytes issue e)
  | inr (header, ps, h, p, e) ↦
      (parsed_report host header ps, rw (e, build_report) refl, parsed_iff host bytes header ps e)
]
