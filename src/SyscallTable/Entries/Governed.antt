-- ===== src/SyscallTable/Entries/Governed.antt =====
-- What an entry has whose checks find nothing: its case in the switch, and what stands in it.
use Prim.Native.String.{◌++◌ as ◌<>◌}
use kozo.Base.{
  ℕ, ◌≡◌, refl, String, Bool, true, false, null, contains, nat_equality, string_equality,
  nat_beq_iff, eq_iff, List, [], ◌∷◌, Option, none, some, All, arith,
}
use kozo.Base.Text.{Text, codes}
use kozo.Execution.{extract_odin_case_block}
use kozo.Issue.{issue_unless}
use kozo.Issue.Laws.{issue_unless-none, first_issue-none}
use kozo.Source.{occurs}
use kozo.SyscallTable.{
  Syscall, payload, no_payload, PayloadSyscall, NoPayloadSyscall, TableContext, DispatcherBlocks,
}
use kozo.SyscallTable.Entries.{
  no_payload_checks, payload_checks, case_label, is_there, text_of, prohibited_issue,
  status_constant_issue, syscall_constant_issue, payload_layout_issue, boundary_mapping_issue,
  branch_selector_consistency_issue, branch_selector_presence_issue, branch_mapping_issue,
  unique_branch_selector_issue, no_payload_argument_issue, no_payload_mutates_payload_issue,
  no_payload_prohibited_field_issue, no_payload_shape_issue, no_payload_return_issue,
  no_payload_heartbeat_layout_issue, no_payload_mutation_issue, no_payload_branch_issue,
  payload_syscall_issue, no_payload_syscall_issue, single_syscall_issue,
}
use kozo.SyscallTable.Scan.{count}

pub holds :
    (b : Bool) (reason key detail : String) → issue_unless b reason key detail ≡ none → b ≡ true
holds b reason key detail h = (issue_unless-none b reason key detail).0 h

-- The selector is the constant's, and the switch has it as one case, whose block has the property.
abbrev pub HasCase : Text → String → String → (Text → Type 0) → Type 0
HasCase switch_body constant branch_selector P =
    (branch_selector ≡ "abi." <> constant)
    × (count (codes (case_label branch_selector)) switch_body ≡ 1)
    × ((branch : Text) × (extract_odin_case_block switch_body (case_label branch_selector)
          ≡ some branch)
        × P branch)

pub All-map :
    {A : Type 0} (P Q : A → Type 0) (xs : List A) → ((a : A) → P a → Q a) → All P xs → All Q xs
All-map P Q [] f h = tt
All-map P Q (x ∷ xs) f (p, h) = (f x p, All-map P Q xs f h)

null_empty : (xs : List String) → null xs ≡ true → xs ≡ []
null_empty [] h = refl
null_empty (x ∷ xs) h = cc

prohibited_none :
    (name : String) (fields : List String) → prohibited_issue name fields ≡ none → fields ≡ []
prohibited_none name [] h = refl
prohibited_none name (field ∷ fields) h = cc

with_branch :
    (found : Option Text) (P : Text → Type 0)
    → is_there found ≡ true
    → P (text_of found)
    → (branch : Text) × (found ≡ some branch) × P branch
with_branch none P h p = cc
with_branch (some branch) P h p = (branch, refl, p)

module _ (is_word : ℕ → Bool) where
  -- The block of a system call without a payload: it returns the status and names no payload.
  abbrev pub IsBare : NoPayloadSyscall → Text → Type 0
  IsBare syscall branch =
      (occurs (codes ("return abi." <> syscall.return_status)) branch ≡ true)
      × (occurs (codes "payload") branch ≡ false)
      × (occurs (codes "0xCAFE") branch ≡ false)
      × (occurs (codes "Heartbeat_Payload") branch ≡ false)

  abbrev pub IsGoverned : TableContext → Text → Syscall → Type 0
  IsGoverned context switch_body (payload syscall) =
      (contains context.manifest_syscalls syscall.constant ≡ true)
      × (syscall.constant ≡ context.boundary_constant)
      × HasCase switch_body syscall.constant syscall.branch_selector (λ branch.
        (occurs (codes "payload.sequence != 0xCAFEFEED") branch ≡ true)
        × (occurs (codes "payload.status_bits = u32(abi.K_OK)") branch ≡ true))
  IsGoverned context switch_body (no_payload syscall) =
      (contains context.manifest_syscalls syscall.constant ≡ true)
      × (contains context.manifest_status syscall.return_status ≡ true)
      × (syscall.payload_argument ≡ "null")
      × (syscall.mutates_payload ≡ [])
      × (syscall.prohibited_fields ≡ [])
      × HasCase switch_body syscall.constant syscall.branch_selector (IsBare syscall)

  payload-IsGoverned :
      (context : TableContext) (blocks : DispatcherBlocks) (syscall : PayloadSyscall)
      → single_syscall_issue is_word context blocks (payload syscall) ≡ none
      → IsGoverned context blocks.switch_body (payload syscall)
  unfolding single_syscall_issue payload_syscall_issue syscall_constant_issue payload_layout_issue
      boundary_mapping_issue branch_selector_consistency_issue branch_selector_presence_issue
      branch_mapping_issue unique_branch_selector_issue
  payload-IsGoverned context blocks syscall h =
      let found = extract_odin_case_block blocks.switch_body (case_label syscall.branch_selector) in
      let (constant, (layout, (mapped, (selector, (there, (branch, (once, _))))))) =
        (first_issue-none (payload_checks is_word context blocks syscall found)).0 h in
      let mapping = holds _ _ _ _ mapped in
      let mapping_branch = holds _ _ _ _ branch in
      let same : syscall.constant ≡ context.boundary_constant =
        ground (arith, mapping, eq_iff syscall.constant context.boundary_constant) in
      (
        holds _ _ _ _ constant,
        same,
        (
          (eq_iff _ _).0 (holds _ _ _ _ selector),
          (nat_beq_iff _ _).0 (holds _ _ _ _ once),
          with_branch found _ (holds _ _ _ _ there) (ground (arith, mapping_branch)),
        ),
      )

  no_payload-IsGoverned :
      (context : TableContext) (blocks : DispatcherBlocks) (syscall : NoPayloadSyscall)
      → single_syscall_issue is_word context blocks (no_payload syscall) ≡ none
      → IsGoverned context blocks.switch_body (no_payload syscall)
  unfolding single_syscall_issue no_payload_syscall_issue syscall_constant_issue
      no_payload_shape_issue status_constant_issue branch_selector_consistency_issue
      branch_selector_presence_issue no_payload_branch_issue unique_branch_selector_issue
      no_payload_argument_issue no_payload_mutates_payload_issue no_payload_prohibited_field_issue
      no_payload_return_issue no_payload_mutation_issue no_payload_heartbeat_layout_issue
  no_payload-IsGoverned context blocks syscall h =
      let found = extract_odin_case_block blocks.switch_body (case_label syscall.branch_selector) in
      let (constant, (shape, (status, (selector, (there, (branch, (once, _))))))) =
        (first_issue-none (no_payload_checks is_word context blocks syscall found)).0 h in
      let (argument, (mutations, (fields, _))) =
        (first_issue-none (
            no_payload_argument_issue syscall
            ∷ no_payload_mutates_payload_issue syscall
            ∷ no_payload_prohibited_field_issue syscall
            ∷ [])).0
          shape in
      let body = text_of found in
      let (returns, (unchanged, (layout, _))) =
        (first_issue-none (
            no_payload_return_issue body syscall
            ∷ no_payload_mutation_issue is_word body syscall
            ∷ no_payload_heartbeat_layout_issue body syscall
            ∷ [])).0
          branch in
      let clean = holds _ _ _ _ layout in
      (
        holds _ _ _ _ constant,
        holds _ _ _ _ status,
        (eq_iff _ _).0 (holds _ _ _ _ argument),
        null_empty syscall.mutates_payload (holds _ _ _ _ mutations),
        prohibited_none syscall.name syscall.prohibited_fields fields,
        (
          (eq_iff _ _).0 (holds _ _ _ _ selector),
          (nat_beq_iff _ _).0 (holds _ _ _ _ once),
          with_branch found _ (holds _ _ _ _ there) (
            holds _ _ _ _ returns,
            ground (arith, clean),
            ground (arith, clean),
            ground (arith, clean),
          ),
        ),
      )

  pub single-IsGoverned :
      (context : TableContext) (blocks : DispatcherBlocks) (syscall : Syscall)
      → single_syscall_issue is_word context blocks syscall ≡ none
      → IsGoverned context blocks.switch_body syscall
  single-IsGoverned context blocks (payload syscall) h = payload-IsGoverned context blocks syscall h
  single-IsGoverned context blocks (no_payload syscall) h =
      no_payload-IsGoverned context blocks syscall h
