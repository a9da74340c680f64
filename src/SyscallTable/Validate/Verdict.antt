-- ===== src/SyscallTable/Validate/Verdict.antt =====
-- What a table has that the validator passes.
use Prim.Native.String.{◌++◌ as ◌<>◌}
use kozo.Base.{
  ℕ, ◌≡◌, refl, String, Bool, true, contains, nat_equality, string_equality, map, none, some,
  Option-cases, inl, inr, All, arith,
}
use kozo.Base.Text.{Text, codes}
use kozo.Issue.{Find}
use kozo.Issue.Laws.{first_issue-none, first_of-none}
use kozo.Source.{occurs}
use kozo.SyscallTable.{SyscallTableContract, TableContext, DispatcherBlocks}
use kozo.SyscallTable.Entries.{status_constant_issue}
use kozo.SyscallTable.Scan.Mutation.{AssignsPayload, mutates-AssignsPayload}
use kozo.SyscallTable.Scan.{braced_declaration_block, switch_body_of, after_switch_body}
use kozo.SyscallTable.Validate.{
  verdict, required_syscalls, required_name_issue, unknown_checks, syscall_name,
  required_syscall_issue, unknown_return_issue, unknown_default_path_issue, unknown_mutation_issue,
  unknown_syscall_issue, syscall_contract_issue, table_checks, table_contract_issue, blocks_of,
  validate_table,
}
use kozo.Validator.{Passes, fail-ne-pass}
use kozo.SyscallTable.Entries.Governed.{holds, All-map, IsGoverned, single-IsGoverned}

module _ (is_word : ℕ → Bool) where
  -- What comes behind the switch returns the status for system calls that are not in the table, and
  -- assigns no field of the payload by a plain `=` where it must leave the payload alone.
  abbrev pub IsDefault : TableContext → Text → Type 0
  IsDefault context default_path =
      (contains context.manifest_status context.contract.unknown_syscall_behavior.return_status
        ≡ true)
      × (occurs (codes ("return abi." <> context.contract.unknown_syscall_behavior.return_status))
            default_path
          ≡ true)
      × (context.contract.unknown_syscall_behavior.must_not_mutate_payload ≡ true
          → AssignsPayload is_word default_path
          → ⊥)

  unknown_syscall_issue-IsDefault :
      (context : TableContext) (blocks : DispatcherBlocks)
      → unknown_syscall_issue is_word context blocks ≡ none
      → IsDefault context blocks.default_path
  unfolding unknown_syscall_issue status_constant_issue unknown_default_path_issue
      unknown_return_issue unknown_mutation_issue
  unknown_syscall_issue-IsDefault context blocks h =
      let (status, (_, (returns, (unchanged, _)))) =
        (first_issue-none (unknown_checks is_word context blocks)).0 h in
      let free = holds _ _ _ _ unchanged in
      (
        holds _ _ _ _ status,
        holds _ _ _ _ returns,
        λ must. mutates-AssignsPayload is_word blocks.default_path (ground (arith, free, must)),
      )

  -- The dispatcher has the blocks, every entry of the table is governed, the three calls that must be
  -- there are, and so is the default.
  abbrev pub IsDispatcher : TableContext → Type 0
  IsDispatcher context =
      (declaration : Text) × (switch_body : Text) × (braced_declaration_block is_word
          context.sources.dispatcher_source context.contract.dispatcher.symbol
        ≡ some declaration)
      × (switch_body_of is_word declaration ≡ some switch_body)
      × All (IsGoverned is_word context switch_body) context.contract.valid_syscalls
      × All (λ name. contains (map syscall_name context.contract.valid_syscalls) name ≡ true)
          required_syscalls
      × IsDefault context (after_switch_body declaration switch_body)

  module _ (is_file : String → Bool) (repr : String → String) where
    name-there :
        (contract : SyscallTableContract) (name : String)
        → required_name_issue contract name ≡ none
        → contains (map syscall_name contract.valid_syscalls) name ≡ true
    name-there contract name h = holds _ _ _ _ h

    required-there :
        (contract : SyscallTableContract)
        → required_syscall_issue contract ≡ none
        → All
            (λ name. contains (map syscall_name contract.valid_syscalls) name ≡ true)
            required_syscalls
    unfolding required_syscall_issue
    required-there contract h =
        All-map (λ name. required_name_issue contract name ≡ none)
          (λ name. contains (map syscall_name contract.valid_syscalls) name ≡ true)
          required_syscalls (name-there contract)
          ((first_of-none (required_name_issue contract) required_syscalls).0 h)

    table_contract_issue-IsDispatcher :
        (context : TableContext)
        → table_contract_issue is_word is_file repr context ≡ none
        → IsDispatcher context
    unfolding table_contract_issue syscall_contract_issue
    table_contract_issue-IsDispatcher context h =
        elim (Option-cases (
          braced_declaration_block is_word context.sources.dispatcher_source
            context.contract.dispatcher.symbol)) [
              | inl e ↦ let never = rw (e, table_contract_issue) at h in cc
              | inr (declaration, e) ↦ elim (Option-cases (switch_body_of is_word declaration)) [
                | inl q ↦ let never = rw (e, q, table_contract_issue) at h in cc
                | inr (switch_body, q) ↦
                    let blocks = blocks_of is_word declaration switch_body in
                    let (_, (_, (_, (_, (required, (entries, (unknown, _))))))) =
                      (first_issue-none (table_checks is_word is_file repr context blocks)).0
                        (rw (e, q, table_contract_issue) at h) in
                    (
                      declaration,
                      switch_body,
                      e,
                      q,
                      All-map _ _ context.contract.valid_syscalls
                          (single-IsGoverned is_word context blocks)
                          ((first_of-none _ context.contract.valid_syscalls).0 entries),
                      required-there context.contract required,
                      unknown_syscall_issue-IsDefault context blocks unknown,
                    )
              ]
            ]

Passes-none : (found : Find) → Passes (verdict found) → found ≡ none
Passes-none none h = refl
Passes-none (some i) h = absurd (fail-ne-pass h)

-- In a table that the validator passes, every entry names a constant of the manifest and has one case in
-- the switch over the system call, with the heartbeat's guard and answer or, without a payload, with
-- its status and none of the words `payload`, `Heartbeat_Payload` and `0xCAFE`; the three calls that
-- must be there are; and what comes behind the switch returns the status for unknown calls and has no
-- assignment `payload.NAME =` where the payload must not be mutated (other ways to change it, such as
-- `+=`, are not looked for).
pub validate_table-IsDispatcher :
    (is_word : ℕ → Bool) (is_file : String → Bool) (repr : String → String) (context : TableContext)
    → Passes (validate_table is_word is_file repr context)
    → IsDispatcher is_word context
unfolding validate_table
validate_table-IsDispatcher is_word is_file repr context h =
    table_contract_issue-IsDispatcher is_word is_file repr context
      (Passes-none (table_contract_issue is_word is_file repr context) h)
