-- ===== src/SyscallTable/Validate.antt =====
-- `SyscallTableContractValidator.validate`, on the context that was loaded.
pub mod Verdict
use Prim.Native.String.{◌++◌ as ◌<>◌}
use kozo.Base.{
  ℕ, String, Bool, true, false, not, ◌&&◌, ◌||◌, contains, ◌==◌, string_equality, List, [], ◌∷◌,
  map, Option, none, some,
}
use kozo.Base.Text.{Text, codes}
use kozo.Issue.{Issue, Find, issue, issue_unless, first_issue, first_of}
use kozo.Json.{str}
use kozo.Registry.Codes.{syscall_table_contract_invalid, ok as ok_code}
use kozo.Source.{occurs}
use kozo.SyscallTable.{
  Syscall, payload, no_payload, TableDispatcher, TableRelationships, UnknownSyscallBehavior,
  SyscallTableContract, TableContext, DispatcherBlocks,
}
use kozo.SyscallTable.Entries.{status_constant_issue, single_syscall_issue}
use kozo.SyscallTable.Scan.{
  braced_declaration_block, switch_body_of, after_switch_body, has_return, mutates,
  rust_type_exists, odin_type_exists,
}
use kozo.Validator.{ValidationResult, pass_, fail_with}

abbrev pub syscall_name : Syscall → String
syscall_name (payload syscall) = syscall.name
syscall_name (no_payload syscall) = syscall.name

-- `_REQUIRED_SYSCALLS`
abbrev pub required_syscalls : List String
required_syscalls = "nop" ∷ "status" ∷ "debug_heartbeat" ∷ []

abbrev pub required_name_issue : SyscallTableContract → String → Find
required_name_issue contract name =
    issue_unless (contains (map syscall_name contract.valid_syscalls) name) "missing_valid_syscall"
      ("valid_syscalls." <> name) ("Required syscall table entry " <> (name <> " is missing"))

-- `_required_syscall_issue`
unfoldable pub required_syscall_issue : SyscallTableContract → Find
required_syscall_issue contract = first_of (required_name_issue contract) required_syscalls

-- `_architecture_issue`
unfoldable pub architecture_issue : SyscallTableContract → Find
architecture_issue contract =
    issue_unless (contract.architecture == "x86_64") "wrong_architecture" "architecture"
      ("Expected x86_64, got " <> contract.architecture)

-- `_unknown_return_issue`
unfoldable pub unknown_return_issue : Text → String → Find
unknown_return_issue default_path status =
    issue_unless (occurs (codes ("return abi." <> status)) default_path)
      "wrong_unknown_syscall_return" "unknown_syscall_behavior.return_status"
      ("Unknown syscall path must return abi." <> status)

module _ (is_file : String → Bool) where
  -- `_relationship_path_issue`
  unfoldable pub relationship_path_issue : String → String → String → Find
  relationship_path_issue actual expected contract_field =
      issue_unless (actual == expected && is_file actual) "relationship_mismatch" contract_field
        ("Expected existing relationship path " <> (expected <> (", got " <> actual)))

  -- `_relationship_issue`
  unfoldable pub relationship_issue : SyscallTableContract → Find
  relationship_issue contract = first_issue (
      relationship_path_issue contract.relationships.abi_manifest "contracts/kozo_abi_manifest.json"
        "relationships.abi_manifest"
      ∷ relationship_path_issue contract.relationships.syscall_boundary_contract
          "contracts/syscall_boundary_contract.v0.json" "relationships.syscall_boundary_contract"
      ∷ [])

module _ (repr : String → String) where
  -- `_expected_value_issue`
  unfoldable pub table_value_issue : String → String → String → String → Find
  table_value_issue actual expected reason contract_field =
      issue_unless (actual == expected) reason contract_field
        ("Expected " <> (repr expected <> (", got " <> repr actual)))

  -- `_text_issue`
  unfoldable pub text_issue : Text → String → String → String → Find
  text_issue source needle reason contract_field =
      issue_unless (occurs (codes needle) source) reason contract_field ("Missing " <> repr needle)

  -- `_dispatcher_signature_issue`
  unfoldable pub dispatcher_signature_issue : Text → TableDispatcher → Find
  dispatcher_signature_issue declaration dispatcher = first_issue (
      text_issue declaration ("id: abi." <> dispatcher.syscall_id_type) "wrong_dispatcher_signature"
        "dispatcher.syscall_id_type"
      ∷ text_issue declaration ("-> abi." <> dispatcher.return_type) "wrong_dispatcher_signature"
          "dispatcher.return_type"
      ∷ [])

  -- `_dispatcher_contract_issue`
  unfoldable pub dispatcher_contract_issue : TableContext → DispatcherBlocks → Find
  dispatcher_contract_issue context blocks = first_issue (
      table_value_issue context.contract.dispatcher.symbol "syscall_dispatch"
        "wrong_dispatcher_symbol" "dispatcher.symbol"
      ∷ dispatcher_signature_issue blocks.declaration context.contract.dispatcher
      ∷ [])

module _ (is_word : ℕ → Bool) where
  -- `_binding_type_issue`
  unfoldable pub binding_type_issue : TableContext → String → String → Find
  binding_type_issue context type_name contract_field =
      issue_unless
        (rust_type_exists is_word context.sources.rust_binding type_name
          && odin_type_exists is_word context.sources.odin_binding type_name)
        "missing_abi_type" contract_field (type_name <> " is missing from generated ABI bindings")

  -- `_unknown_default_path_issue`
  unfoldable pub unknown_default_path_issue : Text → Find
  unknown_default_path_issue default_path =
      issue_unless (has_return is_word default_path) "missing_unknown_syscall_branch"
        "unknown_syscall_behavior.return_status" "Dispatcher has no default unknown-syscall return"

  -- `_unknown_mutation_issue`
  unfoldable pub unknown_mutation_issue : Text → Bool → Find
  unknown_mutation_issue default_path must_not_mutate =
      issue_unless (not must_not_mutate || not (mutates is_word default_path))
        "unknown_path_mutates_payload" "unknown_syscall_behavior.must_not_mutate_payload"
        "Unknown syscall path mutates the heartbeat payload"

  abbrev pub unknown_checks : TableContext → DispatcherBlocks → List Find
  unknown_checks context blocks =
      let behavior = context.contract.unknown_syscall_behavior in
      status_constant_issue context behavior.return_status "unknown_syscall_behavior.return_status"
      ∷ unknown_default_path_issue blocks.default_path
      ∷ unknown_return_issue blocks.default_path behavior.return_status
      ∷ unknown_mutation_issue blocks.default_path behavior.must_not_mutate_payload
      ∷ []

  -- `_unknown_syscall_issue`
  unfoldable pub unknown_syscall_issue : TableContext → DispatcherBlocks → Find
  unknown_syscall_issue context blocks = first_issue (unknown_checks context blocks)

  -- `_syscall_contract_issue`
  unfoldable pub syscall_contract_issue : TableContext → DispatcherBlocks → Find
  syscall_contract_issue context blocks =
      first_of (single_syscall_issue is_word context blocks) context.contract.valid_syscalls

  abbrev blocks_of : Text → Text → DispatcherBlocks
  blocks_of declaration switch_body = record {
    declaration = declaration;
    switch_body = switch_body;
    default_path = after_switch_body declaration switch_body;
  }

  abbrev missing_symbol : String → Issue
  missing_symbol symbol =
      issue "wrong_dispatcher_symbol" "dispatcher.symbol"
        ("Dispatcher symbol " <> (symbol <> " is missing"))

  abbrev missing_switch : Issue
  missing_switch =
      issue "missing_unknown_syscall_branch" "unknown_syscall_behavior"
        "Dispatcher switch over syscall id is missing"

  module _ (is_file : String → Bool) (repr : String → String) where
    -- `_type_contract_issue`
    unfoldable pub type_contract_issue : TableContext → Find
    type_contract_issue context =
        let dispatcher = context.contract.dispatcher in
        first_issue (
          table_value_issue repr dispatcher.syscall_id_type "K_SYSCALL_ID" "wrong_syscall_id_type"
            "dispatcher.syscall_id_type"
          ∷ table_value_issue repr dispatcher.return_type "K_STATUS" "wrong_return_type"
              "dispatcher.return_type"
          ∷ binding_type_issue context dispatcher.syscall_id_type "dispatcher.syscall_id_type"
          ∷ binding_type_issue context dispatcher.return_type "dispatcher.return_type"
          ∷ [])

    abbrev pub table_checks : TableContext → DispatcherBlocks → List Find
    table_checks context blocks =
        architecture_issue context.contract
        ∷ relationship_issue is_file context.contract
        ∷ dispatcher_contract_issue repr context blocks
        ∷ type_contract_issue context
        ∷ required_syscall_issue context.contract
        ∷ syscall_contract_issue context blocks
        ∷ unknown_syscall_issue context blocks
        ∷ []

    -- `_dispatcher_blocks`, and the checks of `_table_contract_issue` where it gives blocks
    unfoldable pub table_contract_issue : TableContext → Find
    table_contract_issue context =
        let symbol = context.contract.dispatcher.symbol in
        elim (braced_declaration_block is_word context.sources.dispatcher_source symbol) [
          | none ↦ some (missing_symbol symbol)
          | some declaration ↦ elim (switch_body_of is_word declaration) [
            | none ↦ some missing_switch
            | some switch_body ↦
                first_issue (table_checks context (blocks_of declaration switch_body))
          ]
        ]

-- `_failure_result`
abbrev failure : Issue → ValidationResult
failure i =
    fail_with syscall_table_contract_invalid
      ("Syscall table contract invalid: "
        <> (i.reason <> (": " <> (i.contract_field <> (": " <> i.detail)))))
      "Keep contracts/syscall_table_contract.v0.json aligned with the ABI manifest, boundary contract, and live dispatcher source"
      (("reason", str i.reason) ∷ ("contract_field", str i.contract_field) ∷ [])

abbrev verdict : Find → ValidationResult
verdict (some i) = failure i
verdict none = pass_ ok_code "Syscall table contract v0 matches the live heartbeat dispatcher model"

-- `SyscallTableContractValidator.validate` on a context
unfoldable pub validate_table :
    (ℕ → Bool) → (String → Bool) → (String → String) → TableContext → ValidationResult
validate_table is_word is_file repr context =
    verdict (table_contract_issue is_word is_file repr context)
