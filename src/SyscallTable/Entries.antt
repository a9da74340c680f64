-- ===== src/SyscallTable/Entries.antt =====
-- The checks of one entry of the table.
pub mod Governed
use Prim.Native.String.{◌++◌ as ◌<>◌}
use kozo.Base.{
  ℕ, String, Bool, true, false, not, ◌&&◌, ◌||◌, null, contains, ◌==◌, nat_equality,
  string_equality, List, [], ◌∷◌, Option, none, some,
}
use kozo.Base.Text.{Text, codes}
use kozo.Execution.{extract_odin_case_block}
use kozo.Issue.{Find, issue, issue_unless, first_issue}
use kozo.Source.{occurs}
use kozo.SyscallTable.{
  Syscall, payload, no_payload, PayloadSyscall, NoPayloadSyscall, TableContext, DispatcherBlocks,
}
use kozo.SyscallTable.Scan.{mutates, count}

abbrev pub entry_field : String → String → String
entry_field name field = "valid_syscalls." <> (name <> field)

-- `_status_constant_issue`
unfoldable pub status_constant_issue : TableContext → String → String → Find
status_constant_issue context constant contract_field =
    issue_unless (contains context.manifest_status constant) "unknown_status_constant"
      contract_field (constant <> " is not declared in ABI manifest status constants")

-- `_syscall_constant_issue`
unfoldable pub syscall_constant_issue : TableContext → String → String → Find
syscall_constant_issue context name constant =
    issue_unless (contains context.manifest_syscalls constant) "missing_abi_syscall_constant"
      (entry_field name ".constant") (constant <> " is not declared in ABI manifest syscalls")

-- `_payload_layout_issue`
unfoldable pub payload_layout_issue : PayloadSyscall → Find
payload_layout_issue syscall =
    issue_unless (syscall.payload_layout == "heartbeat_payload") "missing_payload_layout"
      (entry_field syscall.name ".payload_layout")
      (syscall.payload_layout <> " is not declared in ABI manifest layouts")

-- `_boundary_mapping_issue`
unfoldable pub boundary_mapping_issue : TableContext → PayloadSyscall → Find
boundary_mapping_issue context syscall =
    issue_unless
      (syscall.boundary_contract == "debug_heartbeat"
        && syscall.constant == context.boundary_constant)
      "wrong_branch_mapping" (entry_field syscall.name ".boundary_contract")
      "Table syscall does not map to the debug heartbeat boundary contract"

-- `_branch_selector_consistency_issue`
unfoldable pub branch_selector_consistency_issue : String → String → String → Find
branch_selector_consistency_issue name constant branch_selector =
    issue_unless (branch_selector == ("abi." <> constant)) "wrong_branch_mapping"
      (entry_field name ".branch_selector")
      ("Expected " <> (("abi." <> constant) <> (", got " <> branch_selector)))

abbrev pub is_there : Option Text → Bool
is_there none = false
is_there (some t) = true

-- `_branch_selector_presence_issue`
unfoldable pub branch_selector_presence_issue : Option Text → String → String → Find
branch_selector_presence_issue branch name branch_selector =
    issue_unless (is_there branch) "missing_branch_selector" (entry_field name ".branch_selector")
      ("Dispatcher is missing " <> branch_selector)

-- `_branch_mapping_issue`
unfoldable pub branch_mapping_issue : Text → PayloadSyscall → Find
branch_mapping_issue branch syscall =
    issue_unless
      (occurs (codes "payload.sequence != 0xCAFEFEED") branch
        && occurs (codes "payload.status_bits = u32(abi.K_OK)") branch)
      "wrong_branch_mapping" (entry_field syscall.name ".branch_selector")
      (syscall.branch_selector <> " does not map to the heartbeat branch body")

-- `case SELECTOR:`
abbrev pub case_label : String → String
case_label branch_selector = "case " <> (branch_selector <> ":")

-- `_unique_branch_selector_issue`
unfoldable pub unique_branch_selector_issue : Text → String → String → Find
unique_branch_selector_issue switch_body name branch_selector =
    issue_unless (count (codes (case_label branch_selector)) switch_body == 1)
      "wrong_branch_mapping" (entry_field name ".branch_selector")
      (branch_selector <> " must appear exactly once")

-- `_no_payload_argument_issue`
unfoldable pub no_payload_argument_issue : NoPayloadSyscall → Find
no_payload_argument_issue syscall =
    issue_unless (syscall.payload_argument == "null") "wrong_no_payload_argument"
      (entry_field syscall.name ".payload_argument")
      ("No-payload syscall " <> (syscall.name <> " must use a null payload argument"))

-- `_no_payload_mutates_payload_issue`
unfoldable pub no_payload_mutates_payload_issue : NoPayloadSyscall → Find
no_payload_mutates_payload_issue syscall =
    issue_unless (null syscall.mutates_payload) "no_payload_declares_payload_mutation"
      (entry_field syscall.name ".mutates_payload")
      ("No-payload syscall " <> (syscall.name <> " must not declare payload mutations"))

abbrev pub prohibited_issue : String → List String → Find
prohibited_issue name [] = none
prohibited_issue name (field ∷ fields) = some (
    issue "no_payload_payload_layout_reference" (entry_field name ("." <> field))
      ("No-payload syscall " <> (name <> (" must not declare " <> field))))

-- `_no_payload_prohibited_field_issue`
unfoldable pub no_payload_prohibited_field_issue : NoPayloadSyscall → Find
no_payload_prohibited_field_issue syscall = prohibited_issue syscall.name syscall.prohibited_fields

-- `_no_payload_shape_issue`
unfoldable pub no_payload_shape_issue : NoPayloadSyscall → Find
no_payload_shape_issue syscall = first_issue (
    no_payload_argument_issue syscall
    ∷ no_payload_mutates_payload_issue syscall
    ∷ no_payload_prohibited_field_issue syscall
    ∷ [])

-- `_no_payload_return_issue`
unfoldable pub no_payload_return_issue : Text → NoPayloadSyscall → Find
no_payload_return_issue branch syscall =
    issue_unless (occurs (codes ("return abi." <> syscall.return_status)) branch)
      "wrong_no_payload_return_status" (entry_field syscall.name ".return_status")
      (syscall.name <> (" must return abi." <> syscall.return_status))

-- `_no_payload_heartbeat_layout_issue`
unfoldable pub no_payload_heartbeat_layout_issue : Text → NoPayloadSyscall → Find
no_payload_heartbeat_layout_issue branch syscall =
    issue_unless
      (not (occurs (codes "payload") branch)
        && (not (occurs (codes "Heartbeat_Payload") branch)
            && not (occurs (codes "0xCAFE") branch)))
      "no_payload_uses_payload_layout" (entry_field syscall.name "")
      (syscall.name <> " must not use heartbeat payload layout or sentinels")

-- `branch or ""`
abbrev pub text_of : Option Text → Text
text_of none = []
text_of (some t) = t

module _ (is_word : ℕ → Bool) where
  -- `_no_payload_mutation_issue`
  unfoldable pub no_payload_mutation_issue : Text → NoPayloadSyscall → Find
  no_payload_mutation_issue branch syscall =
      issue_unless (not syscall.must_not_mutate_payload || not (mutates is_word branch))
        "no_payload_mutates_payload" (entry_field syscall.name ".must_not_mutate_payload")
        (syscall.name <> " must not mutate payload")

  -- `_no_payload_branch_issue`
  unfoldable pub no_payload_branch_issue : Text → NoPayloadSyscall → Find
  no_payload_branch_issue branch syscall = first_issue (
      no_payload_return_issue branch syscall
      ∷ no_payload_mutation_issue branch syscall
      ∷ no_payload_heartbeat_layout_issue branch syscall
      ∷ [])

  abbrev pub payload_checks :
      TableContext → DispatcherBlocks → PayloadSyscall → Option Text → List Find
  payload_checks context blocks syscall branch =
      syscall_constant_issue context syscall.name syscall.constant
      ∷ payload_layout_issue syscall
      ∷ boundary_mapping_issue context syscall
      ∷ branch_selector_consistency_issue syscall.name syscall.constant syscall.branch_selector
      ∷ branch_selector_presence_issue branch syscall.name syscall.branch_selector
      ∷ branch_mapping_issue (text_of branch) syscall
      ∷ unique_branch_selector_issue blocks.switch_body syscall.name syscall.branch_selector
      ∷ []

  -- `_payload_syscall_issue`
  unfoldable pub payload_syscall_issue :
      TableContext → DispatcherBlocks → PayloadSyscall → Option Text → Find
  payload_syscall_issue context blocks syscall branch =
      first_issue (payload_checks context blocks syscall branch)

  abbrev pub no_payload_checks :
      TableContext → DispatcherBlocks → NoPayloadSyscall → Option Text → List Find
  no_payload_checks context blocks syscall branch =
      syscall_constant_issue context syscall.name syscall.constant
      ∷ no_payload_shape_issue syscall
      ∷ status_constant_issue context syscall.return_status
          (entry_field syscall.name ".return_status")
      ∷ branch_selector_consistency_issue syscall.name syscall.constant syscall.branch_selector
      ∷ branch_selector_presence_issue branch syscall.name syscall.branch_selector
      ∷ no_payload_branch_issue (text_of branch) syscall
      ∷ unique_branch_selector_issue blocks.switch_body syscall.name syscall.branch_selector
      ∷ []

  -- `_no_payload_syscall_issue`
  unfoldable pub no_payload_syscall_issue :
      TableContext → DispatcherBlocks → NoPayloadSyscall → Option Text → Find
  no_payload_syscall_issue context blocks syscall branch =
      first_issue (no_payload_checks context blocks syscall branch)

  -- `_single_syscall_issue`; the search for the case block is the one of the execution proof
  unfoldable pub single_syscall_issue : TableContext → DispatcherBlocks → Syscall → Find
  single_syscall_issue context blocks (no_payload syscall) =
      no_payload_syscall_issue context blocks syscall
        (extract_odin_case_block blocks.switch_body (case_label syscall.branch_selector))
  single_syscall_issue context blocks (payload syscall) =
      payload_syscall_issue context blocks syscall
        (extract_odin_case_block blocks.switch_body (case_label syscall.branch_selector))
