-- ===== src/Tests/SyscallTable.antt =====
-- A dispatcher with three system calls, and the theorem on the table at it.
use Prim.Native.String.{◌++◌ as ◌<>◌}
use kozo.Base.{ℕ, refl, String, Bool, true, ◌||◌, ◌&&◌, leb, ◌==◌, nat_equality, [], ◌∷◌}
use kozo.Base.Int.{pos}
use kozo.Base.Text.{Text, codes, is_digit, is_space, starts_with, strip_prefix}
use kozo.Execution.{line_indent, case_line_index, case_block_end, extract_odin_case_block}
use kozo.Source.{occurs, find_after, lstrip, rstrip, splitlines, join_lines, matching_brace}
use kozo.Source.Pattern.{match_pieces, search_between, count_from}
use kozo.SyscallTable.{TableContext, SyscallTableContract, payload, no_payload, NoPayloadSyscall}
use kozo.SyscallTable.Entries.{
  single_syscall_issue, status_constant_issue, syscall_constant_issue, payload_layout_issue,
  boundary_mapping_issue, branch_selector_consistency_issue, branch_selector_presence_issue,
  branch_mapping_issue, unique_branch_selector_issue, no_payload_argument_issue,
  no_payload_mutates_payload_issue, no_payload_prohibited_field_issue, no_payload_shape_issue,
  no_payload_return_issue, no_payload_heartbeat_layout_issue, no_payload_mutation_issue,
  no_payload_branch_issue, payload_syscall_issue, no_payload_syscall_issue,
}
use kozo.SyscallTable.Scan.{
  drop_name, last_of, balanced_block, after_switch_body, count, match_declaration,
  braced_declaration_block, match_switch, switch_body_of, match_mutation, mutates, match_return,
  has_return, match_rust_type, rust_type_exists, match_odin_type, odin_type_exists,
}
use kozo.SyscallTable.Validate.{
  required_syscall_issue, architecture_issue, unknown_return_issue, relationship_path_issue,
  relationship_issue, table_value_issue, text_issue, dispatcher_signature_issue,
  dispatcher_contract_issue, binding_type_issue, unknown_default_path_issue, unknown_mutation_issue,
  unknown_syscall_issue, syscall_contract_issue, type_contract_issue, table_contract_issue,
  validate_table,
}
use kozo.SyscallTable.Validate.Verdict.{IsDispatcher, validate_table-IsDispatcher}
use kozo.Validator.{Passes}

abbrev is_word : ℕ → Bool
is_word c = (leb b'a' c && leb c b'z') || (leb b'A' c && leb c b'Z') || is_digit c || c == b'_'

abbrev is_file : String → Bool
is_file path = true

abbrev repr : String → String
repr s = "'" <> (s <> "'")

abbrev no_payload_call : String → String → NoPayloadSyscall
no_payload_call name constant = record {
  name = name;
  syscall_class = "probe";
  constant = constant;
  branch_selector = "abi." <> constant;
  payload_argument = "null";
  return_status = "K_OK";
  mutates_payload = [];
  must_not_mutate_payload = true;
  prohibited_fields = [];
}

abbrev contract : SyscallTableContract
contract = record {
  version = pos 0;
  architecture = "x86_64";
  dispatcher = record {
    symbol = "syscall_dispatch";
    source_path = "kernel/main.odin";
    syscall_id_type = "K_SYSCALL_ID";
    return_type = "K_STATUS";
  };
  valid_syscalls =
      payload (record {
        name = "debug_heartbeat";
        syscall_class = "diagnostic";
        constant = "K_BEAT";
        payload_layout = "heartbeat_payload";
        branch_selector = "abi.K_BEAT";
        boundary_contract = "debug_heartbeat";
      })
      ∷ no_payload (no_payload_call "nop" "K_NOP")
      ∷ no_payload (no_payload_call "status" "K_STAT")
      ∷ [];
  unknown_syscall_behavior = record { return_status = "K_INVALID"; must_not_mutate_payload = true };
  relationships = record {
    abi_manifest = "contracts/kozo_abi_manifest.json";
    syscall_boundary_contract = "contracts/syscall_boundary_contract.v0.json";
  };
}

abbrev dispatcher_source : Text
dispatcher_source = codes (
    "syscall_dispatch :: proc(id: abi.K_SYSCALL_ID) -> abi.K_STATUS {\n"
    <> (" switch id {\n"
        <> (" case abi.K_BEAT:\n"
            <> ("  if payload.sequence != 0xCAFEFEED { return abi.K_INVALID }\n"
                <> ("  payload.status_bits = u32(abi.K_OK)\n"
                    <> (" case abi.K_NOP:\n  return abi.K_OK\n case abi.K_STAT:\n  return abi.K_OK\n }\n"
                        <> " return abi.K_INVALID\n}\n"))))))

abbrev context : TableContext
context = record {
  contract = contract;
  manifest_syscalls = "K_BEAT" ∷ "K_NOP" ∷ "K_STAT" ∷ [];
  manifest_status = "K_OK" ∷ "K_INVALID" ∷ [];
  boundary_constant = "K_BEAT";
  sources = record {
    dispatcher_source = dispatcher_source;
    rust_binding = codes "pub type K_SYSCALL_ID = u32; pub type K_STATUS = u32;";
    odin_binding = codes "K_SYSCALL_ID :: u32\nK_STATUS :: u32\n";
  };
}

table-Passes : Passes (validate_table is_word is_file repr context)
unfolding validate_table table_contract_issue braced_declaration_block match_declaration
    balanced_block switch_body_of match_switch architecture_issue relationship_issue
    relationship_path_issue dispatcher_contract_issue table_value_issue dispatcher_signature_issue
    text_issue type_contract_issue binding_type_issue rust_type_exists match_rust_type
    odin_type_exists match_odin_type last_of required_syscall_issue syscall_contract_issue
    single_syscall_issue payload_syscall_issue no_payload_syscall_issue status_constant_issue
    syscall_constant_issue payload_layout_issue boundary_mapping_issue
    branch_selector_consistency_issue branch_selector_presence_issue branch_mapping_issue
    unique_branch_selector_issue no_payload_argument_issue no_payload_mutates_payload_issue
    no_payload_prohibited_field_issue no_payload_shape_issue no_payload_return_issue
    no_payload_heartbeat_layout_issue no_payload_mutation_issue no_payload_branch_issue
    unknown_syscall_issue unknown_default_path_issue unknown_return_issue unknown_mutation_issue
    has_return match_return mutates match_mutation drop_name after_switch_body count count_from
    search_between match_pieces extract_odin_case_block case_line_index case_block_end line_indent
    occurs find_after lstrip rstrip splitlines join_lines matching_brace is_space starts_with
    strip_prefix
table-Passes = refl

validate_table-IsDispatcher_example : IsDispatcher is_word context
validate_table-IsDispatcher_example =
    validate_table-IsDispatcher is_word is_file repr context table-Passes
