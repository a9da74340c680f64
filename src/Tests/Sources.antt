-- ===== src/Tests/Sources.antt =====
-- A kernel source, a serial source and a service, and the theorems on sources at them.
use Prim.Native.String.{◌++◌ as ◌<>◌}
use kozo.Base.{◌≡◌, ◌↔◌, refl, true, List, [], ◌∷◌, ◌++◌, map, length, some, none, All}
use kozo.Base.Text.{Text, codes, is_space, starts_with, strip_prefix}
use kozo.Execution.{
  ExecutionSources, OrderedAnchor, heartbeat_execution_anchors, serial_observation_anchors,
  anchor_text, observation_text, line_indent, case_line_index, case_block_end,
  extract_odin_case_block, execution_anchor_failure, ordered_branch_check,
  heartbeat_execution_check, serial_observation_check, first_failing_check, execution_proof_result,
}
use kozo.Execution.Verdict.{HasBranch, execution_proof_result-HasBranch, ordered_branch_check-names}
use kozo.ReturnPath.{validate_return_path}
use kozo.ReturnPath.Verdict.{IsProved, validate_return_path-IsProved}
use kozo.Source.{
  occurs, find_after, lstrip, rstrip, splitlines, join_lines, matching_brace, first_missing,
  first_absent,
}
use kozo.Source.Order.{InOrder, first_missing-InOrder}
use kozo.Source.Braces.{Balanced, matching_brace-Balanced}
use kozo.Source.Pattern.{match_pieces, search, until}
use kozo.TrapPath.Function.{
  drop_word, after_return_type, after_parameters, function_header, extract_rust_function_block,
}
use kozo.TrapPath.Function.Body.{extract_rust_function_block-Balanced}
use kozo.TrapPath.Validate.{validate_trap_path}
use kozo.TrapPath.Validate.Verdict.{IsLive, validate_trap_path-IsLive}
use kozo.Validator.{Passes}

abbrev kernel_source : Text
kernel_source = codes (
    "dispatch :: proc() {\n"
    <> ("\tswitch id {\n"
        <> ("\tcase abi.K_SYSCALL_DEBUG_HEARTBEAT:\n"
            <> ("\t\tif payload == nil { return abi.K_INVALID }\n"
                <> ("\t\tif payload.sequence != 0xCAFEFEED { return abi.K_INVALID }\n"
                    <> ("\t\tx86_64.serial_log_debug_heartbeat_recv(payload.sequence)\n"
                        <> ("\t\tpayload.sequence = 0xCAFEFEEE\n"
                            <> ("\t\tpayload.timestamp = 0xDEADBEEF\n"
                                <> ("\t\tpayload.status_bits = u32(abi.K_OK)\n"
                                    <> ("\t\tx86_64.serial_log_debug_heartbeat_time(payload.timestamp)\n"
                                        <> ("\t\treturn abi.K_OK\n"
                                            <> ("\tcase abi.K_SYSCALL_NOP:\n"
                                                <> ("\t\treturn abi.K_OK\n"
                                                    <> ("\t}\n" <> ("}\n")))))))))))))))

abbrev serial_source : Text
serial_source = codes (
    "serial_write(\"SYSCALL[DEBUG_HEARTBEAT] Recv Seq: 0x\")\n"
    <> ("serial_write(\"SYSCALL[DEBUG_HEARTBEAT] New Time: 0x\")\n"))

abbrev service_source : Text
service_source = codes (
    "extern \"C\" {\n"
    <> ("    fn syscall_entry(id: u64, payload: *mut abi::HeartbeatPayload) -> u64;\n"
        <> ("}\n"
            <> ("fn fail_heartbeat_contract() -> ! { panic!(\"heartbeat return path contract violated\") }\n"
                <> ("fn invoke_heartbeat_bridge(syscall: u32, payload: &mut P) -> abi::K_STATUS {\n"
                    <> ("    syscall_entry(u64::from(syscall), payload as *mut abi::HeartbeatPayload) as abi::K_STATUS\n"
                        <> ("}\n"
                            <> ("fn invoke_no_payload_bridge(syscall: u32) -> abi::K_STATUS {\n"
                                <> ("    syscall_entry(u64::from(syscall), core::ptr::null_mut()) as abi::K_STATUS\n"
                                    <> ("}\n"
                                        <> ("fn validate_nop_return_status(s: u32) -> u32 { if status != abi::K_OK { fail() } abi::K_OK }\n"
                                            <> ("fn validate_status_return_status(s: u32) -> u32 { if status != abi::K_OK { fail() } abi::K_OK }\n"
                                                <> ("fn validate_heartbeat_return_path() {\n"
                                                    <> ("    if payload.sequence != 0xCAFEFEEE { fail_heartbeat_contract(); }\n"
                                                        <> ("    if payload.timestamp != 0xDEADBEEF { fail_heartbeat_contract(); }\n"
                                                            <> ("    if payload.status_bits != abi::K_OK { fail_heartbeat_contract(); }\n"
                                                            <> ("}\n"
                                                            <> ("fn nop_request() -> u32 {\n"
                                                            <> ("    let syscall: abi::K_SYSCALL_ID = abi::K_SYSCALL_NOP;\n"
                                                            <> ("    let status = invoke_no_payload_bridge(syscall);\n"
                                                            <> ("    return validate_nop_return_status(status);\n"
                                                            <> ("}\n"
                                                            <> ("fn status_request() -> u32 {\n"
                                                            <> ("    let syscall: abi::K_SYSCALL_ID = abi::K_SYSCALL_STATUS;\n"
                                                            <> ("    let status = invoke_no_payload_bridge(syscall);\n"
                                                            <> ("    return validate_status_return_status(status);\n"
                                                            <> ("}\n"
                                                            <> ("fn heartbeat_request() -> u32 {\n"
                                                            <> ("    let mut payload = abi::HeartbeatPayload {\n"
                                                            <> ("        sequence: 0xCAFEFEED, timestamp: 0, status_bits: abi::K_INVALID };\n"
                                                            <> ("    let syscall: abi::K_SYSCALL_ID = abi::K_SYSCALL_DEBUG_HEARTBEAT;\n"
                                                            <> ("    let status = invoke_heartbeat_bridge(syscall, &mut payload);\n"
                                                            <> ("    return validate_heartbeat_return_path(status, &payload);\n"
                                                            <> ("}\n"
                                                            <> ("fn core_service_entry() -> u32 {\n"
                                                            <> ("    let _ = nop_request();\n"
                                                            <> ("    let _ = status_request();\n"
                                                            <> ("    heartbeat_request()\n"
                                                            <> ("}\n")))))))))))))))))))))))))))))))))))))))

abbrev execution_sources : ExecutionSources
execution_sources = record { kernel = kernel_source; serial = serial_source }

execution-Passes : Passes (execution_proof_result execution_sources)
unfolding execution_proof_result heartbeat_execution_check serial_observation_check
    first_failing_check ordered_branch_check extract_odin_case_block case_line_index case_block_end
    line_indent first_missing first_absent find_after occurs lstrip rstrip splitlines join_lines
    is_space starts_with strip_prefix
execution-Passes = refl

execution_proof_result-HasBranch_example : Passes (execution_proof_result execution_sources) ↔ (
    HasBranch kernel_source
    × All (λ a. occurs (observation_text a) serial_source ≡ true) serial_observation_anchors)
execution_proof_result-HasBranch_example = execution_proof_result-HasBranch execution_sources

-- a branch whose answer stands before its guard
abbrev swapped_branch : Text
swapped_branch = codes "payload.sequence = 0xCAFEFEEE if payload == nil { return abi.K_INVALID }"

ordered_branch_check-names_example :
    (before : List OrderedAnchor) × (anchor : OrderedAnchor) × (after : List OrderedAnchor)
    × (heartbeat_execution_anchors ≡ before ++ (anchor ∷ after))
    × ((ordered_branch_check swapped_branch kernel_source).contract_field ≡ anchor.name)
    × InOrder (map anchor_text before) swapped_branch
    × (InOrder (map anchor_text (before ++ (anchor ∷ []))) swapped_branch → ⊥)
unfolding ordered_branch_check execution_anchor_failure first_missing find_after strip_prefix
ordered_branch_check-names_example = ordered_branch_check-names swapped_branch kernel_source refl

validate_trap_path-IsLive_example :
    Passes (validate_trap_path service_source) ↔ IsLive service_source
validate_trap_path-IsLive_example = validate_trap_path-IsLive service_source

validate_return_path-IsProved_example :
    Passes (validate_return_path "/kozo" service_source kernel_source)
    ↔ IsProved "/kozo" service_source kernel_source
validate_return_path-IsProved_example =
    validate_return_path-IsProved "/kozo" service_source kernel_source

abbrev probe_source : Text
probe_source = codes "use abi; fn probe ( x: u32 ) -> u32 { if x { 1 } else { 2 } } fn other() { }"

abbrev probe_block : Text
probe_block = codes "fn probe ( x: u32 ) -> u32 { if x { 1 } else { 2 } }"

probe_found : extract_rust_function_block probe_source "probe" ≡ some probe_block
unfolding extract_rust_function_block function_header after_parameters after_return_type drop_word
    match_pieces search until matching_brace lstrip is_space strip_prefix
probe_found = refl

extract_rust_function_block-Balanced_example :
    (before : Text) × (header : Text) × (body : Text) × (after : Text) × (probe_source
      ≡ before ++ (probe_block ++ after))
    × (probe_block ≡ header ++ (b'{' ∷ (body ++ (b'}' ∷ []))))
    × Balanced body
extract_rust_function_block-Balanced_example =
    extract_rust_function_block-Balanced probe_source "probe" probe_block probe_found

abbrev open_body : Text
open_body = codes " if x { 1 } } }"

matching_brace-Balanced_example :
    (matching_brace 1 open_body ≡ some 12)
    ↔ ((a : Text) × (rest : Text) × Balanced a × (open_body ≡ a ++ (b'}' ∷ rest)) × (12 ≡ length a))
matching_brace-Balanced_example = matching_brace-Balanced open_body 12

first_missing-InOrder_example :
    (first_missing codes ("nil" ∷ "seq" ∷ []) swapped_branch ≡ none)
    ↔ InOrder (codes "nil" ∷ codes "seq" ∷ []) swapped_branch
first_missing-InOrder_example = first_missing-InOrder codes ("nil" ∷ "seq" ∷ []) swapped_branch
