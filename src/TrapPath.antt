-- ===== src/TrapPath.antt =====
-- harness/validators_impl/runtime_trap_path.py: the service's requests reach the kernel by the extern
-- bridge. The file that it reads is a parameter: its text.
pub mod Function
pub mod Anchors
pub mod Validate
use kozo.Base.{String, List, [], ◌∷◌}
use kozo.Base.Text.{Text, codes}

-- `RuntimePathAnchor`, `OrderedRuntimeAnchor` and `ForbiddenRuntimeSnippet`, which have the same fields
pub record RuntimePathAnchor : Type 0 where
  pub name : String
  pub needle : String
  pub detail : String

abbrev anchor : String → String → String → RuntimePathAnchor
anchor name needle detail = record { name = name; needle = needle; detail = detail }

abbrev pub anchor_text : RuntimePathAnchor → Text
anchor_text a = codes a.needle

abbrev pub heartbeat_request_anchors : List RuntimePathAnchor
heartbeat_request_anchors =
    anchor "payload_initialization" "let mut payload = abi::HeartbeatPayload {"
      "heartbeat_request must construct the heartbeat payload on the live path"
    ∷ anchor "request_sequence_sentinel" "sequence: 0xCAFEFEED"
        "heartbeat_request must initialize sequence to 0xCAFEFEED"
    ∷ anchor "request_timestamp_sentinel" "timestamp: 0"
        "heartbeat_request must initialize timestamp to 0"
    ∷ anchor "request_status_bits_initialization" "status_bits: abi::K_INVALID"
        "heartbeat_request must initialize status_bits to abi::K_INVALID"
    ∷ anchor "heartbeat_syscall_constant"
        "let syscall: abi::K_SYSCALL_ID = abi::K_SYSCALL_DEBUG_HEARTBEAT;"
        "heartbeat_request must select the generated heartbeat syscall id"
    ∷ anchor "bridge_helper_call" "let status = invoke_heartbeat_bridge(syscall, &mut payload);"
        "heartbeat_request must call invoke_heartbeat_bridge with the live payload"
    ∷ anchor "return_path_validation" "return validate_heartbeat_return_path(status, &payload);"
        "heartbeat_request must pass returned status and payload to return-path validation"
    ∷ []

abbrev pub nop_request_anchors : List RuntimePathAnchor
nop_request_anchors =
    anchor "nop_syscall_constant" "let syscall: abi::K_SYSCALL_ID = abi::K_SYSCALL_NOP;"
      "nop_request must select the generated NOP syscall id"
    ∷ anchor "nop_bridge_call" "let status = invoke_no_payload_bridge(syscall);"
        "nop_request must call invoke_no_payload_bridge without a payload"
    ∷ anchor "nop_return_validation" "return validate_nop_return_status(status);"
        "nop_request must validate the returned NOP status"
    ∷ []

abbrev pub status_request_anchors : List RuntimePathAnchor
status_request_anchors =
    anchor "status_syscall_constant" "let syscall: abi::K_SYSCALL_ID = abi::K_SYSCALL_STATUS;"
      "status_request must select the generated STATUS syscall id"
    ∷ anchor "status_bridge_call" "let status = invoke_no_payload_bridge(syscall);"
        "status_request must call invoke_no_payload_bridge without a payload"
    ∷ anchor "status_return_validation" "return validate_status_return_status(status);"
        "status_request must validate the returned STATUS status"
    ∷ []

abbrev pub bridge_helper_anchors : List RuntimePathAnchor
bridge_helper_anchors =
    anchor "extern_bridge_call"
      "syscall_entry(u64::from(syscall), payload as *mut abi::HeartbeatPayload)"
      "invoke_heartbeat_bridge must call extern syscall_entry with the syscall id and payload pointer"
    ∷ anchor "bridge_status_cast" "as abi::K_STATUS"
        "invoke_heartbeat_bridge must return the bridge result as abi::K_STATUS"
    ∷ []

abbrev pub no_payload_bridge_helper_anchors : List RuntimePathAnchor
no_payload_bridge_helper_anchors =
    anchor "no_payload_null_payload_argument"
      "syscall_entry(u64::from(syscall), core::ptr::null_mut())"
      "invoke_no_payload_bridge must call syscall_entry with a null payload pointer"
    ∷ anchor "no_payload_bridge_status_cast" "as abi::K_STATUS"
        "invoke_no_payload_bridge must return the bridge result as abi::K_STATUS"
    ∷ []

abbrev pub nop_return_validation_anchors : List RuntimePathAnchor
nop_return_validation_anchors =
    anchor "nop_status_check" "if status != abi::K_OK"
      "validate_nop_return_status must reject non-K_OK returns"
    ∷ anchor "nop_success_status" "abi::K_OK"
        "validate_nop_return_status must return abi::K_OK on success"
    ∷ []

abbrev pub status_return_validation_anchors : List RuntimePathAnchor
status_return_validation_anchors =
    anchor "status_status_check" "if status != abi::K_OK"
      "validate_status_return_status must reject non-K_OK returns"
    ∷ anchor "status_success_status" "abi::K_OK"
        "validate_status_return_status must return abi::K_OK on success"
    ∷ []

abbrev pub core_service_entry_anchors : List RuntimePathAnchor
core_service_entry_anchors =
    anchor "core_entry_nop_probe" "let _ = nop_request();"
      "core_service_entry must exercise the NOP probe before heartbeat"
    ∷ anchor "core_entry_status_probe" "let _ = status_request();"
        "core_service_entry must exercise the STATUS probe before heartbeat"
    ∷ anchor "core_entry_heartbeat_request" "heartbeat_request()"
        "core_service_entry must preserve the heartbeat request path"
    ∷ []

abbrev pub nop_forbidden_snippets : List RuntimePathAnchor
nop_forbidden_snippets =
    anchor "nop_payload_construction" "HeartbeatPayload"
      "NOP runtime path must not construct or depend on heartbeat payload layout"
    ∷ anchor "nop_mutable_payload_reference" "&mut"
        "NOP runtime path must not require a mutable payload reference"
    ∷ []

-- the snippets of NOP with `replace` worked out
abbrev pub status_forbidden_snippets : List RuntimePathAnchor
status_forbidden_snippets =
    anchor "status_payload_construction" "HeartbeatPayload"
      "STATUS runtime path must not construct or depend on heartbeat payload layout"
    ∷ anchor "status_mutable_payload_reference" "&mut"
        "STATUS runtime path must not require a mutable payload reference"
    ∷ []
