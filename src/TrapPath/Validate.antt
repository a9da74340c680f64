-- ===== src/TrapPath/Validate.antt =====
-- `RuntimeTrapPathValidator`, on the text of the service.
pub mod Fails
pub mod Verdict
use kozo.Base.{
  ℕ, String, Bool, true, false, not, ltb, length, if◌then◌else◌, List, [], ◌∷◌, Option, none, some,
}
use kozo.Base.Text.{Text, codes, strip_prefix}
use kozo.Registry.Codes.{ok as ok_code}
use kozo.Source.{occurs}
use kozo.Source.Pattern.{
  Piece, literal, spaces, some_spaces, match_pieces, search, count_from, until,
}
use kozo.TrapPath.{
  heartbeat_request_anchors, nop_request_anchors, status_request_anchors, bridge_helper_anchors,
  no_payload_bridge_helper_anchors, nop_return_validation_anchors, status_return_validation_anchors,
  core_service_entry_anchors, nop_forbidden_snippets, status_forbidden_snippets,
}
use kozo.TrapPath.Anchors.{
  failure_result, ordered_anchor_result, required_anchor_result, forbidden_snippet_result,
  first_result,
}
use kozo.TrapPath.Function.{extract_rust_function_block}
use kozo.Validator.{ValidationResult, pass_}

-- `_EXTERN_BLOCK`: the body of the match
unfoldable pub extern_body : Text → Option Text
extern_body t =
    elim (match_pieces
      (literal (codes "extern")
        ∷ spaces
        ∷ literal (codes "\"C\"")
        ∷ spaces
        ∷ literal (codes "{")
        ∷ [])
      t) [
        | none ↦ none
        | some inside ↦ elim (until b'}' inside) [ none ↦ none | some (body, rest) ↦ some body ]
      ]

-- `_EXTERN_SYSCALL_FN`
abbrev pub extern_syscall_fn : List Piece
extern_syscall_fn =
    literal (codes "fn")
    ∷ some_spaces
    ∷ literal (codes "syscall_entry")
    ∷ spaces
    ∷ literal (codes "(")
    ∷ spaces
    ∷ literal (codes "id")
    ∷ spaces
    ∷ literal (codes ":")
    ∷ spaces
    ∷ literal (codes "u64")
    ∷ spaces
    ∷ literal (codes ",")
    ∷ spaces
    ∷ literal (codes "payload")
    ∷ spaces
    ∷ literal (codes ":")
    ∷ spaces
    ∷ literal (codes "*mut")
    ∷ some_spaces
    ∷ literal (codes "abi::HeartbeatPayload")
    ∷ spaces
    ∷ literal (codes ")")
    ∷ spaces
    ∷ literal (codes "->")
    ∷ spaces
    ∷ literal (codes "u64")
    ∷ spaces
    ∷ literal (codes ";")
    ∷ []

-- `_EXTERN_SYSCALL_CALL`
abbrev pub extern_syscall_call : List Piece
extern_syscall_call = literal (codes "syscall_entry") ∷ spaces ∷ literal (codes "(") ∷ []

abbrev is_found : {A : Type 0} → Option A → Bool
is_found none = false
is_found (some a) = true

-- the entries of `runtime_trap_path_observations` that a validator reads
unfoldable pub has_local_stub : Text → Bool
has_local_stub source = occurs (codes "fn invoke_heartbeat_stub(") source

unfoldable pub has_stub_marker : Text → Bool
has_stub_marker source = occurs (codes "STUB MODE") source

unfoldable pub has_extern_decl : Text → Bool
has_extern_decl source = elim (search extern_body source) [
  | none ↦ false
  | some body ↦ is_found (search (match_pieces extern_syscall_fn) body)
]

unfoldable pub has_extern_call : Text → Bool
has_extern_call source =
    ltb (if has_extern_decl source then 1 else 0)
      (count_from (match_pieces extern_syscall_call) 0 source)

-- `_validate_extern_contract`
unfoldable pub validate_extern_contract : Text → Option ValidationResult
validate_extern_contract source =
    if has_local_stub source
    then some (
        failure_result "local_stub_present" "rust_local_stub"
          "core_service still defines a local heartbeat syscall stub")
    else if has_stub_marker source
    then some (
        failure_result "stub_marker_present" "rust_stub_marker"
          "core_service still advertises STUB MODE after the runtime trap path phase")
    else if not (has_extern_decl source)
    then some (
        failure_result "missing_extern_bridge_declaration" "extern_syscall_entry"
          "core_service must declare extern syscall_entry(id, payload) -> u64")
    else none

-- a block that must be there, and what is asked of it
abbrev pub with_block :
    Text → String → ValidationResult → (Text → Option ValidationResult) → Option ValidationResult
with_block source name missing check = elim (extract_rust_function_block source name) [
  | none ↦ some missing
  | some block ↦ check block
]

-- `_validate_live_heartbeat_block`
unfoldable pub validate_live_heartbeat_block : Text → Option ValidationResult
validate_live_heartbeat_block source =
    with_block source "heartbeat_request"
      (failure_result "missing_live_heartbeat_block" "heartbeat_request"
        "core_service must define the live heartbeat_request path")
      (λ block. ordered_anchor_result block source heartbeat_request_anchors)

-- `_validate_live_nop_block`
unfoldable pub validate_live_nop_block : Text → Option ValidationResult
validate_live_nop_block source =
    with_block source "nop_request"
      (failure_result "missing_live_nop_block" "nop_request"
        "core_service must define the live nop_request path")
      (λ block. first_result (
        forbidden_snippet_result block nop_forbidden_snippets
        ∷ ordered_anchor_result block source nop_request_anchors
        ∷ []))

-- `_validate_live_status_block`
unfoldable pub validate_live_status_block : Text → Option ValidationResult
validate_live_status_block source =
    with_block source "status_request"
      (failure_result "missing_live_status_block" "status_request"
        "core_service must define the live status_request path")
      (λ block. first_result (
        forbidden_snippet_result block status_forbidden_snippets
        ∷ ordered_anchor_result block source status_request_anchors
        ∷ []))

-- `_validate_bridge_helper_block`
unfoldable pub validate_bridge_helper_block : Text → Option ValidationResult
validate_bridge_helper_block source =
    with_block source "invoke_heartbeat_bridge"
      (failure_result "missing_bridge_helper_block" "invoke_heartbeat_bridge"
        "core_service must define the live bridge helper")
      (λ block. required_anchor_result block source bridge_helper_anchors)

-- `_validate_no_payload_bridge_helper_block`
unfoldable pub validate_no_payload_bridge_helper_block : Text → Option ValidationResult
validate_no_payload_bridge_helper_block source =
    with_block source "invoke_no_payload_bridge"
      (failure_result "missing_no_payload_bridge_helper_block" "invoke_no_payload_bridge"
        "core_service must define the live no-payload bridge helper")
      (λ block. first_result (
        forbidden_snippet_result block nop_forbidden_snippets
        ∷ required_anchor_result block source no_payload_bridge_helper_anchors
        ∷ []))

-- `_validate_nop_return_status_block`
unfoldable pub validate_nop_return_status_block : Text → Option ValidationResult
validate_nop_return_status_block source =
    with_block source "validate_nop_return_status"
      (failure_result "missing_nop_return_validation_block" "validate_nop_return_status"
        "core_service must validate the NOP return status")
      (λ block. required_anchor_result block source nop_return_validation_anchors)

-- `_validate_status_return_status_block`
unfoldable pub validate_status_return_status_block : Text → Option ValidationResult
validate_status_return_status_block source =
    with_block source "validate_status_return_status"
      (failure_result "missing_status_return_validation_block" "validate_status_return_status"
        "core_service must validate the STATUS return status")
      (λ block. required_anchor_result block source status_return_validation_anchors)

-- `_validate_core_service_entry_block`
unfoldable pub validate_core_service_entry_block : Text → Option ValidationResult
validate_core_service_entry_block source =
    with_block source "core_service_entry"
      (failure_result "missing_core_service_entry" "core_service_entry"
        "core_service must expose the live entrypoint")
      (λ block. ordered_anchor_result block source core_service_entry_anchors)

abbrev pub trap_path_checks : Text → List (Option ValidationResult)
trap_path_checks source =
    validate_extern_contract source
    ∷ validate_bridge_helper_block source
    ∷ validate_no_payload_bridge_helper_block source
    ∷ validate_nop_return_status_block source
    ∷ validate_status_return_status_block source
    ∷ validate_live_nop_block source
    ∷ validate_live_status_block source
    ∷ validate_live_heartbeat_block source
    ∷ validate_core_service_entry_block source
    ∷ []

abbrev pub or_pass : Option ValidationResult → ValidationResult → ValidationResult
or_pass (some result) passing = result
or_pass none passing = passing

-- `RuntimeTrapPathValidator.validate`
unfoldable pub validate_trap_path : Text → ValidationResult
validate_trap_path source = or_pass (first_result (trap_path_checks source)) (
    pass_ ok_code
      "Rust heartbeat_request, nop_request, and status_request reach the extern syscall_entry bridge with their required payload contracts")
