-- ===== src/ReturnPath.antt =====
-- harness/validators_impl/return_path_proof.py: the service validates what the kernel writes through the
-- payload pointer. The two files that it reads are parameters: their texts, and `root` is the path of
-- the repository.
pub mod Verdict
use Prim.Native.String.{◌++◌ as ◌<>◌}
use kozo.Base.{
  ℕ, zero, suc, ◌+◌, String, Bool, true, false, not, ◌||◌, ltb, filter, if◌then◌else◌, List, [],
  ◌∷◌, Option, none, some,
}
use kozo.Base.Text.{Text, codes}
use kozo.Json.{str}
use kozo.Registry.Codes.{return_path_proof_invalid, ok as ok_code}
use kozo.Source.{occurs, splitlines}
use kozo.TrapPath.Anchors.{first_result}
use kozo.TrapPath.Validate.{has_local_stub, has_extern_decl, has_extern_call, or_pass}
use kozo.Validator.{ValidationResult, pass_, fail, fail_with}

pub record RequiredAnchor : Type 0 where
  pub name : String
  pub needle : String
  pub detail : String
  pub source_path : String

abbrev anchor : String → String → String → String → RequiredAnchor
anchor name needle detail source_path = record {
  name = name;
  needle = needle;
  detail = detail;
  source_path = source_path;
}

abbrev pub anchor_text : RequiredAnchor → Text
anchor_text a = codes a.needle

-- `_line_index`, from an index on; `none` is the -1 of the source
unfoldable pub line_index : ℕ → List Text → Text → Option ℕ
line_index index [] needle = none
line_index index (line ∷ lines) needle =
    let later = line_index (index + 1) lines needle in
    if occurs needle line then some index else later

-- `status_call_index >= 0 and validation_call_index > status_call_index`
abbrev pub comes_after : Option ℕ → Option ℕ → Bool
comes_after none validation = false
comes_after (some call) none = false
comes_after (some call) (some validation) = ltb call validation

module _ (root : String) where
  abbrev rust_main : String
  rust_main = root <> "/userspace/core_service/src/main.rs"

  abbrev kernel_main : String
  kernel_main = root <> "/kernel/main.odin"

  -- `_rust_return_path_anchors`
  abbrev pub rust_return_path_anchors : List RequiredAnchor
  rust_return_path_anchors =
      anchor "rust_failure_helper" "fn fail_heartbeat_contract() -> !"
        "Rust must provide a heavy failure path for return-path violations" rust_main
      ∷ anchor "rust_returned_status_check" "if status != abi::K_OK"
          "Rust must explicitly check the returned status against abi::K_OK" rust_main
      ∷ anchor "rust_returned_sequence_check" "if payload.sequence != 0xCAFEFEEE"
          "Rust must validate the returned payload sequence against 0xCAFEFEEE" rust_main
      ∷ anchor "rust_returned_timestamp_check" "if payload.timestamp != 0xDEADBEEF"
          "Rust must validate the returned payload timestamp against 0xDEADBEEF" rust_main
      ∷ anchor "rust_returned_status_bits_check" "if payload.status_bits != abi::K_OK"
          "Rust must validate returned status_bits against abi::K_OK" rust_main
      ∷ anchor "rust_failure_panic" "panic!(\"heartbeat return path contract violated\")"
          "Rust must make return-path violations fail closed" rust_main
      ∷ anchor "rust_failure_call" "fail_heartbeat_contract();"
          "Rust must call the heavy failure path when the return-path contract is violated"
          rust_main
      ∷ []

  -- `_odin_return_path_anchors`
  abbrev pub odin_return_path_anchors : List RequiredAnchor
  odin_return_path_anchors =
      anchor "odin_returned_sequence_write" "payload.sequence = 0xCAFEFEEE"
        "Odin must write the returned heartbeat sequence through the payload pointer" kernel_main
      ∷ anchor "odin_returned_timestamp_write" "payload.timestamp = 0xDEADBEEF"
          "Odin must update the payload timestamp through the payload pointer" kernel_main
      ∷ anchor "odin_returned_status_bits_write" "payload.status_bits = u32(abi.K_OK)"
          "Odin must write successful status_bits through the payload pointer" kernel_main
      ∷ []

-- `_missing_required_anchors`
unfoldable pub missing_required_anchors : Text → List RequiredAnchor → List RequiredAnchor
missing_required_anchors source anchors = filter (λ a. not (occurs (anchor_text a) source)) anchors

-- `_missing_anchor_result`
unfoldable pub missing_anchor_result : RequiredAnchor → ValidationResult
missing_anchor_result a =
    fail_with return_path_proof_invalid
      ("Return path proof invalid: missing " <> (a.name <> (": " <> a.detail)))
      "Keep the Rust and Odin sources explicit about the returned heartbeat payload contract"
      (("missing_anchor", str a.name) ∷ ("source_path", str a.source_path) ∷ [])

abbrev first_missing_result : List RequiredAnchor → Option ValidationResult
first_missing_result [] = none
first_missing_result (a ∷ missing) = some (missing_anchor_result a)

-- `_validate_required_anchors`
unfoldable pub validate_required_anchors : Text → List RequiredAnchor → Option ValidationResult
validate_required_anchors source anchors =
    first_missing_result (missing_required_anchors source anchors)

-- `_validate_trap_path`
unfoldable pub validate_bridge : Text → Option ValidationResult
validate_bridge rust_source =
    if has_local_stub rust_source
    then some (
        fail return_path_proof_invalid
          "Return path proof invalid: core_service still defines a local heartbeat syscall stub"
          "Remove the local Rust stub before proving the return path")
    else if not (has_extern_decl rust_source) || not (has_extern_call rust_source)
    then some (
        fail return_path_proof_invalid
          "Return path proof invalid: core_service must declare and call extern syscall_entry before proving returned payload mutations"
          "Keep the Rust side on the exercised extern \"C\" syscall_entry bridge path")
    else none

abbrev pub status_call : Text
status_call = codes "let status = invoke_heartbeat_bridge(syscall, &mut payload);"

abbrev pub validation_call : Text
validation_call = codes "return validate_heartbeat_return_path(status, &payload);"

-- `_validate_post_call_order`
unfoldable pub validate_post_call_order : Text → Option ValidationResult
validate_post_call_order rust_source =
    let rust_lines = splitlines rust_source in
    if comes_after (line_index 0 rust_lines status_call) (line_index 0 rust_lines validation_call)
    then none
    else some (
        fail return_path_proof_invalid
          "Return path proof invalid: Rust does not validate the payload after syscall_entry returns"
          "Validate the returned payload after the bridge call completes")

module _ (root : String) where
  abbrev pub return_path_checks : Text → Text → List (Option ValidationResult)
  return_path_checks rust_source kernel_source =
      validate_bridge rust_source
      ∷ validate_post_call_order rust_source
      ∷ validate_required_anchors rust_source (rust_return_path_anchors root)
      ∷ validate_required_anchors kernel_source (odin_return_path_anchors root)
      ∷ []

  -- `ReturnPathProofValidator.validate`
  unfoldable pub validate_return_path : Text → Text → ValidationResult
  validate_return_path rust_source kernel_source =
      or_pass (first_result (return_path_checks rust_source kernel_source)) (
        pass_ ok_code
          "Rust validates returned payload mutations after syscall_entry and Odin writes those mutations through the payload pointer")
