-- ===== src/Execution.antt =====
-- harness/validators_impl/execution_proof.py: the heartbeat branch of the kernel's dispatcher has its
-- anchors in order, and the serial driver its observations. The two files that it reads are parameters:
-- their texts.
pub mod Verdict
use Prim.Native.String.{◌++◌ as ◌<>◌}
use kozo.Base.{
  ℕ, ◌+◌, ◌-◌, String, Bool, true, false, not, ◌&&◌, ◌||◌, length, ltb, ◌==◌, if◌then◌else◌, List,
  [], ◌∷◌, Option, none, some, take, drop,
}
use kozo.Base.Text.{Text, codes, starts_with, text_equality}
use kozo.Json.{Json, Items, Fields, str, arr, obj, cons, nil, field, end}
use kozo.Registry.Codes.{execution_proof_invalid, ok as ok_code}
use kozo.Source.{occurs, lstrip, strip, splitlines, join_lines, first_missing, first_absent}
use kozo.Validator.{ValidationResult, fail_with}
use kozo.Registry.{pass}

pub record ExecutionSources : Type 0 where
  pub kernel : Text
  pub serial : Text

pub record OrderedAnchor : Type 0 where
  pub name : String
  pub needle : String
  pub detail : String
  pub missing_reason : String

pub record ObservationAnchor : Type 0 where
  pub name : String
  pub needle : String
  pub detail : String

pub record ContractCheck : Type 0 where
  pub name : String
  pub is_ok : Bool
  pub detail : String
  pub reason : String
  pub contract_field : String

abbrev ordered_anchor : String → String → String → String → OrderedAnchor
ordered_anchor name needle detail missing_reason = record {
  name = name;
  needle = needle;
  detail = detail;
  missing_reason = missing_reason;
}

abbrev observation_anchor : String → String → String → ObservationAnchor
observation_anchor name needle detail = record { name = name; needle = needle; detail = detail }

-- `ContractCheck` where it fails, and where it holds
abbrev failing : String → String → String → String → ContractCheck
failing name detail reason contract_field = record {
  name = name;
  is_ok = false;
  detail = detail;
  reason = reason;
  contract_field = contract_field;
}

abbrev holding : String → String → ContractCheck
holding name detail = record {
  name = name;
  is_ok = true;
  detail = detail;
  reason = "";
  contract_field = "";
}

abbrev pub heartbeat_case_label : String
heartbeat_case_label = "case abi.K_SYSCALL_DEBUG_HEARTBEAT:"

abbrev pub heartbeat_execution_anchors : List OrderedAnchor
heartbeat_execution_anchors =
    ordered_anchor "nil_payload_guard" "if payload == nil"
      "heartbeat branch must reject nil payloads before reading request fields" "missing_nil_guard"
    ∷ ordered_anchor "nil_payload_failure" "return abi.K_INVALID"
        "nil payload guard must fail closed with abi.K_INVALID" "missing_nil_guard"
    ∷ ordered_anchor "request_sequence_guard" "if payload.sequence != 0xCAFEFEED"
        "heartbeat branch must validate the incoming request sequence sentinel"
        "missing_request_guard"
    ∷ ordered_anchor "request_sequence_failure" "return abi.K_INVALID"
        "request sequence guard must fail closed with abi.K_INVALID" "missing_request_guard"
    ∷ ordered_anchor "ingress_observation_call"
        "x86_64.serial_log_debug_heartbeat_recv(payload.sequence)"
        "heartbeat branch must emit the ingress execution observation" "missing_observation_call"
    ∷ ordered_anchor "returned_sequence_write" "payload.sequence = 0xCAFEFEEE"
        "heartbeat branch must write the returned sequence sentinel" "missing_mutation"
    ∷ ordered_anchor "returned_timestamp_write" "payload.timestamp = 0xDEADBEEF"
        "heartbeat branch must write the returned timestamp sentinel" "missing_mutation"
    ∷ ordered_anchor "returned_status_bits_write" "payload.status_bits = u32(abi.K_OK)"
        "heartbeat branch must write successful returned status_bits" "missing_mutation"
    ∷ ordered_anchor "egress_observation_call"
        "x86_64.serial_log_debug_heartbeat_time(payload.timestamp)"
        "heartbeat branch must emit the egress execution observation" "missing_observation_call"
    ∷ ordered_anchor "success_return" "return abi.K_OK"
        "heartbeat branch must return abi.K_OK after observations and mutations"
        "missing_success_return"
    ∷ []

abbrev pub serial_observation_anchors : List ObservationAnchor
serial_observation_anchors =
    observation_anchor "serial_recv_observation"
      "serial_write(\"SYSCALL[DEBUG_HEARTBEAT] Recv Seq: 0x\")"
      "serial source must keep the stable ingress heartbeat observation string"
    ∷ observation_anchor "serial_time_observation"
        "serial_write(\"SYSCALL[DEBUG_HEARTBEAT] New Time: 0x\")"
        "serial source must keep the stable egress heartbeat observation string"
    ∷ []

-- `_line_indent`
unfoldable pub line_indent : Text → Text
line_indent line = take (length line - length (lstrip line)) line

-- `_case_line_index`, from an index on
unfoldable pub case_line_index : ℕ → List Text → Text → Option ℕ
case_line_index index [] label = none
case_line_index index (line ∷ lines) label =
    let later = case_line_index (index + 1) lines label in
    if strip line == label then some index else later

abbrev pub ends_case : Text → Text → Bool
ends_case case_indent line =
    not (ltb (length case_indent) (length (line_indent line)))
    && (line_indent line == case_indent
        && (starts_with (codes "case ") (strip line) || strip line == codes "}"))

-- `_case_block_end`, from an index on; `lines` are those from there
unfoldable pub case_block_end : ℕ → Text → List Text → ℕ
case_block_end index case_indent [] = index
case_block_end index case_indent (line ∷ lines) =
    let later = case_block_end (index + 1) case_indent lines in
    if ends_case case_indent line then index else later

abbrev indent_at : ℕ → List Text → Text
indent_at start lines = elim (drop start lines) [ [] ↦ [] | line ∷ rest ↦ line_indent line ]

-- `"\n".join(lines[start + 1:end])`
abbrev pub case_block : ℕ → List Text → Text
case_block start lines =
    let stop = case_block_end (start + 1) (indent_at start lines) (drop (start + 1) lines) in
    join_lines (take (stop - (start + 1)) (drop (start + 1) lines))

-- `_extract_odin_case_block`
unfoldable pub extract_odin_case_block : Text → String → Option Text
extract_odin_case_block source case_label =
    let lines = splitlines source in
    elim (case_line_index 0 lines (codes case_label)) [
      | none ↦ none
      | some start ↦ some (case_block start lines)
    ]

abbrev pub anchor_text : OrderedAnchor → Text
anchor_text anchor = codes anchor.needle

abbrev pub observation_text : ObservationAnchor → Text
observation_text anchor = codes anchor.needle

-- `_execution_anchor_failure`
unfoldable pub execution_anchor_failure : Text → Text → OrderedAnchor → ContractCheck
execution_anchor_failure branch source anchor =
    failing "heartbeat_execution_branch" anchor.detail
      (if occurs (anchor_text anchor) branch
        then "out_of_order_execution_anchor"
        else if occurs (anchor_text anchor) source
        then "dead_snippet_outside_live_branch"
        else anchor.missing_reason)
      anchor.name

-- `_ordered_branch_check`
unfoldable pub ordered_branch_check : Text → Text → ContractCheck
ordered_branch_check branch source =
    elim (first_missing anchor_text heartbeat_execution_anchors branch) [
      | some anchor ↦ execution_anchor_failure branch source anchor
      | none ↦
          holding "heartbeat_execution_branch"
            "kernel/main.odin executes guards, observations, ordered payload mutations, and success return in sequence"
    ]

-- `_heartbeat_execution_check`
unfoldable pub heartbeat_execution_check : Text → ContractCheck
heartbeat_execution_check kernel_source =
    elim (extract_odin_case_block kernel_source heartbeat_case_label) [
      | none ↦
          failing "heartbeat_execution_branch"
            "kernel/main.odin must define the live DEBUG_HEARTBEAT dispatch branch"
            "missing_odin_heartbeat_branch" "heartbeat_debug_branch"
      | some branch ↦ ordered_branch_check branch kernel_source
    ]

-- `_serial_observation_check`
unfoldable pub serial_observation_check : Text → ContractCheck
serial_observation_check serial_source =
    elim (first_absent observation_text serial_observation_anchors serial_source) [
      | some anchor ↦
          failing "serial_observations" anchor.detail "missing_serial_observation" anchor.name
      | none ↦
          holding "serial_observations"
            "kernel/arch/x86_64/serial.odin provides stable heartbeat observation strings"
    ]

-- `_first_failing_check`
unfoldable pub first_failing_check : List ContractCheck → Option ContractCheck
first_failing_check [] = none
first_failing_check (check ∷ checks) =
    if not check.is_ok then some check else first_failing_check checks

-- `_sub_results`
unfoldable pub sub_results : List ContractCheck → Items
sub_results [] = nil
sub_results (check ∷ checks) =
    cons
      (obj (
        field "name" (str check.name) (
          field "status" (str (if check.is_ok then "pass" else "fail"))
            (field "detail" (str check.detail) end))))
      (sub_results checks)

-- `_failure_result`
unfoldable pub failure_result : ContractCheck → List ContractCheck → ValidationResult
failure_result failing_check checks =
    fail_with execution_proof_invalid
      ("Execution proof invalid: "
        <> (failing_check.reason
            <> (": " <> (failing_check.contract_field <> (": " <> failing_check.detail)))))
      "Keep the live Odin heartbeat branch and stable serial observations aligned with the execution proof contract"
      (("reason", str failing_check.reason)
        ∷ ("contract_field", str failing_check.contract_field)
        ∷ ("sub_results", arr (sub_results checks))
        ∷ [])

-- `_execution_proof_result`
unfoldable pub execution_proof_result : ExecutionSources → ValidationResult
execution_proof_result sources =
    let checks : List ContractCheck =
      heartbeat_execution_check sources.kernel ∷ serial_observation_check sources.serial ∷ [] in
    elim (first_failing_check checks) [
      | some failing_check ↦ failure_result failing_check checks
      | none ↦ record {
        status = pass;
        code = ok_code;
        detail =
            "Kernel sources prove the ordered heartbeat execution branch and stable serial observations";
        action = none;
        meta = ("sub_results", arr (sub_results checks)) ∷ [];
      }
    ]
