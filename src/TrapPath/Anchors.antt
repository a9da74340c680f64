-- ===== src/TrapPath/Anchors.antt =====
-- The checks of anchors and of forbidden snippets in a block, and the failures that they give.
use Prim.Native.String.{◌++◌ as ◌<>◌}
use kozo.Base.{String, if◌then◌else◌, List, [], ◌∷◌, Option, none, some, or_else}
use kozo.Base.Text.{Text}
use kozo.Json.{str}
use kozo.Registry.Codes.{runtime_trap_path_invalid}
use kozo.Source.{occurs, first_missing, first_absent}
use kozo.TrapPath.{RuntimePathAnchor, anchor_text}
use kozo.Validator.{ValidationResult, fail_with}

-- `_failure_result`
unfoldable pub failure_result : String → String → String → ValidationResult
failure_result reason contract_field detail =
    fail_with runtime_trap_path_invalid
      ("Runtime trap path invalid: " <> (reason <> (": " <> (contract_field <> (": " <> detail)))))
      "Keep the live heartbeat_request and nop_request paths routed through the extern syscall_entry bridge"
      (("reason", str reason) ∷ ("contract_field", str contract_field) ∷ [])

-- `_runtime_anchor_failure`
unfoldable pub runtime_anchor_failure : Text → Text → RuntimePathAnchor → ValidationResult
runtime_anchor_failure block source anchor =
    failure_result
      (if occurs (anchor_text anchor) block
        then "out_of_order_runtime_anchor"
        else if occurs (anchor_text anchor) source
        then "dead_snippet_outside_live_path"
        else "missing_runtime_anchor")
      anchor.name anchor.detail

-- `_ordered_anchor_result`
unfoldable pub ordered_anchor_result :
    Text → Text → List RuntimePathAnchor → Option ValidationResult
ordered_anchor_result block source anchors = elim (first_missing anchor_text anchors block) [
  | none ↦ none
  | some anchor ↦ some (runtime_anchor_failure block source anchor)
]

-- `_required_anchor_result`
unfoldable pub required_anchor_result :
    Text → Text → List RuntimePathAnchor → Option ValidationResult
required_anchor_result block source anchors = elim (first_absent anchor_text anchors block) [
  | none ↦ none
  | some anchor ↦ some (runtime_anchor_failure block source anchor)
]

-- `_forbidden_snippet_result`
unfoldable pub forbidden_snippet_result : Text → List RuntimePathAnchor → Option ValidationResult
forbidden_snippet_result block [] = none
forbidden_snippet_result block (snippet ∷ snippets) =
    if occurs (anchor_text snippet) block
    then some (failure_result "forbidden_nop_payload_usage" snippet.name snippet.detail)
    else forbidden_snippet_result block snippets

-- `_first_result`, and the loop that returns the first result that is not `None`
unfoldable pub first_result : List (Option ValidationResult) → Option ValidationResult
first_result [] = none
first_result (result ∷ results) = or_else result (first_result results)
