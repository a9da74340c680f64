-- ===== src/Loadability.antt =====
-- harness/validators_impl/kernel_loadability.py: the check of the kernel ELF report against its contract
-- and against the boot blocker report.
pub mod Contract
pub mod Report
pub mod Layout
use Prim.Native.String.{◌++◌ as ◌<>◌}
use kozo.Base.{String, ℕ, Option, none, some, or_else, List, [], ◌∷◌}
use kozo.Json.{Json, null, bool, int, str, arr, obj, Fields}
use kozo.Registry.Codes.{kernel_loadability_invalid, ok as ok_code}
use kozo.Result.{Result, ok, raise, ◌>>=◌}
use kozo.Validator.{ValidationResult, pass_, fail_with}
use Contract.{required_non_claims}
use Report.{
  KernelLoadabilityIssue, Unhashable, Find, issue, common_field_issue, entry_issue,
  program_header_issue, load_segment_issue, blocker_category_issue, list_contract_issue,
  blocker_report_issue,
}
use Layout.{load_layout_issue}

-- What reading one of the two files gives.
pub data Loaded : Type 0 where
  missing not_json : Loaded
  document : Json → Loaded

invalid_report : String → String → KernelLoadabilityIssue
unfolding issue
invalid_report path contract_field =
    issue "invalid_report" contract_field
      ("Kernel ELF loadability report must be a JSON object: " <> path)

-- `_load_json`: the issue, or the dict
unfoldable pub load_json : String → String → Loaded → Result KernelLoadabilityIssue Fields
unfolding issue invalid_report
load_json path contract_field missing =
    raise
      (issue "missing_report" contract_field ("Missing kernel ELF loadability report: " <> path))
load_json path contract_field not_json = raise (
    issue "invalid_report" contract_field
      ("Kernel ELF loadability report is not valid JSON: " <> path))
load_json path contract_field (document (obj fields)) = ok fields
load_json path contract_field (document null) = raise (invalid_report path contract_field)
load_json path contract_field (document (bool b)) = raise (invalid_report path contract_field)
load_json path contract_field (document (int n)) = raise (invalid_report path contract_field)
load_json path contract_field (document (str s)) = raise (invalid_report path contract_field)
load_json path contract_field (document (arr xs)) = raise (invalid_report path contract_field)

-- `int(text, 16)` is Python's; `none` is its `ValueError`.
module _ (int_16 : String → Option ℕ) where
  -- the call of `_first_issue`: all of its arguments are evaluated first
  unfoldable pub first_issue : Fields → Fields → Result Unhashable (Option KernelLoadabilityIssue)
  first_issue report blocker_report = do
    layout ← load_layout_issue int_16 report
    category ← blocker_category_issue report
    boot ← blocker_report_issue report blocker_report
    ok (
        or_else (common_field_issue report) (
          or_else (entry_issue int_16 report) (
            or_else (program_header_issue report) (
              or_else (load_segment_issue report) (
                or_else layout (
                  or_else category (
                    or_else
                      (list_contract_issue report "does_not_prove" required_non_claims
                        "missing_non_goal")
                      boot)))))))

  -- `_kernel_loadability_issue`, on the two files and their paths
  unfoldable pub kernel_loadability_issue :
      String → String → Loaded → Loaded → Result Unhashable (Option KernelLoadabilityIssue)
  kernel_loadability_issue report_path blocker_path report blocker_report =
      elim (load_json report_path "kernel_loadability.report" report) [
        | raise i ↦ ok (some i)
        | ok fields ↦ elim (load_json blocker_path "boot_blocker.report" blocker_report) [
          | raise i ↦ ok (some i)
          | ok blocker_fields ↦ first_issue fields blocker_fields
        ]
      ]

  failure : KernelLoadabilityIssue → ValidationResult
  failure i =
      fail_with kernel_loadability_invalid i.detail
        "Run scripts/build_boot_image.sh and keep kernel ELF loadability evidence aligned with the boot blocker report"
        (("reason", str i.reason) ∷ ("contract_field", str i.contract_field) ∷ [])

  verdict_of : Option KernelLoadabilityIssue → ValidationResult
  unfolding failure
  verdict_of (some i) = failure i
  verdict_of none =
      pass_ ok_code
        "Kernel ELF loadability report proves entry, architecture, and PT_LOAD structure without claiming boot"

  -- `KernelLoadabilityValidator.validate`
  unfoldable pub validate_loadability :
      String → String → Loaded → Loaded → Result Unhashable ValidationResult
  unfolding verdict_of
  validate_loadability report_path blocker_path report blocker_report = do
    found ← kernel_loadability_issue report_path blocker_path report blocker_report
    ok (verdict_of found)
