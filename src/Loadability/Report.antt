-- ===== src/Loadability/Report.antt =====
-- The issues of the kernel ELF report, apart from those of its load layout.
use Prim.Native.String.{◌++◌ as ◌<>◌}
use mathlib.Core.Option.{get_or}
use kozo.Loadability.Contract.{
  common_fields, issue_blockers, build_external_blockers, post_loadability_blockers,
}
use kozo.Base.{
  String, ℕ, suc, Bool, true, false, not, ◌&&◌, contains, ◌==◌, nat_equality, string_equality,
  if◌then◌else◌, Option, none, some, or_else, List, [], ◌∷◌,
}
use kozo.Base.Format.{show_nat}
use kozo.Base.Int.{ℤ, pos}
use kozo.Base.Text.{codes, starts_with}
use kozo.Json.{Json, null, bool, int, str, arr, obj, Items, nil, cons, Fields}
use kozo.Json.Access.{lookup, as_number}
use kozo.Json.Equality.{json_eq, in_items}
use kozo.Result.{Result, ok, raise, ◌>>=◌}

pub record KernelLoadabilityIssue : Type 0 where
  pub reason : String
  pub contract_field : String
  pub detail : String

-- The `TypeError` of asking a set for a list or a dict.
pub data Unhashable : Type 0 where
  unhashable : Unhashable

abbrev pub Find : Type 0
Find = Option KernelLoadabilityIssue

-- `_issue`
unfoldable pub issue : String → String → String → KernelLoadabilityIssue
issue reason contract_field detail = record {
  reason = reason;
  contract_field = contract_field;
  detail = detail;
}

-- `if test: return _issue(...)`, with the field under `kernel_loadability.`
unfoldable pub issue_if : Bool → String → String → String → Find
unfolding issue
issue_if true reason key detail = some (issue reason ("kernel_loadability." <> key) detail)
issue_if false reason key detail = none

-- `report.get(key)`: a key that is missing is `None`.
unfoldable pub get : String → Fields → Json
get key report = get_or (lookup key report) null

abbrev pub is_true : Json → Bool
is_true (bool b) = b
is_true _ = false

abbrev pub is_false : Json → Bool
is_false (bool b) = not b
is_false _ = false

abbrev pub is_bool : Json → Bool
is_bool (bool b) = true
is_bool _ = false

-- `value in set`
unfoldable pub in_set : Json → List String → Result Unhashable Bool
in_set null set = ok false
in_set (bool b) set = ok false
in_set (int n) set = ok false
in_set (str s) set = ok (contains set s)
in_set (arr xs) set = raise unhashable
in_set (obj fs) set = raise unhashable

common_issue_from : Fields → List (String × String) → Find
unfolding get issue_if
common_issue_from report [] = none
common_issue_from report ((key, expected) ∷ fields) =
    or_else
      (issue_if (not (json_eq (get key report) (str expected))) "field_mismatch" key
        ("Kernel ELF report field " <> (key <> (" must be " <> expected))))
      (common_issue_from report fields)

-- `_common_field_issue`
unfoldable pub common_field_issue : Fields → Find
unfolding common_issue_from
common_field_issue report = common_issue_from report common_fields

abbrev nonzero : Option ℕ → Bool
nonzero none = false
nonzero (some n) = not (n == 0)

-- `_nonzero_hex_string`; a text that starts with `0x` has no sign
unfoldable pub nonzero_hex_string : (String → Option ℕ) → Json → Bool
nonzero_hex_string int_16 (str s) = starts_with (codes "0x") (codes s) && nonzero (int_16 s)
nonzero_hex_string int_16 _ = false

abbrev positive : Option ℤ → Bool
positive (some (pos n)) = not (n == 0)
positive _ = false

-- `_positive_int`: a bool is an int
unfoldable pub positive_int : Json → Bool
positive_int v = positive (as_number v)

-- `_entry_issue`
unfoldable pub entry_issue : (String → Option ℕ) → Fields → Find
entry_issue int_16 report =
    or_else
      (issue_if (not (nonzero_hex_string int_16 (get "entry_address" report))) "missing_entry"
        "entry_address" "Kernel ELF report must record a non-zero entry address")
      (or_else
        (issue_if (not (nonzero_hex_string int_16 (get "entry_symbol_address" report)))
          "missing_entry" "entry_symbol_address"
          "Kernel ELF report must record a non-zero _start address")
        (issue_if (not (is_true (get "entry_symbol_matches_entry" report))) "invalid_entry"
          "entry_symbol_matches_entry" "Kernel ELF _start symbol must match the ELF entry point"))

-- `_program_header_issue`
unfoldable pub program_header_issue : Fields → Find
program_header_issue report =
    or_else
      (issue_if (not (positive_int (get "program_header_count" report))) "missing_program_headers"
        "program_header_count" "Kernel ELF must have program headers")
      (issue_if (not (positive_int (get "section_count" report))) "missing_sections" "section_count"
        "Kernel ELF report must record section count")

unfoldable pub is_load_record : Json → Bool
is_load_record (obj segment) = json_eq (get "type" segment) (str "PT_LOAD")
is_load_record _ = false

segments_issue : ℕ → Items → Find
segments_issue index nil = none
segments_issue index (cons segment segments) =
    or_else
      (issue_if (not (is_load_record segment)) "invalid_load_segment"
        ("load_segments." <> show_nat index) "Kernel ELF load segments must be PT_LOAD records")
      (segments_issue (suc index) segments)

no_segments : Find
no_segments =
    issue_if true "missing_load_segments" "load_segments"
      "Kernel ELF must have at least one PT_LOAD segment"

load_segments_issue : Json → Find
unfolding segments_issue no_segments
load_segments_issue (arr (cons segment segments)) = segments_issue 0 (cons segment segments)
load_segments_issue _ = no_segments

-- `_load_segment_issue`
unfoldable pub load_segment_issue : Fields → Find
unfolding load_segments_issue
load_segment_issue report = load_segments_issue (get "load_segments" report)

abbrev empty : Items → Bool
empty nil = true
empty (cons x xs) = false

-- the tests of `_blocker_category_issue` once `issues` is a list
category_of_issues : Fields → Items → Result Unhashable Find
category_of_issues report issues =
    let blocker = get "blocker_category" report in
    let unlisted =
      issue_if
        (json_eq (get "load_layout_blocker" report) (str "limine_lower_half_phdr")
          && not (in_items (str "limine_lower_half_phdr") issues))
        "load_layout_mismatch" "detected_issues"
        "Kernel ELF report must include limine_lower_half_phdr when lower-half PT_LOAD segments are detected" in
    elim unlisted [
      | some i ↦ ok (some i)
      | none ↦
          if empty issues
          then ok (
              issue_if (not (json_eq blocker (str "none"))) "blocker_mismatch" "blocker_category"
                "Kernel ELF report must use blocker_category none when no ELF issues were detected")
          else (in_set blocker issue_blockers >>= λ known. ok (
              issue_if (not known) "blocker_mismatch" "blocker_category"
                "Kernel ELF report blocker must match detected ELF issues"))
    ]

category_issue : Fields → Json → Result Unhashable Find
unfolding category_of_issues
category_issue report (arr issues) = category_of_issues report issues
category_issue report _ = ok (
    issue_if true "field_mismatch" "detected_issues"
      "Kernel ELF report must record detected issues")

-- `_blocker_category_issue`
unfoldable pub blocker_category_issue : Fields → Result Unhashable Find
unfolding category_issue
blocker_category_issue report = category_issue report (get "detected_issues" report)

boot_mismatch : String → Find
boot_mismatch detail = some (issue "blocker_mismatch" "boot_blocker.blocker_category" detail)

-- the third test of `_blocker_report_issue`
unfoldable pub preserved_issue : Json → Json → Result Unhashable Find
unfolding boot_mismatch
preserved_issue report_blocker boot_blocker =
    if json_eq report_blocker (str "none")
    then (in_set boot_blocker post_loadability_blockers >>= λ later. ok (
        if later
        then none
        else boot_mismatch
            "Boot blocker report must preserve the external load blocker when the kernel ELF itself is structurally loadable"))
    else ok none

-- `_blocker_report_issue`
unfoldable pub blocker_report_issue : Fields → Fields → Result Unhashable Find
unfolding boot_mismatch
blocker_report_issue report blocker_report =
    let report_blocker = get "blocker_category" report in
    let boot_blocker = get "blocker_category" blocker_report in
    in_set report_blocker issue_blockers >>= λ is_issue.
    (if is_issue
      then (in_set boot_blocker build_external_blockers >>= λ external. ok (
          if external
          then none
          else if not (json_eq boot_blocker report_blocker)
          then boot_mismatch
              "Boot blocker report must narrow to the kernel ELF issue when the ELF report detects one"
          else none))
      else preserved_issue report_blocker boot_blocker)

values_issue : String → String → Items → List String → Find
values_issue key reason values [] = none
values_issue key reason values (required ∷ rest) =
    or_else
      (issue_if (not (in_items (str required) values)) reason (key <> ("." <> required))
        ("Kernel ELF report field " <> (key <> (" is missing " <> required))))
      (values_issue key reason values rest)

list_issue : String → String → List String → Json → Find
unfolding values_issue
list_issue key reason required (arr values) = values_issue key reason values required
list_issue key reason required _ =
    issue_if true reason key ("Kernel ELF report field " <> (key <> " must be a list"))

-- `_list_contract_issue`
unfoldable pub list_contract_issue : Fields → String → List String → String → Find
unfolding list_issue
list_contract_issue report key required reason = list_issue key reason required (get key report)
