-- ===== src/Loadability/Layout.antt =====
-- `_load_layout_issue`, in the order of its tests.
use kozo.Base.{
  String, ℕ, Bool, not, ◌&&◌, if◌then◌else◌, Option, none, some, or_else, List, [], ◌∷◌,
}
use kozo.Json.{Json, str, Fields}
use kozo.Json.Equality.{json_eq}
use kozo.Result.{Result, ok, ◌>>=◌}
use kozo.Loadability.Report.{
  Find, Unhashable, issue_if, get, is_true, is_false, is_bool, in_set, nonzero_hex_string,
}

abbrev pub entry_address_classes : List String
entry_address_classes = "zero" ∷ "lower-half" ∷ "higher-half" ∷ []

-- the tests of the addresses
unfoldable pub base_issue : (String → Option ℕ) → Fields → Find
base_issue int_16 report =
    or_else
      (issue_if (not (nonzero_hex_string int_16 (get "minimum_load_virtual_address" report)))
        "missing_load_layout" "minimum_load_virtual_address"
        "Kernel ELF report must record the minimum PT_LOAD virtual address")
      (or_else
        (issue_if (not (nonzero_hex_string int_16 (get "virtual_base" report)))
          "missing_load_layout" "virtual_base"
          "Kernel ELF report must record the kernel virtual base")
        (or_else
          (issue_if
            (not (json_eq (get "virtual_base" report) (get "minimum_load_virtual_address" report)))
            "load_layout_mismatch" "virtual_base"
            "Kernel ELF virtual base must match the minimum PT_LOAD virtual address")
          (or_else
            (issue_if (not (nonzero_hex_string int_16 (get "physical_load_base" report)))
              "missing_load_layout" "physical_load_base"
              "Kernel ELF report must record the physical load base")
            (or_else
              (issue_if
                (not (nonzero_hex_string int_16 (get "minimum_load_physical_address" report)))
                "missing_load_layout" "minimum_load_physical_address"
                "Kernel ELF report must record the minimum PT_LOAD physical address")
              (issue_if
                (not (
                  json_eq (get "physical_load_base" report)
                    (get "minimum_load_physical_address" report)))
                "load_layout_mismatch" "physical_load_base"
                "Kernel ELF physical load base must match the minimum PT_LOAD physical address")))))

-- the tests of the halves, up to the type of `entry_is_lower_half`
unfoldable pub halves_issue : Fields → Find
halves_issue report =
    or_else
      (issue_if (not (is_bool (get "has_lower_half_load_segment" report))) "missing_load_layout"
        "has_lower_half_load_segment"
        "Kernel ELF report must record whether PT_LOAD segments are lower-half")
      (or_else
        (issue_if (not (is_bool (get "all_load_segments_higher_half" report))) "missing_load_layout"
          "all_load_segments_higher_half"
          "Kernel ELF report must record whether all PT_LOAD segments are higher-half")
        (or_else
          (issue_if
            (json_eq (get "all_load_segments_higher_half" report)
              (get "has_lower_half_load_segment" report))
            "load_layout_mismatch" "all_load_segments_higher_half"
            "Kernel ELF higher-half summary must be the inverse of lower-half PT_LOAD detection")
          (issue_if (not (is_bool (get "entry_is_lower_half" report))) "missing_load_layout"
            "entry_is_lower_half"
            "Kernel ELF report must record whether the entry point is lower-half")))

abbrev pub expected_blocker : Json → Json
expected_blocker has_lower = if is_true has_lower then str "limine_lower_half_phdr" else str "none"

-- the tests after the one of the entry's class
unfoldable pub match_issue : Fields → Find
match_issue report =
    or_else
      (issue_if
        (is_true (get "entry_is_lower_half" report)
          && not (json_eq (get "entry_address_class" report) (str "lower-half")))
        "load_layout_mismatch" "entry_address_class"
        "Kernel ELF entry address class must match lower-half entry detection")
      (or_else
        (issue_if
          (is_false (get "entry_is_lower_half" report)
            && json_eq (get "entry_address_class" report) (str "lower-half"))
          "load_layout_mismatch" "entry_address_class"
          "Kernel ELF entry address class must match lower-half entry detection")
        (issue_if
          (not (
            json_eq (get "load_layout_blocker" report)
              (expected_blocker (get "has_lower_half_load_segment" report))))
          "load_layout_mismatch" "load_layout_blocker"
          "Kernel ELF load-layout blocker must match lower-half PT_LOAD detection"))

class_issue : Fields → Bool → Find
class_issue report known =
    or_else
      (issue_if (not known) "missing_load_layout" "entry_address_class"
        "Kernel ELF report must classify the entry address as zero, lower-half, or higher-half")
      (match_issue report)

-- `_load_layout_issue`
unfoldable pub load_layout_issue : (String → Option ℕ) → Fields → Result Unhashable Find
unfolding class_issue
load_layout_issue int_16 report = elim (or_else (base_issue int_16 report) (halves_issue report)) [
  | some i ↦ ok (some i)
  | none ↦ in_set (get "entry_address_class" report) entry_address_classes >>= λ known.
      ok (class_issue report known)
]
