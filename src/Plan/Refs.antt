-- ===== src/Plan/Refs.antt =====
-- harness/validators_impl/verification_refs.py
pub mod Verdict
use Prim.Native.String.{◌++◌ as ◌<>◌}
use kozo.Base.{
  false, ℕ, String, Bool, not, length, ◌==◌, if◌then◌else◌, List, [], ◌∷◌, map, Option, none, some,
  or_else, ltb,
}
use mathlib.Core.Option.{get_or}
use kozo.Base.Text.{Text, codes, text_equality}
use kozo.Base.Format.{repr}
use kozo.Invariants.Reference.{fullmatch_ref, resolve_ref}
use kozo.Plan.{TestRun, Verification, Step, Bundle}
use kozo.Registry.{verification_sections}
use kozo.Registry.Codes.{verification_refs_invalid, missing_ref, ok as ok_code}
use kozo.Validator.{ValidationResult, pass_, fail}

-- An element of a verification section.
pub data Entry : Type 0 where
  test : TestRun → Entry
  line : String → Entry

-- `verification.get(section)` at a section of `VERIFICATION_SECTIONS`; the key `baseline_reference`
-- is no section, and holds no list.
unfoldable pub section_entries : Verification → Text → Option (List Entry)
section_entries v section =
    if section == codes "tests_run"
    then some (map test v.tests_run)
    else if section == codes "logs"
    then some (map line v.logs)
    else if section == codes "diffs"
    then some (map line v.diffs)
    else if section == codes "invariants"
    then some (map line v.invariants)
    else if section == codes "expected_behavior"
    then some (map line v.expected_behavior)
    else if section == codes "actual_behavior"
    then some (map line v.actual_behavior)
    else none

invalid_ref : String → ValidationResult
invalid_ref ref =
    fail verification_refs_invalid ("Invalid verification ref " <> repr ref)
      "Use refs that satisfy harness/invariants.py"

-- The section as a string, for the message.
section_name : Text → List String → String
section_name section [] = ""
section_name section (name ∷ names) =
    if section == codes name then name else section_name section names

unresolved_ref : String → Text → ValidationResult
unfolding section_name
unresolved_ref ref section =
    fail missing_ref
      ("Verification ref "
        <> (repr ref
            <> (" does not resolve into verification."
                <> section_name section verification_sections)))
      "Point each step verification ref at an existing verification entry"

-- `isinstance(target, list) and index < len(target)`
abbrev pub in_range : ℕ → Option (List Entry) → Bool
in_range index none = false
in_range index (some entries) = ltb index (length entries)

check_target : Verification → String → Option (Text × ℕ) → Option ValidationResult
unfolding unresolved_ref
check_target v ref none = some (invalid_ref ref)
check_target v ref (some (section, index)) =
    if not (in_range index (section_entries v section))
    then some (unresolved_ref ref section)
    else none

-- the body of the inner loop: the failure that a reference gives
unfoldable pub check_ref : Verification → String → Option ValidationResult
unfolding check_target invalid_ref
check_ref v ref =
    if not (fullmatch_ref (codes ref))
    then some (invalid_ref ref)
    else check_target v ref (resolve_ref (codes ref))

unfoldable pub check_refs : Verification → List String → Option ValidationResult
check_refs v [] = none
check_refs v (ref ∷ refs) = or_else (check_ref v ref) (check_refs v refs)

unfoldable pub check_steps : Verification → List Step → Option ValidationResult
check_steps v [] = none
check_steps v (step ∷ steps) = or_else (check_refs v step.verification_refs) (check_steps v steps)

-- `VerificationRefsValidator.validate`
unfoldable pub validate : Bundle → ValidationResult
validate bundle =
    get_or (check_steps bundle.todo.verification bundle.todo.steps)
      (pass_ ok_code "Verification refs resolve into canonical verification entries")
