-- ===== src/Summary/Next.antt =====
-- The references of the current step and the commands that they name:
-- `_resolve_verification_ref`, `_build_next_verification` and `_extract_next_commands`.
use kozo.Base.{
  ℕ, String, not, contains, ◌==◌, string_equality, get_elem?, if◌then◌else◌, List, [], ◌∷◌, ◌++◌,
  Option, none, some,
}
use kozo.Base.Int.{ℤ}
use kozo.Base.Text.{Text, codes, text_equality}
use kozo.Invariants.Reference.{resolve_ref}
use kozo.Plan.{Step, Todo}
use kozo.Plan.Refs.{Entry, test, line, section_entries}
use kozo.Result.{Result, ok, raise, ◌>>=◌}
use kozo.Schema.{SchemaError}

-- The `ValueError`s and `KeyError` of the module, and the exception of the schema check.
pub data SummaryError : Type 0 where
  step_not_found : ℤ → SummaryError
  invalid_ref : String → SummaryError
  no_section : Text → SummaryError
  ref_out_of_range : String → SummaryError
  bad_context : SchemaError → SummaryError

abbrev pub Resolved : Type 0
Resolved = Text × Entry

unfoldable pub entry_at : String → Text → ℕ → List Entry → Result SummaryError Resolved
entry_at ref section index entries = elim (get_elem? entries index) [
  | none ↦ raise (ref_out_of_range ref)
  | some entry ↦ ok (section, entry)
]

unfoldable pub resolve_at : Todo → String → Option (Text × ℕ) → Result SummaryError Resolved
unfolding entry_at
resolve_at todo ref none = raise (invalid_ref ref)
resolve_at todo ref (some (section, index)) = elim (section_entries todo.verification section) [
  | none ↦ raise (no_section section)
  | some entries ↦ entry_at ref section index entries
]

-- `_resolve_verification_ref`: the section and the value
unfoldable pub resolve_verification_ref : Todo → String → Result SummaryError Resolved
resolve_verification_ref todo ref = resolve_at todo ref (resolve_ref (codes ref))

-- The list after its set of seen elements was asked.
unfoldable pub add_new : List String → String → List String
add_new seen s = if contains seen s then seen else (seen ++ (s ∷ []))

unfoldable pub next_refs : Todo → List String → List String → Result SummaryError (List String)
next_refs todo seen [] = ok seen
next_refs todo seen (ref ∷ refs) =
    resolve_verification_ref todo ref >>= λ _. next_refs todo (add_new seen ref) refs

-- `_build_next_verification`
unfoldable pub build_next_verification : Todo → Step → Result SummaryError (List String)
unfolding next_refs
build_next_verification todo step = next_refs todo [] step.verification_refs

-- The commands after one resolved reference. The entries of `tests_run` are the test runs.
unfoldable pub add_command : List String → Resolved → List String
unfolding add_new
add_command commands (section, line s) = commands
add_command commands (section, test t) =
    if not (section == codes "tests_run") then commands else add_new commands t.command

unfoldable pub next_commands : Todo → List String → List String → Result SummaryError (List String)
next_commands todo commands [] = ok commands
next_commands todo commands (ref ∷ refs) = resolve_verification_ref todo ref >>= λ resolved.
    next_commands todo (add_command commands resolved) refs

-- `_extract_next_commands`
unfoldable pub extract_next_commands : Todo → List String → Result SummaryError (List String)
unfolding next_commands
extract_next_commands todo refs = next_commands todo [] refs
