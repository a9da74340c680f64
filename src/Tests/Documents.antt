-- ===== src/Tests/Documents.antt =====
-- Documents against schemas, texts and references.
use kozo.Base.{◌≤◌, String, Bool, true, false, ◌≡◌, ◌≢◌, ◌↔◌, refl, arith, none, some}
use kozo.Base.Int.{pos}
use kozo.Base.Text.{Text, codes}
use kozo.Json.{Json, int, str, arr, obj, cons, nil, field, end}
use kozo.Json.Size.{size}
use kozo.Result.{ok, raise}
use kozo.Invariants.{fullmatch_nonempty, search_nonempty}
use kozo.Invariants.Agreement.{Matches, nonempty_regex, HasMatch, nonempty-Matches}
use kozo.Invariants.Reference.{resolve_ref}
use kozo.Invariants.Reference.Shape.{IsRef, resolve_ref-IsRef}
use kozo.Schema.{validate_schema, out_of_fuel}
use kozo.Schema.Conforms.{Conforms}
use kozo.Schema.Exact.{validate_schema-Conforms}
use kozo.Schema.Total.{validate_schema-ends}
use kozo.Schema.Document.{SchemaHost, validate}
use kozo.Schema.Document.Verdict.{IsDocument, validate-IsDocument}
use kozo.Validator.{Passes}

-- A non-empty array of texts.
abbrev list_schema : Json
list_schema = obj (
    field "type" (str "array")
      (field "minItems" (int (pos 1)) (field "items" (obj (field "type" (str "string") end)) end)))

abbrev document : Json
document = arr (cons (str "a") (cons (str "b") nil))

abbrev search : String → String → Bool
search pattern text = true

abbrev host : SchemaHost
host = record {
  re_search = search;
  read_schema = λ name. some list_schema;
  describe = λ e. "schema error";
}

enough : size list_schema ≤ 10
unfolding size
enough = omega arith

validate_schema-Conforms_example :
    (validate_schema search 10 document list_schema "doc" ≡ ok tt)
    ↔ Conforms search document list_schema
validate_schema-Conforms_example =
    validate_schema-Conforms search 10 document list_schema "doc" enough

validate_schema-ends_example :
    validate_schema search 10 document list_schema "doc" ≢ raise out_of_fuel
validate_schema-ends_example = validate_schema-ends search 10 document list_schema "doc" enough

validate-IsDocument_example :
    Passes (validate host (some document) none)
    ↔ (IsDocument host "todo" (some document) × IsDocument host "runtime" none)
validate-IsDocument_example = validate-IsDocument host (some document) none

abbrev two_lines : Text
two_lines = codes "first\nsecond"

nonempty-Matches_example :
    ((fullmatch_nonempty two_lines ≡ true) ↔ Matches nonempty_regex two_lines)
    × ((search_nonempty two_lines ≡ true) ↔ HasMatch nonempty_regex two_lines)
nonempty-Matches_example = nonempty-Matches two_lines

-- The schema check finds a text there, and the invariant does not.
two_lines-found : search_nonempty two_lines ≡ true
unfolding search_nonempty
two_lines-found = refl

two_lines-refused : fullmatch_nonempty two_lines ≡ false
unfolding fullmatch_nonempty
two_lines-refused = refl

abbrev reference : Text
reference = codes "verification.tests_run[12]"

resolve_ref-IsRef_example :
    (resolve_ref reference ≡ some (codes "tests_run", 12)) ↔ IsRef reference (codes "tests_run") 12
resolve_ref-IsRef_example = resolve_ref-IsRef reference (codes "tests_run") 12
