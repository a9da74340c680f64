-- ===== src/Schema/Document.antt =====
-- `validate_named_document` and `SchemaValidator` of harness/validators_impl/schema.py.
pub mod Verdict
use Prim.Native.String.{◌++◌ as ◌<>◌}
use kozo.Base.{String, Bool, Option, none, some}
use kozo.Json.{Json}
use kozo.Json.Size.{size}
use kozo.Registry.Codes.{schema_invalid, ok as ok_code}
use kozo.Result.{Result, ok, raise, ◌>>=◌, ◌>>◌}
use kozo.Schema.{Check, SchemaError, unknown_document, validate_schema}
use kozo.Validator.{ValidationResult, pass_, fail}

-- What the module takes from Python's library and from disk: the regular-expression search, the
-- schema documents by name, and the text of an exception.
pub record SchemaHost : Type 0 where
  pub re_search : String → String → Bool
  pub read_schema : String → Option Json
  pub describe : SchemaError → String

module _ (host : SchemaHost) where
  -- `validate_named_document`
  unfoldable pub validate_named_document : String → Json → Check
  validate_named_document name value = elim (host.read_schema name) [
    | none ↦ raise (unknown_document name)
    | some schema ↦ validate_schema host.re_search (size schema) value schema name
  ]

  -- a document of the bundle, or the `KeyError`
  validate_bundled : String → Option Json → Result String (Unit {0})
  validate_bundled name none = raise ("'" <> (name <> "'"))
  validate_bundled name (some document) = elim (validate_named_document name document) [
    | ok u ↦ ok u
    | raise e ↦ raise (host.describe e)
  ]

  verdict : Result String (Unit {0}) → ValidationResult
  verdict (raise message) =
      fail schema_invalid ("Schema validation failed: " <> message)
        "Align the task artifacts with schemas/*.schema.json"
  verdict (ok u) = pass_ ok_code "Task artifacts satisfy the declared schemas"

  -- `SchemaValidator.validate` on `artifact_bundle["todo"]` and `artifact_bundle["runtime"]`
  unfoldable pub validate : Option Json → Option Json → ValidationResult
  unfolding validate_bundled verdict
  validate todo runtime =
      verdict (validate_bundled "todo" todo >> validate_bundled "runtime" runtime)
