-- ===== src/Schema/Document/Verdict.antt =====
-- What the schema validator passes.
use kozo.Base.{String, Option, none, some, ◌≡◌, refl, ◌↔◌, arith, Option-cases, inl, inr}
use kozo.Json.{Json}
use kozo.Json.Size.{size}
use kozo.Result.{Result, ok, raise, ◌>>◌, Result-cases}
use kozo.Schema.{Check, SchemaError}
use kozo.Schema.Conforms.{Conforms}
use kozo.Schema.Exact.{validate_schema-Conforms}
use kozo.Schema.Document.{SchemaHost, validate_named_document, validate_bundled, verdict, validate}
use kozo.Validator.{Passes, fail-ne-pass}

-- The document is there, its schema is, and it conforms.
abbrev pub IsDocument : SchemaHost → String → Option Json → Type 0
IsDocument host name document =
    (value : Json) × (schema : Json) × (document ≡ some value)
    × (host.read_schema name ≡ some schema)
    × Conforms host.re_search value schema

module _ (host : SchemaHost) where
  named_iff :
      (name : String) (value : Json)
      → (validate_named_document host name value ≡ ok tt) ↔ (
          (schema : Json) × (host.read_schema name ≡ some schema)
          × Conforms host.re_search value schema)
  unfolding validate_named_document
  named_iff name value = elim (Option-cases (host.read_schema name)) [
    | inl e ↦ rw (e, validate_named_document) (λ h. cc, λ (schema, f, c). cc)
    | inr (schema, e) ↦
        let exact =
          validate_schema-Conforms host.re_search (size schema) value schema name (omega arith) in
        rw (e, validate_named_document)
          (
            λ h. (schema, refl, exact.0 h),
            λ (other, f, c). exact.1 (let same : other ≡ schema = cc in rw (← same) c),
          )
  ]

  raised_not_ok : (r : Check) (error : SchemaError) → r ≡ raise error → r ≡ ok tt → ⊥
  raised_not_ok r error e h = cc

  bundled_iff :
      (name : String) (document : Option Json)
      → (validate_bundled host name document ≡ ok tt) ↔ IsDocument host name document
  unfolding validate_bundled
  bundled_iff name none = (λ h. cc, λ (value, schema, e, f, c). cc)
  bundled_iff name (some v) = elim (Result-cases (validate_named_document host name v)) [
    | inl (u, e) ↦
        rw (e, validate_bundled)
          (λ h. let (schema, f, c) = (named_iff name v).0 e in (v, schema, refl, f, c), λ h. refl)
    | inr (error, e) ↦
        rw (e, validate_bundled)
          (
            λ h. cc,
            λ (value, schema, d, f, c). absurd (
                raised_not_ok (validate_named_document host name v) error e
                  ((named_iff name v).1 (schema, f, (let same : value ≡ v = cc in rw (← same) c)))),
          )
  ]

  check_both :
      (m k : Result String (Unit {0}))
      → Passes (verdict host (m >> k)) ↔ ((m ≡ ok tt) × (k ≡ ok tt))
  unfolding verdict
  check_both (ok u) (ok w) = (λ h. (refl, refl), λ h. refl)
  check_both (ok u) (raise e) = (λ h. absurd (fail-ne-pass h), λ h. cc)
  check_both (raise e) k = (λ h. absurd (fail-ne-pass h), λ h. cc)

  -- The schema validator passes exactly when both task documents are in the bundle, both schemas are
  -- there, and each document conforms to its schema.
  pub validate-IsDocument :
      (todo runtime : Option Json)
      → Passes (validate host todo runtime)
        ↔ (IsDocument host "todo" todo × IsDocument host "runtime" runtime)
  unfolding validate
  validate-IsDocument todo runtime =
      let both =
        check_both (validate_bundled host "todo" todo) (validate_bundled host "runtime" runtime) in
      let t = bundled_iff "todo" todo in
      let r = bundled_iff "runtime" runtime in
      (λ h. let (a, b) = both.0 h in (t.0 a, r.0 b), λ (a, b). both.1 (t.1 a, r.1 b))
