-- ===== src/Aggregator/Report.antt =====
-- What an artifact of `run_aggregator` says of the checks.
use kozo.Base.{suc, ◌≡◌, refl, ◌∙◌, ap, length, All, string_equality, List, [], ◌∷◌, some, arith}
use kozo.Json.{Json, Items, Fields}
use kozo.Json.Size.{size}
use kozo.Registry.{summary_subsystem_generic, pass, fail}
use kozo.Registry.Codes.{ok as ok_code}
use kozo.Result.{ok}
use kozo.Schema.Document.{SchemaHost, validate_named_document}
use kozo.Schema.Conforms.{Conforms}
use kozo.Schema.Exact.{validate_schema-Conforms}
use kozo.Aggregator.Types.{Validator, CheckEntry, FailedCheck, Artifact}
use kozo.Aggregator.Registration.{expected_order}
use kozo.Aggregator.Artifact.{artifact_json, summary_of}
use kozo.Aggregator.Pipeline.{run_aggregator}
use kozo.Aggregator.Entries.{IsCanonical}
use kozo.Aggregator.Outcome.{
  names, Mirrors, failing, names-Come, IsCanonical-Come, failed-Mirrors, run_aggregator-Ran,
}

-- The status and summary of an artifact, by the checks that fail.
abbrev pub Summarizes : Artifact → List CheckEntry → Type 0
Summarizes a [] =
    (a.status ≡ pass)
    × (a.summary_code ≡ ok_code)
    × (a.summary_subsystem ≡ summary_subsystem_generic)
Summarizes a (c ∷ cs) =
    (a.status ≡ fail) × (a.summary_code ≡ c.code) × (a.summary_subsystem ≡ c.subsystem)

Summarizes-Mirrors :
    (a : Artifact) (fs : List FailedCheck) (cs : List CheckEntry)
    → Mirrors fs cs
    → a.status ≡ (summary_of fs).0
    → a.summary_code ≡ (summary_of fs).1
    → a.summary_subsystem ≡ (summary_of fs).2
    → Summarizes a cs
unfolding summary_of
Summarizes-Mirrors a [] [] m s c t = (s, c, t)
Summarizes-Mirrors a [] (d ∷ cs) m s c t = absurd m
Summarizes-Mirrors a (f ∷ fs) [] m s c t = absurd m
Summarizes-Mirrors a (f ∷ fs) (d ∷ cs) m s c t = (s, c ∙ m.0.code, t ∙ m.0.subsystem)

length-Mirrors :
    (fs : List FailedCheck) (cs : List CheckEntry) → Mirrors fs cs → length fs ≡ length cs
length-Mirrors [] [] m = refl
length-Mirrors [] (d ∷ cs) m = absurd m
length-Mirrors (f ∷ fs) [] m = absurd m
length-Mirrors (f ∷ fs) (d ∷ cs) m = ap suc (length-Mirrors fs cs m.1)

module _ (host : SchemaHost) (validators : List Validator) (bundle : Fields)
    (changed evidence : Items) (run_id generated : Json) (a : Artifact)
    (returns : run_aggregator host validators bundle changed evidence run_id generated ≡ ok a) where
  -- The checks of an artifact are the canonical checks, each once and in order, and each is
  -- canonical: in its subsystem, with a known code, `OK` exactly where it passes, and a detail.
  pub run_aggregator-IsCanonical : (names a.checks ≡ expected_order) × All IsCanonical a.checks
  run_aggregator-IsCanonical =
      let r =
        run_aggregator-Ran host validators bundle changed evidence run_id generated a returns in
      rw r.checks (
        names-Come r.raw r.normalized r.come ∙ r.in_order,
        IsCanonical-Come r.raw r.normalized r.come,
      )

  -- The failed checks of an artifact repeat its checks with the status `fail`, in order.
  pub run_aggregator-Mirrors : Mirrors a.failed_checks (failing a.checks)
  run_aggregator-Mirrors =
      let r =
        run_aggregator-Ran host validators bundle changed evidence run_id generated a returns in
      rw r.failed_checks (rw r.checks (failed-Mirrors r.raw r.normalized r.come))

  -- The artifact conforms to the schema `latest_verify`.
  pub run_aggregator-Conforms :
      (schema : Json)
      → host.read_schema "latest_verify" ≡ some schema
      → Conforms host.re_search (artifact_json a) schema
  unfolding validate_named_document
  run_aggregator-Conforms schema e =
      let r =
        run_aggregator-Ran host validators bundle changed evidence run_id generated a returns in
      (validate_schema-Conforms host.re_search (size schema) (artifact_json a) schema
          "latest_verify" (omega arith)).0
        (rw (e, validate_named_document) at r.valid)

  -- The artifact counts all checks and the failing ones; it passes exactly when none fails, and
  -- otherwise its summary is the code and the subsystem of the first check that fails.
  pub run_aggregator-Summarizes :
      Summarizes a (failing a.checks)
      × (a.total_checks ≡ length a.checks)
      × (a.failed_check_count ≡ length (failing a.checks))
  run_aggregator-Summarizes =
      let r =
        run_aggregator-Ran host validators bundle changed evidence run_id generated a returns in
      (
        Summarizes-Mirrors a a.failed_checks (failing a.checks) run_aggregator-Mirrors r.summary.0
            r.summary.1 r.summary.2,
        r.totals.0,
        r.totals.1 ∙ length-Mirrors a.failed_checks (failing a.checks) run_aggregator-Mirrors,
      )
