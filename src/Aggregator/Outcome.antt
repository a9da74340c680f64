-- ===== src/Aggregator/Outcome.antt =====
-- What an artifact of `run_aggregator` says.
use kozo.Base.{
  ◌≡◌, refl, sym, ap, inl, inr, String, true, false, length, All, ◌==◌, string_equality, eq_iff,
  List, [], ◌∷◌, map, filter, arith,
}
use kozo.Json.{Json, Items, Fields}
use kozo.Registry.{pass, fail}
use kozo.Result.{ok, >>=-eq-ok, ok-injective, Result-cases}
use kozo.Schema.Document.{SchemaHost, validate_named_document}
use kozo.Aggregator.Types.{Validator, CheckEntry, FailedCheck, Normalized, RawResult, Artifact}
use kozo.Aggregator.Registration.{expected_order, build_validator_map}
use kozo.Aggregator.Normalize.{normalize_result, normalize_all, failed_projections}
use kozo.Aggregator.Collect.{text_lists_equal, collect, collect_results, build_validation_bundle}
use kozo.Aggregator.Artifact.{artifact_json, make_artifact, build_artifact, summary_of}
use kozo.Aggregator.Inputs.{validate_nonempty_string, validate_string_list}
use kozo.Aggregator.Pipeline.{run_aggregator}
use kozo.Aggregator.Entries.{IsCanonical, Projects, Normalizes, normalize_result-Normalizes}

abbrev pub check_of : Normalized → CheckEntry
check_of n = n.check

abbrev pub checks_of : List Normalized → List CheckEntry
checks_of = map check_of

abbrev pub raw_names : List RawResult → List String
raw_names = map (λ (r : RawResult). r.name)

abbrev pub names : List CheckEntry → List String
names = map (λ (c : CheckEntry). c.name)

-- The entries came from results, one for each, in order.
abbrev pub Come : List RawResult → List Normalized → Type 0
Come [] [] = Unit
Come (r ∷ rs) (n ∷ ns) = Normalizes r.name r.subsystem r.result n × Come rs ns
Come _ _ = ⊥

normalize_all-Come :
    (raw : List RawResult) (ns : List Normalized) → normalize_all raw ≡ ok ns → Come raw ns
unfolding normalize_all
normalize_all-Come [] [] h = tt
normalize_all-Come [] (n ∷ ns) h = cc
normalize_all-Come (r ∷ raw) ns h =
    let (n, e, h₁) = >>=-eq-ok (normalize_result r.name r.subsystem r.result) _ h in
    let (rest, f, h₂) = >>=-eq-ok (normalize_all raw) _ h₁ in
    rw (← ok-injective (n ∷ rest) ns h₂)
      (normalize_result-Normalizes r.name r.subsystem r.result n e, normalize_all-Come raw rest f)

pub names-Come :
    (raw : List RawResult) (ns : List Normalized)
    → Come raw ns
    → names (checks_of ns) ≡ raw_names raw
names-Come [] [] c = refl
names-Come [] (n ∷ ns) c = absurd c
names-Come (r ∷ raw) [] c = absurd c
names-Come (r ∷ raw) (n ∷ ns) c = cc (c.0.name, names-Come raw ns c.1)

pub IsCanonical-Come :
    (raw : List RawResult) (ns : List Normalized) → Come raw ns → All IsCanonical (checks_of ns)
IsCanonical-Come [] [] c = tt
IsCanonical-Come [] (n ∷ ns) c = absurd c
IsCanonical-Come (r ∷ raw) [] c = absurd c
IsCanonical-Come (r ∷ raw) (n ∷ ns) c = (c.0.canonical, IsCanonical-Come raw ns c.1)

-- The failed checks stand for the checks with the status `fail`, in order.
abbrev pub Mirrors : List FailedCheck → List CheckEntry → Type 0
Mirrors [] [] = Unit
Mirrors (f ∷ fs) (c ∷ cs) = Projects f c × Mirrors fs cs
Mirrors _ _ = ⊥

abbrev pub failing : List CheckEntry → List CheckEntry
failing = filter (λ (c : CheckEntry). c.status == fail)

pass-not_fail : (status : String) → status ≡ pass → (status == fail) ≡ false
pass-not_fail status e = rw e refl

pub failed-Mirrors :
    (raw : List RawResult) (ns : List Normalized)
    → Come raw ns
    → Mirrors (failed_projections ns) (failing (checks_of ns))
unfolding failed_projections
failed-Mirrors [] [] c = tt
failed-Mirrors [] (n ∷ ns) c = absurd c
failed-Mirrors (r ∷ raw) [] c = absurd c
failed-Mirrors (r ∷ raw) (n ∷ ns) (here, later) = elim here.canonical.agrees [
  | inl (p, _) ↦
      let test : (n.check.status == fail) ≡ false = pass-not_fail n.check.status p in
      rw (here.passes p, failed_projections) (rw test (failed-Mirrors raw ns later))
  | inr (f, _) ↦
      let (projection, e, same) = here.fails f in
      let test : (n.check.status == fail) ≡ true = (eq_iff n.check.status fail).1 f in
      rw (e, failed_projections) (rw test (same, failed-Mirrors raw ns later))
]

text_lists_equal-eq : (xs ys : List String) → text_lists_equal xs ys ≡ true → xs ≡ ys
unfolding text_lists_equal
text_lists_equal-eq [] [] h = refl
text_lists_equal-eq [] (y ∷ ys) h = cc
text_lists_equal-eq (x ∷ xs) [] h = cc
text_lists_equal-eq (x ∷ xs) (y ∷ ys) h = ground (arith, eq_iff x y, text_lists_equal-eq xs ys)

collect_results-names :
    (validators : List Validator) (bundle : Fields) (raw : List RawResult)
    → collect_results validators bundle ≡ ok raw
    → raw_names raw ≡ expected_order
unfolding collect_results
collect_results-names validators bundle raw h =
    let (registered, _, h₁) = >>=-eq-ok (build_validator_map validators) _ h in
    let (collected, _, h₂) = >>=-eq-ok (collect registered bundle expected_order) _ h₁ in
    text_lists_equal-eq (raw_names raw) expected_order (ground arith)

-- What a run that returns went through.
pub record Ran (host : SchemaHost) (a : Artifact) : Type 0 where
  pub raw : List RawResult
  pub normalized : List Normalized
  pub in_order : raw_names raw ≡ expected_order
  pub come : Come raw normalized
  pub checks : a.checks ≡ checks_of normalized
  pub failed_checks : a.failed_checks ≡ failed_projections normalized
  pub totals : (a.total_checks ≡ length a.checks) × (a.failed_check_count ≡ length a.failed_checks)
  pub summary :
      (a.status ≡ (summary_of a.failed_checks).0)
      × (a.summary_code ≡ (summary_of a.failed_checks).1)
      × (a.summary_subsystem ≡ (summary_of a.failed_checks).2)
  pub valid : validate_named_document host "latest_verify" (artifact_json a) ≡ ok tt

build_artifact-ok :
    (host : SchemaHost) (run_id : String) (checks : List CheckEntry) (failed : List FailedCheck)
    (changed evidence : List String) (generated : String) (a : Artifact)
    → build_artifact host run_id checks failed changed evidence generated ≡ ok a
    → (a ≡ make_artifact run_id checks failed changed evidence generated)
      × (validate_named_document host "latest_verify" (artifact_json a) ≡ ok tt)
unfolding build_artifact
build_artifact-ok host run_id checks failed changed evidence generated a h =
    let made = make_artifact run_id checks failed changed evidence generated in
    elim (Result-cases (validate_named_document host "latest_verify" (artifact_json made))) [
      | inl (u, e) ↦
          let same : made ≡ a = ok-injective made a (rw (e, build_artifact) at h) in
          (sym same, rw (← same) e)
      | inr (x, e) ↦ let bad = rw (e, build_artifact) at h in cc
    ]

Ran-of_parts :
    (host : SchemaHost) (raw : List RawResult) (ns : List Normalized) (run at : String)
    (files proofs : List String) (a : Artifact)
    → raw_names raw ≡ expected_order
    → Come raw ns
    → a ≡ make_artifact run (checks_of ns) (failed_projections ns) files proofs at
    → validate_named_document host "latest_verify" (artifact_json a) ≡ ok tt
    → Ran host a
unfolding make_artifact
Ran-of_parts host raw ns run at files proofs a o c same valid = record {
  raw = raw;
  normalized = ns;
  in_order = o;
  come = c;
  checks = ap (λ (b : Artifact). b.checks) same;
  failed_checks = ap (λ (b : Artifact). b.failed_checks) same;
  totals = rw same (refl, refl);
  summary = rw same (refl, refl, refl);
  valid = valid;
}

pub run_aggregator-Ran :
    (host : SchemaHost) (validators : List Validator) (bundle : Fields) (changed evidence : Items)
    (run_id generated : Json) (a : Artifact)
    → run_aggregator host validators bundle changed evidence run_id generated ≡ ok a
    → Ran host a
unfolding run_aggregator
run_aggregator-Ran host validators bundle changed evidence run_id generated a h =
    let (run, _, h₁) = >>=-eq-ok (validate_nonempty_string run_id "run_id") _ h in
    let (at, _, h₂) = >>=-eq-ok (validate_nonempty_string generated "generated_at") _ h₁ in
    let (files, _, h₃) = >>=-eq-ok (validate_string_list changed "changed_files") _ h₂ in
    let (proofs, _, h₄) = >>=-eq-ok (validate_string_list evidence "evidence_files") _ h₃ in
    let (raw, c, h₅) =
      >>=-eq-ok (collect_results validators (build_validation_bundle bundle files proofs run at)) _
        h₄ in
    let (ns, m, h₆) = >>=-eq-ok (normalize_all raw) _ h₅ in
    let (same, valid) =
      build_artifact-ok host run (checks_of ns) (failed_projections ns) files proofs at a h₆ in
    Ran-of_parts host raw ns run at files proofs a (collect_results-names validators _ raw c)
      (normalize_all-Come raw ns m) same valid
