-- ===== src/Aggregator/Entries.antt =====
-- What an accepted result of a validator becomes.
use Prim.Native.String.{◌++◌ as ◌<>◌}
use kozo.Base.{
  ◌≡◌, ◌≢◌, refl, sym, ◌⊎◌, inl, inr, String, true, false, not, contains, contains_iff, Member,
  ◌==◌, string_equality, eq_iff, [], ◌∷◌, Option, none, some, arith, Bool-cases, ◌&&◌,
}
use kozo.Base.Text.{codes, is_blank}
use kozo.Registry.{pass, fail, is_code}
use kozo.Registry.Codes.{ok as ok_code}
use kozo.Result.{ok, >>=-eq-ok, ok-injective}
use kozo.Validator.{ValidationResult}
use kozo.Aggregator.Types.{CheckEntry, FailedCheck, Normalized}
use kozo.Aggregator.Inputs.{nonempty_string}
use kozo.Aggregator.Registration.{expected_order, expected_subsystem}
use kozo.Aggregator.Normalize.{make_entry, make_failed, check_result, normalize_result, differs}

-- The status and the code of a check agree.
abbrev pub Agrees : String → String → Type 0
Agrees status code = ((status ≡ pass) × (code ≡ ok_code)) ⊎ ((status ≡ fail) × (code ≢ ok_code))

pub record IsCanonical (c : CheckEntry) : Type 0 where
  pub known : Member c.name expected_order
  pub subsystem : expected_subsystem c.name ≡ some c.subsystem
  pub code : is_code c.code ≡ true
  pub agrees : Agrees c.status c.code
  pub detailed : is_blank (codes c.detail) ≡ false

-- The projection of a failed check repeats the check.
pub record Projects (f : FailedCheck) (c : CheckEntry) : Type 0 where
  pub name : f.name ≡ c.name
  pub subsystem : f.subsystem ≡ c.subsystem
  pub code : f.code ≡ c.code
  pub detail : f.detail ≡ c.detail

differs-none : (o : Option String) (s : String) → differs o s ≡ false → o ≡ some s
differs-none none s h = cc
differs-none (some t) s h = ground (arith, eq_iff s t)

record Accepted (name subsystem : String) (r : ValidationResult) : Type 0 where
  known : Member name expected_order
  placed : expected_subsystem name ≡ some subsystem
  code : is_code r.code ≡ true
  agrees : Agrees r.status r.code

Agrees-of_tests :
    (status code : String)
    → contains (pass ∷ fail ∷ []) status ≡ true
    → (status == pass && not (code == ok_code)) ≡ false
    → (status == fail && code == ok_code) ≡ false
    → Agrees status code
Agrees-of_tests status code h p f = elim (Bool-cases (status == pass)) [
  | inl e ↦ inl ((eq_iff status pass).0 e, (eq_iff code ok_code).0 (ground (arith, e, p)))
  | inr e ↦
      let failed : (status == fail) ≡ true = ground (arith, e, h) in
      inr (
        (eq_iff status fail).0 failed,
        λ same. ground (arith, failed, f, (eq_iff code ok_code).1 same),
      )
]

check_result-tests :
    (name subsystem : String) (r : ValidationResult)
    → check_result name subsystem r ≡ ok tt
    → (contains expected_order name ≡ true)
      × (differs (expected_subsystem name) subsystem ≡ false)
      × (contains (pass ∷ fail ∷ []) r.status ≡ true)
      × (is_code r.code ≡ true)
      × ((r.status == pass && not (r.code == ok_code)) ≡ false)
      × ((r.status == fail && r.code == ok_code) ≡ false)
unfolding check_result
check_result-tests name subsystem r h = ground arith

check_result-Accepted :
    (name subsystem : String) (r : ValidationResult)
    → check_result name subsystem r ≡ ok tt
    → Accepted name subsystem r
check_result-Accepted name subsystem r h =
    let (a, c, d, e, f, g) = check_result-tests name subsystem r h in
    record {
      known = (contains_iff expected_order name).0 a;
      placed = differs-none (expected_subsystem name) subsystem c;
      code = e;
      agrees = Agrees-of_tests r.status r.code d f g;
    }

-- What normalisation makes of one result.
pub record Normalizes (validator place : String) (r : ValidationResult) (n : Normalized)
    : Type 0 where
  pub canonical : IsCanonical n.check
  pub name : n.check.name ≡ validator
  pub subsystem : n.check.subsystem ≡ place
  pub status : n.check.status ≡ r.status
  pub code : n.check.code ≡ r.code
  pub detail : n.check.detail ≡ r.detail
  pub passes : n.check.status ≡ pass → n.failed_projection ≡ none
  pub fails :
      n.check.status ≡ fail
      → (f : FailedCheck) × (n.failed_projection ≡ some f) × Projects f n.check

nonempty_string-ok :
    (s field t : String) → nonempty_string s field ≡ ok t → (s ≡ t) × (is_blank (codes s) ≡ false)
unfolding nonempty_string
nonempty_string-ok s field t h = ground arith

make_entry-Normalizes :
    (name subsystem : String) (r : ValidationResult) (detail : String)
    → Accepted name subsystem r
    → r.detail ≡ detail
    → is_blank (codes r.detail) ≡ false
    → Normalizes name subsystem r (make_entry name subsystem r detail)
unfolding make_entry make_failed
make_entry-Normalizes name subsystem r detail a same full = record {
  canonical = record {
    known = a.known;
    subsystem = a.placed;
    code = a.code;
    agrees = a.agrees;
    detailed = rw (← same) full;
  };
  name = refl;
  subsystem = refl;
  status = refl;
  code = refl;
  detail = sym same;
  passes = λ e. rw e refl;
  fails = λ e. (
    make_failed name subsystem r detail,
    rw e refl,
    record { name = refl; subsystem = refl; code = refl; detail = refl },
  );
}

-- A result that is accepted becomes a canonical check with the given name and subsystem and the
-- result's status, code and detail; it has no projection when it passes, and one that repeats the
-- check when it fails.
pub normalize_result-Normalizes :
    (name subsystem : String) (r : ValidationResult) (n : Normalized)
    → normalize_result name subsystem r ≡ ok n
    → Normalizes name subsystem r n
unfolding normalize_result
normalize_result-Normalizes name subsystem r n h =
    let (_, c, h₁) = >>=-eq-ok (check_result name subsystem r) _ h in
    let (d, e, h₂) = >>=-eq-ok (nonempty_string r.detail (name <> ".detail")) _ h₁ in
    let (same, full) = nonempty_string-ok r.detail _ d e in
    rw (← ok-injective (make_entry name subsystem r d) n h₂) (
      make_entry-Normalizes name subsystem r d (check_result-Accepted name subsystem r c) same full)
