-- ===== src/Plan/Refs/Verdict.antt =====
-- What the verification-reference validator passes.
use kozo.Base.{
  ◌≡◌, refl, ◌↔◌, String, true, All, Bool-cases, Option-cases, inl, inr, arith, List, [], ◌∷◌, none,
  some, ltb, length, get_elem?, zero, suc, ℕ,
}
use kozo.Base.Text.{Text, codes}
use kozo.Invariants.Reference.{fullmatch_ref, resolve_ref}
use kozo.Invariants.Reference.Shape.{IsRef, resolve_ref-IsRef}
use kozo.Plan.{Step, Verification, Bundle}
use kozo.Plan.Refs.{Entry, section_entries, check_ref, check_refs, check_steps, validate}
use kozo.Validator.{Passes, fail-ne-pass, ValidationResult}
use kozo.Registry.{fail}

-- The reference is well formed and there is an entry of the verification at its index.
pub record Resolves (v : Verification) (ref : String) : Type 0 where
  pub section : Text
  pub index : ℕ
  pub entries : List Entry
  pub entry : Entry
  pub written : IsRef (codes ref) section index
  pub present : section_entries v section ≡ some entries
  pub found : get_elem? entries index ≡ some entry

get_elem?-of_lt :
    (xs : List Entry) (i : ℕ) → ltb i (length xs) ≡ true → (x : Entry) × (get_elem? xs i ≡ some x)
get_elem?-of_lt [] i h = absurd (ground arith)
get_elem?-of_lt (x ∷ xs) zero h = (x, refl)
get_elem?-of_lt (x ∷ xs) (suc i) h = get_elem?-of_lt xs i (ground arith)

lt_of_get_elem? :
    (xs : List Entry) (i : ℕ) (x : Entry) → get_elem? xs i ≡ some x → ltb i (length xs) ≡ true
lt_of_get_elem? [] i x h = cc
lt_of_get_elem? (y ∷ xs) zero x h = ground arith
lt_of_get_elem? (y ∷ xs) (suc i) x h = ground (arith, lt_of_get_elem? xs i x h)

resolve_ref-fullmatch :
    (t section : Text) (index : ℕ) → resolve_ref t ≡ some (section, index) → fullmatch_ref t ≡ true
unfolding resolve_ref
resolve_ref-fullmatch t section index h = elim (Bool-cases (fullmatch_ref t)) [
  | inl m ↦ m
  | inr m ↦ absurd (ground (arith, m))
]

check_ref_sound : (v : Verification) (ref : String) → check_ref v ref ≡ none → Resolves v ref
unfolding check_ref
check_ref_sound v ref h = elim (Option-cases (resolve_ref (codes ref))) [
  | inl e ↦ absurd (ground (arith, e))
  | inr ((section, index), e) ↦ elim (Option-cases (section_entries v section)) [
    | inl f ↦ absurd (ground (arith, e, f))
    | inr (entries, f) ↦
        let (entry, found) = get_elem?-of_lt entries index (ground (arith, e, f)) in
        record {
          section = section;
          index = index;
          entries = entries;
          entry = entry;
          written = (resolve_ref-IsRef (codes ref) section index).0 e;
          present = f;
          found = found;
        }
  ]
]

check_ref_complete : (v : Verification) (ref : String) → Resolves v ref → check_ref v ref ≡ none
unfolding check_ref
check_ref_complete v ref r =
    let e = (resolve_ref-IsRef (codes ref) r.section r.index).1 r.written in
    ground (
      arith,
      e,
      r.present,
      resolve_ref-fullmatch (codes ref) r.section r.index e,
      lt_of_get_elem? r.entries r.index r.entry r.found,
    )

check_refs_iff :
    (v : Verification) (refs : List String) → (check_refs v refs ≡ none) ↔ All (Resolves v) refs
unfolding check_refs
check_refs_iff v [] = (λ _. tt, λ _. refl)
check_refs_iff v (ref ∷ refs) = elim (Option-cases (check_ref v ref)) [
  | inl e ↦ rw e (
    λ h. (check_ref_sound v ref e, (check_refs_iff v refs).0 h),
    λ h. (check_refs_iff v refs).1 h.1,
  )
  | inr (r, e) ↦ rw e (λ h. cc, λ h. cc (check_ref_complete v ref h.0))
]

abbrev pub StepResolves : Verification → Step → Type 0
StepResolves v step = All (Resolves v) step.verification_refs

check_steps_iff :
    (v : Verification) (steps : List Step)
    → (check_steps v steps ≡ none) ↔ All (StepResolves v) steps
unfolding check_steps
check_steps_iff v [] = (λ _. tt, λ _. refl)
check_steps_iff v (step ∷ steps) =
    let here = check_refs_iff v step.verification_refs in
    elim (Option-cases (check_refs v step.verification_refs)) [
      | inl e ↦
          rw e
            (λ h. (here.0 e, (check_steps_iff v steps).0 h), λ h. (check_steps_iff v steps).1 h.1)
      | inr (r, e) ↦ rw e (λ h. cc, λ h. cc (here.1 h.0))
    ]

-- Every failure of the loops has the status `fail`.
check_ref-fails :
    (v : Verification) (ref : String) (r : ValidationResult)
    → check_ref v ref ≡ some r
    → r.status ≡ fail
unfolding check_ref
check_ref-fails v ref r h = ground arith

check_refs-fails :
    (v : Verification) (refs : List String) (r : ValidationResult)
    → check_refs v refs ≡ some r
    → r.status ≡ fail
unfolding check_refs
check_refs-fails v [] r h = cc
check_refs-fails v (ref ∷ refs) r h = elim (Option-cases (check_ref v ref)) [
  | inl e ↦ check_refs-fails v refs r (rw e at h)
  | inr (q, e) ↦ check_ref-fails v ref r (ground (arith, e))
]

check_steps-fails :
    (v : Verification) (steps : List Step) (r : ValidationResult)
    → check_steps v steps ≡ some r
    → r.status ≡ fail
unfolding check_steps
check_steps-fails v [] r h = cc
check_steps-fails v (step ∷ steps) r h = elim (Option-cases (check_refs v step.verification_refs)) [
  | inl e ↦ check_steps-fails v steps r (rw e at h)
  | inr (q, e) ↦ check_refs-fails v step.verification_refs r (ground (arith, e))
]

-- The validator passes exactly when every reference of every step is written as a reference and
-- resolves to an entry of the verification section that it names.
pub validate-Resolves :
    (b : Bundle) → Passes (validate b) ↔ All (StepResolves b.todo.verification) b.todo.steps
unfolding validate
validate-Resolves b =
    let loop = check_steps_iff b.todo.verification b.todo.steps in
    elim (Option-cases (check_steps b.todo.verification b.todo.steps)) [
      | inl e ↦ rw e (λ _. loop.0 e, λ _. refl)
      | inr (r, e) ↦ rw e (
        λ h. absurd (fail-ne-pass (cc (check_steps-fails b.todo.verification b.todo.steps r e))),
        λ h. cc (loop.1 h),
      )
    ]
