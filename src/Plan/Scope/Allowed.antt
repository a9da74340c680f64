-- ===== src/Plan/Scope/Allowed.antt =====
-- The files that a plan allows to change.
use kozo.Base.{
  ◌≡◌, ◌≢◌, refl, ◌↔◌, ◌⊎◌, String, Member, ◌==◌, eq_iff, string_equality, arith, List, [], ◌∷◌,
  ◌++◌, Bool-cases, inl, inr,
}
use kozo.Base.Int.{ℤ, int_equality}
use kozo.Plan.{Step, Todo, Runtime}
use kozo.Plan.Scope.{allowed_files, all_expected, expected_of}

-- A file of some step.
abbrev pub InSomeStep : String → List Step → Type 0
InSomeStep path steps = (step : Step) × Member step steps × Member path step.files_expected

-- A file of the first step with the identifier.
pub data InStep (id : ℤ) (path : String) : List Step → Type 0 where
  here :
      (step : Step) (steps : List Step)
      → step.id ≡ id
      → Member path step.files_expected
      → InStep id path (step ∷ steps)
  later :
      (step : Step) (steps : List Step)
      → step.id ≢ id
      → InStep id path steps
      → InStep id path (step ∷ steps)

-- A complete plan allows the files of all steps, and any other those of the current step.
abbrev pub IsPlanned : Todo → Runtime → String → Type 0
IsPlanned todo runtime path =
    ((runtime.plan_status ≡ "complete") × InSomeStep path todo.steps)
    ⊎ ((runtime.plan_status ≢ "complete") × InStep runtime.current_step_id path todo.steps)

Member-append :
    (xs ys : List String) (a : String) → Member a (xs ++ ys) ↔ (Member a xs ⊎ Member a ys)
Member-append [] ys a = ground arith
Member-append (x ∷ xs) ys a = ground (arith, Member-append xs ys a)

all_expected_iff :
    (path : String) (steps : List Step) → Member path (all_expected steps) ↔ InSomeStep path steps
unfolding all_expected
all_expected_iff path [] = (λ m. absurd m, λ (step, m, f). absurd m)
all_expected_iff path (step ∷ steps) = (
  λ m. elim ((Member-append step.files_expected (all_expected steps) path).0 m) [
    | inl f ↦ (step, inl refl, f)
    | inr n ↦ let (other, k, f) = (all_expected_iff path steps).0 n in (other, inr k, f)
  ],
  λ (other, k, f). (Member-append step.files_expected (all_expected steps) path).1 (elim k [
    | inl e ↦ inl (rw (← e) f)
    | inr n ↦ inr ((all_expected_iff path steps).1 (other, n, f))
  ]),
)

expected_of-InStep :
    (id : ℤ) (path : String) (steps : List Step)
    → Member path (expected_of id steps)
    → InStep id path steps
unfolding expected_of
expected_of-InStep id path [] m = absurd m
expected_of-InStep id path (step ∷ steps) m = elim (Bool-cases (step.id == id)) [
  | inl e ↦ here step steps ((int_equality.equals_iff step.id id).0 e) (rw e at m)
  | inr e ↦
      later step steps (λ same. ground (arith, e, (int_equality.equals_iff step.id id).1 same))
        (expected_of-InStep id path steps (rw e at m))
]

InStep-expected_of :
    (id : ℤ) (path : String) (steps : List Step)
    → InStep id path steps
    → Member path (expected_of id steps)
unfolding expected_of
InStep-expected_of id path _ (here step steps same m) =
    rw ((int_equality.equals_iff step.id id).1 same) m
InStep-expected_of id path _ (later step steps other m) = elim (Bool-cases (step.id == id)) [
  | inl e ↦ absurd (other ((int_equality.equals_iff step.id id).0 e))
  | inr e ↦ rw e (InStep-expected_of id path steps m)
]

pub allowed_files-IsPlanned :
    (todo : Todo) (runtime : Runtime) (path : String)
    → Member path (allowed_files todo runtime) ↔ IsPlanned todo runtime path
unfolding allowed_files
allowed_files-IsPlanned todo runtime path =
    let status = eq_iff runtime.plan_status "complete" in
    elim (Bool-cases (runtime.plan_status == "complete")) [
      | inl e ↦ rw e (
        λ m. inl (status.0 e, (all_expected_iff path todo.steps).0 m),
        λ p. elim p [
          | inl (_, f) ↦ (all_expected_iff path todo.steps).1 f
          | inr (other, _) ↦ absurd (other (status.0 e))
        ],
      )
      | inr e ↦ rw e (
        λ m. inr (
          λ same. ground (arith, e, status.1 same),
          expected_of-InStep runtime.current_step_id path todo.steps m,
        ),
        λ p. elim p [
          | inl (same, _) ↦ absurd (ground (arith, e, status.1 same))
          | inr (_, f) ↦ InStep-expected_of runtime.current_step_id path todo.steps f
        ],
      )
    ]
