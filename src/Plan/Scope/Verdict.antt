-- ===== src/Plan/Scope/Verdict.antt =====
-- What the step-scope validator passes.
use kozo.Base.{
  ◌≡◌, refl, ◌↔◌, true, false, String, contains, contains_iff, any, any_iff, All, Member, ◌==◌,
  eq_iff, string_equality, arith, List, [], ◌∷◌, ◌++◌, Bool-cases, inl, inr, null, none,
  Option-cases,
}
use kozo.Base.Int.{int_equality}
use kozo.Base.Text.{Text, codes, starts_with_iff, ends_with}
use kozo.Plan.{Step, Todo, Runtime, Bundle}
use kozo.Plan.Scope.Allowed.{IsPlanned, allowed_files-IsPlanned}
use kozo.Plan.Scope.{
  matches_scope, allowed_files, find_empty_done, find_outside, find_unplanned, validate,
}
use kozo.Validator.{Passes, fail-ne-pass}

-- The path is the scope, or lies below it: a scope that ends in a slash is a prefix.
pub data Covers (scope path : String) : Type 0 where
  prefix :
      (rest : Text)
      → ends_with 47 (codes scope) ≡ true
      → codes path ≡ codes scope ++ rest
      → Covers scope path
  same : ends_with 47 (codes scope) ≡ false → path ≡ scope → Covers scope path
  below :
      (rest : Text)
      → ends_with 47 (codes scope) ≡ false
      → codes path ≡ (codes scope ++ (47 ∷ [])) ++ rest
      → Covers scope path

matches_scope_sound : (path scope : String) → matches_scope path scope ≡ true → Covers scope path
unfolding matches_scope
matches_scope_sound path scope h = elim (Bool-cases (ends_with 47 (codes scope))) [
  | inl e ↦
      let (rest, shape) = (starts_with_iff (codes scope) (codes path)).0 (ground (arith, e)) in
      prefix rest e shape
  | inr e ↦ elim (Bool-cases (path == scope)) [
    | inl f ↦ same e ((eq_iff path scope).0 f)
    | inr f ↦
        let (rest, shape) =
          (starts_with_iff (codes scope ++ (47 ∷ [])) (codes path)).0 (ground (arith, e, f)) in
        below rest e shape
  ]
]

matches_scope_complete : (path scope : String) → Covers scope path → matches_scope path scope ≡ true
unfolding matches_scope
matches_scope_complete path scope (prefix rest e shape) =
    rw e ((starts_with_iff (codes scope) (codes path)).1 (rest, shape))
matches_scope_complete path scope (same e p) = rw e (ground (arith, (eq_iff path scope).1 p))
matches_scope_complete path scope (below rest e shape) =
    rw e (ground (arith, (starts_with_iff (codes scope ++ (47 ∷ [])) (codes path)).1 (rest, shape)))

-- Some scope of the task covers the path.
abbrev pub InTask : List String → String → Type 0
InTask scopes path = (scope : String) × Member scope scopes × Covers scope path

InTask-iff :
    (scopes : List String) (path : String)
    → (any (matches_scope path) scopes ≡ true) ↔ InTask scopes path
InTask-iff scopes path = (
  λ h.
      let (scope, m, e) = (any_iff (matches_scope path) scopes).0 h in
      (scope, m, matches_scope_sound path scope e),
  λ (scope, m, c).
      (any_iff (matches_scope path) scopes).1 (scope, m, matches_scope_complete path scope c),
)

find_outside_iff :
    (scopes paths : List String) → (find_outside scopes paths ≡ none) ↔ All (InTask scopes) paths
unfolding find_outside
find_outside_iff scopes [] = (λ _. tt, λ _. refl)
find_outside_iff scopes (path ∷ paths) =
    let here = InTask-iff scopes path in
    let rest = find_outside_iff scopes paths in
    elim (Bool-cases (any (matches_scope path) scopes)) [
      | inl e ↦ rw e (λ h. (here.0 e, rest.0 h), λ h. rest.1 h.1)
      | inr e ↦ rw e (λ h. cc, λ h. cc (here.1 h.0))
    ]

find_unplanned_iff :
    (todo : Todo) (runtime : Runtime) (paths : List String)
    → (find_unplanned (allowed_files todo runtime) paths ≡ none)
      ↔ All (IsPlanned todo runtime) paths
unfolding find_unplanned
find_unplanned_iff todo runtime [] = (λ _. tt, λ _. refl)
find_unplanned_iff todo runtime (path ∷ paths) =
    let allowed = allowed_files todo runtime in
    let here = contains_iff allowed path in
    let spec = allowed_files-IsPlanned todo runtime path in
    let rest = find_unplanned_iff todo runtime paths in
    elim (Bool-cases (contains allowed path)) [
      | inl e ↦ rw e (λ h. (spec.0 (here.0 e), rest.0 h), λ h. rest.1 h.1)
      | inr e ↦ rw e (λ h. cc, λ h. cc (here.1 (spec.1 h.0)))
    ]

abbrev pub HasFiles : Step → Type 0
HasFiles step = step.status ≡ "done" → null step.files_expected ≡ false

find_empty_done_iff : (steps : List Step) → (find_empty_done steps ≡ none) ↔ All HasFiles steps
unfolding find_empty_done
find_empty_done_iff [] = (λ _. tt, λ _. refl)
find_empty_done_iff (step ∷ steps) =
    ground (arith, eq_iff step.status "done", find_empty_done_iff steps)

pub record IsWithin (b : Bundle) : Type 0 where
  pub done_have_files : All HasFiles b.todo.steps
  pub in_task : All (InTask b.todo.file_scope) b.changed_files
  pub planned : All (IsPlanned b.todo b.runtime) b.changed_files

-- The validator passes exactly when no done step is without files, every changed file is covered by
-- a scope of the task, and every changed file is a file of some step, when the plan is complete, or
-- else of the first step with the current identifier.
pub validate-IsWithin : (b : Bundle) → Passes (validate b) ↔ IsWithin b
unfolding validate
validate-IsWithin b =
    let done = find_empty_done_iff b.todo.steps in
    let task = find_outside_iff b.todo.file_scope b.changed_files in
    let plan = find_unplanned_iff b.todo b.runtime b.changed_files in
    elim (Option-cases (find_empty_done b.todo.steps)) [
      | inr (step, e) ↦ rw e (λ h. absurd (fail-ne-pass h), λ w. cc (done.1 w.done_have_files))
      | inl e ↦ elim (Option-cases (find_outside b.todo.file_scope b.changed_files)) [
        | inr (path, f) ↦ rw (e, f) (λ h. absurd (fail-ne-pass h), λ w. cc (task.1 w.in_task))
        | inl f ↦
            elim (Option-cases (find_unplanned (allowed_files b.todo b.runtime) b.changed_files)) [
              | inr (path, g) ↦
                  rw (e, f, g) (λ h. absurd (fail-ne-pass h), λ w. cc (plan.1 w.planned))
              | inl g ↦
                  rw (e, f, g)
                    (
                      λ h. record {
                        done_have_files = done.0 e;
                        in_task = task.0 f;
                        planned = plan.0 g;
                      },
                      λ w. refl,
                    )
            ]
      ]
    ]
