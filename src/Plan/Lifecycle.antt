-- ===== src/Plan/Lifecycle.antt =====
-- harness/validators_impl/plan_lifecycle.py
pub mod Order
pub mod Verdict
use kozo.Base.{
  String, Bool, true, false, ◌&&◌, ◌||◌, not, any, length, contains, ◌==◌, string_equality,
  nat_equality, if◌then◌else◌, List, [], ◌∷◌, map,
}
use kozo.Base.Int.{ℤ, int_equality, int_leb}
use kozo.Plan.{Step, Todo, Runtime, Bundle}
use kozo.Registry.{is_plan_status, is_step_status}
use kozo.Registry.Codes.{step_order_invalid, plan_status_invalid, ok as ok_code}
use kozo.Validator.{ValidationResult, pass_, fail}

unfoldable pub step_ids : List Step → List ℤ
step_ids = map (λ step. step.id)

insert_sorted : ℤ → List ℤ → List ℤ
insert_sorted x [] = x ∷ []
insert_sorted x (y ∷ ys) = if int_leb x y then x ∷ y ∷ ys else y ∷ insert_sorted x ys

-- `sorted(xs)` on integers
sorted : List ℤ → List ℤ
sorted [] = []
sorted (x ∷ xs) = insert_sorted x (sorted xs)

-- The elements of `set(xs)`, each once.
distinct : List ℤ → List ℤ
distinct [] = []
distinct (x ∷ xs) = if contains xs x then distinct xs else x ∷ distinct xs

ids_equal : List ℤ → List ℤ → Bool
ids_equal [] [] = true
ids_equal [] (y ∷ ys) = false
ids_equal (x ∷ xs) [] = false
ids_equal (x ∷ xs) (y ∷ ys) = x == y && ids_equal xs ys

-- `step_ids != sorted(step_ids) or len(step_ids) != len(set(step_ids))`
unfoldable pub out_of_order : List ℤ → Bool
unfolding insert_sorted sorted distinct ids_equal
out_of_order ids = not (ids_equal ids (sorted ids)) || not (length ids == length (distinct ids))

-- `PlanLifecycleValidator.validate`
unfoldable pub validate : Bundle → ValidationResult
validate bundle =
    let todo = bundle.todo in
    let runtime = bundle.runtime in
    let steps = todo.steps in
    let ids = step_ids steps in
    if out_of_order ids
    then fail step_order_invalid "Step identifiers must be unique and ordered ascending"
        "Renumber tasks/todo.json steps in canonical order"
    else if not (is_plan_status todo.plan_status) || not (is_plan_status runtime.plan_status)
    then fail plan_status_invalid "Plan status is outside the canonical protocol"
        "Use a plan_status declared in harness/registry.py"
    else if not (runtime.plan_status == todo.plan_status)
    then fail plan_status_invalid "tasks/runtime.json and tasks/todo.json disagree on plan_status"
        "Keep runtime and todo plan_status values aligned"
    else if not (contains ids runtime.current_step_id)
    then fail plan_status_invalid "runtime.current_step_id does not reference a declared step"
        "Point current_step_id at a step in tasks/todo.json"
    else if any (λ step. not (is_step_status step.status)) steps
    then fail plan_status_invalid "A step uses a non-canonical step status"
        "Use step statuses declared in harness/registry.py"
    else if runtime.plan_status == "complete" && any (λ step. not (step.status == "done")) steps
    then fail plan_status_invalid "A complete plan must have every step marked done"
        "Mark each completed step as done before closing the plan"
    else pass_ ok_code "Plan lifecycle is internally consistent"
