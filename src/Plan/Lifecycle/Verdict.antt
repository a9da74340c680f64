-- ===== src/Plan/Lifecycle/Verdict.antt =====
-- What a plan is that the lifecycle validator passes.
use kozo.Base.{
  contains, any, ◌&&◌, Bool-cases, inl, inr, String, ◌≡◌, ◌↔◌, true, false, not, contains_iff,
  any-not_iff, All, Member, ◌==◌, eq_iff, string_equality, arith, List, any,
}
use kozo.Base.Int.{int_equality}
use kozo.Plan.{Step, Bundle}
use kozo.Plan.Lifecycle.{out_of_order, step_ids, validate}
use kozo.Plan.Lifecycle.Order.{IsAscending, out_of_order_iff}
use kozo.Registry.{is_plan_status, is_step_status, plan_statuses, step_statuses}
use kozo.Validator.{Passes, fail-ne-pass}

pub record IsConsistent (b : Bundle) : Type 0 where
  pub ascending : IsAscending (step_ids b.todo.steps)
  pub canonical : Member b.todo.plan_status plan_statuses
  pub agree : b.runtime.plan_status ≡ b.todo.plan_status
  pub current : Member b.runtime.current_step_id (step_ids b.todo.steps)
  pub statuses : All (λ (s : Step). Member s.status step_statuses) b.todo.steps
  pub complete :
      b.runtime.plan_status ≡ "complete" → All (λ (s : Step). s.status ≡ "done") b.todo.steps

is_plan_status-Member : (s : String) → (is_plan_status s ≡ true) ↔ Member s plan_statuses
unfolding is_plan_status
is_plan_status-Member s = contains_iff plan_statuses s

is_step_status-Member : (s : String) → (is_step_status s ≡ true) ↔ Member s step_statuses
unfolding is_step_status
is_step_status-Member s = contains_iff step_statuses s

module _ (steps : List Step) where
  statuses_iff :
      (any (λ (s : Step). not (is_step_status s.status)) steps ≡ false)
      ↔ All (λ (s : Step). Member s.status step_statuses) steps
  statuses_iff =
      any-not_iff (λ (s : Step). is_step_status s.status) _ (λ s. is_step_status-Member s.status)
        steps

  done_iff :
      (any (λ (s : Step). not (s.status == "done")) steps ≡ false)
      ↔ All (λ (s : Step). s.status ≡ "done") steps
  done_iff = any-not_iff (λ (s : Step). s.status == "done") _ (λ s. eq_iff s.status "done") steps

abbrev Guards : Bundle → Type 0
Guards b =
    (out_of_order (step_ids b.todo.steps) ≡ false)
    × (is_plan_status b.todo.plan_status ≡ true)
    × ((b.runtime.plan_status == b.todo.plan_status) ≡ true)
    × (contains (step_ids b.todo.steps) b.runtime.current_step_id ≡ true)
    × (any (λ (s : Step). not (is_step_status s.status)) b.todo.steps ≡ false)
    × (((b.runtime.plan_status == "complete")
          && any (λ (s : Step). not (s.status == "done")) b.todo.steps)
        ≡ false)

validate-Guards : (b : Bundle) → Passes (validate b) → Guards b
unfolding validate
validate-Guards b h = ground (arith, fail-ne-pass)

Guards-validate : (b : Bundle) → Guards b → Passes (validate b)
unfolding validate
Guards-validate b (o, t, a, c, s, d) =
    ground (arith, eq_iff b.runtime.plan_status b.todo.plan_status)

-- The validator passes a plan exactly when it is consistent.
pub validate-IsConsistent : (b : Bundle) → Passes (validate b) ↔ IsConsistent b
validate-IsConsistent b = (
  λ h.
      let (o, t, a, c, s, d) = validate-Guards b h in
      record {
        ascending = (out_of_order_iff (step_ids b.todo.steps)).0 o;
        canonical = (is_plan_status-Member b.todo.plan_status).0 t;
        agree = (eq_iff b.runtime.plan_status b.todo.plan_status).0 a;
        current = (contains_iff (step_ids b.todo.steps) b.runtime.current_step_id).0 c;
        statuses = (statuses_iff b.todo.steps).0 s;
        complete = λ e.
            (done_iff b.todo.steps).0
              (ground (arith, d, (eq_iff b.runtime.plan_status "complete").1 e));
      },
  λ r. Guards-validate b (
    (out_of_order_iff (step_ids b.todo.steps)).1 r.ascending,
    (is_plan_status-Member b.todo.plan_status).1 r.canonical,
    (eq_iff b.runtime.plan_status b.todo.plan_status).1 r.agree,
    (contains_iff (step_ids b.todo.steps) b.runtime.current_step_id).1 r.current,
    (statuses_iff b.todo.steps).1 r.statuses,
    elim (Bool-cases (b.runtime.plan_status == "complete")) [
      | inl e ↦
          rw e
            ((done_iff b.todo.steps).1 (r.complete ((eq_iff b.runtime.plan_status "complete").0 e)))
      | inr e ↦ rw e
    ],
  ),
)
