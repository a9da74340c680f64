-- ===== src/Summary/Ready.antt =====
-- A plan that passed its reference check is summarised without an exception of the references.
use kozo.Base.{
  ◌⊎◌, All-Member, All-of_Member, String, List, [], ◌∷◌, ◌++◌, All, Member, ◌≡◌, refl, ◌↔◌, inl,
  inr, arith, contains, contains_iff, string_equality, Bool-cases,
}
use kozo.Result.{ok}
use kozo.Plan.{Todo, Step}
use kozo.Base.Text.{codes}
use kozo.Invariants.Reference.Shape.{resolve_ref-IsRef}
use kozo.Plan.Refs.{validate}
use kozo.Plan.Refs.Verdict.{Resolves, StepResolves, validate-Resolves}
use kozo.Plan.{Bundle}
use kozo.Validator.{Passes}
use kozo.Summary.Next.{
  Resolved, resolve_verification_ref, add_new, next_refs, next_commands, build_next_verification,
  extract_next_commands, add_command, resolve_at, entry_at,
}

resolve-ok :
    (todo : Todo) (ref : String)
    → Resolves todo.verification ref
    → (r : Resolved) × (resolve_verification_ref todo ref ≡ ok r)
unfolding resolve_verification_ref resolve_at
resolve-ok todo ref r =
    let e = (resolve_ref-IsRef (codes ref) r.section r.index).1 r.written in
    (
      (r.section, r.entry),
      rw (e, resolve_at) (rw (r.present, resolve_at) (rw (r.found, entry_at) refl)),
    )

Member-append :
    (s : String) (xs ys : List String) → Member s (xs ++ ys) ↔ (Member s xs ⊎ Member s ys)
Member-append s [] ys = (inr, λ m. elim m [ inl n ↦ absurd n | inr n ↦ n ])
Member-append s (x ∷ xs) ys = ground (arith, Member-append s xs ys)

Member-add_new :
    (s t : String) (seen : List String) → Member s (add_new seen t) ↔ ((s ≡ t) ⊎ Member s seen)
unfolding add_new
Member-add_new s t seen = elim (Bool-cases (contains seen t)) [
  | inl e ↦ rw (e) (inr, λ m. elim m [ inl same ↦ rw same ((contains_iff seen t).0 e) | inr n ↦ n ])
  | inr e ↦ rw (e) (ground (arith, Member-append s seen (t ∷ [])))
]

-- The loop gives back every reference, once it resolves, and what it had seen before.
next_refs-ok :
    (todo : Todo) (seen refs : List String)
    → All (Resolves todo.verification) refs
    → (out : List String) × (next_refs todo seen refs ≡ ok out)
      × ((s : String) → Member s out ↔ (Member s seen ⊎ Member s refs))
unfolding next_refs
next_refs-ok todo seen [] h = (seen, refl, λ s. ground arith)
next_refs-ok todo seen (ref ∷ refs) h =
    let (r, e) = resolve-ok todo ref h.0 in
    let (out, f, m) = next_refs-ok todo (add_new seen ref) refs h.1 in
    (out, rw (e, next_refs) f, λ s. ground (arith, m s, Member-add_new s ref seen))

next_commands-ok :
    (todo : Todo) (commands refs : List String)
    → All (Resolves todo.verification) refs
    → (out : List String) × (next_commands todo commands refs ≡ ok out)
unfolding next_commands
next_commands-ok todo commands [] h = (commands, refl)
next_commands-ok todo commands (ref ∷ refs) h =
    let (r, e) = resolve-ok todo ref h.0 in
    let (out, f) = next_commands-ok todo (add_command commands r) refs h.1 in
    (out, rw (e, next_commands) f)

-- When the reference validator passes a plan, the summary of any of its steps finds the references
-- and the commands of the step without an exception, and keeps exactly the step's references.
pub summarize-ready :
    (b : Bundle) (step : Step)
    → Passes (validate b)
    → Member step b.todo.steps
    → (refs commands : List String) × (build_next_verification b.todo step ≡ ok refs)
      × (extract_next_commands b.todo refs ≡ ok commands)
      × ((ref : String) → Member ref refs ↔ Member ref step.verification_refs)
unfolding build_next_verification extract_next_commands
summarize-ready b step passes here =
    let v = b.todo.verification in
    let all_here =
      All-Member (StepResolves v) b.todo.steps step ((validate-Resolves b).0 passes) here in
    let (refs, e, m) = next_refs-ok b.todo [] step.verification_refs all_here in
    let only : (ref : String) → Member ref refs ↔ Member ref step.verification_refs =
      λ ref. ground (arith, m ref) in
    let (commands, f) = next_commands-ok b.todo [] refs (
      All-of_Member (Resolves v) refs
        (λ ref n. All-Member (Resolves v) step.verification_refs ref all_here ((only ref).0 n))) in
    (refs, commands, e, f, only)
