-- ===== src/Stages/Cycle/Exact.antt =====
-- The loop on indirect cycles ends, and where it finds nothing there are ranks.
use kozo.Base.{
  ℕ, zero, suc, ◌≤◌, ◌<◌, ◌≡◌, ◌≢◌, refl, sym, ◌∙◌, String, true, false, null, contains, length,
  filter, List, [], ◌∷◌, none, Member, length-filter_lt, length-map, string_equality, inl, inr,
  arith, Bool-cases, eq_iff,
}
use kozo.Base.Dict.{keys, IsDistinct}
use kozo.Base.Order.{sorted_set, contains-sorted_set, null-sorted_set}
use kozo.Issue.{Find, Check}
use kozo.Issue.Laws.{Answers}
use kozo.Result.{ok}
use kozo.Stages.Cycle.{
  Remaining, has_none, ready_names, trim, is_left, remove_ready_stages, cycle_issue, cycle_loop,
}
use kozo.Stages.Cycle.Ranks.{Ranks, after, after-Ranks, IsDistinct-filter, keys-trim}

abbrev pub ready_of : Remaining → List String
ready_of r = sorted_set (ready_names r)

IsDistinct-remove :
    (r : Remaining) (ready : List String)
    → IsDistinct (keys r)
    → IsDistinct (keys (remove_ready_stages r ready))
unfolding remove_ready_stages
IsDistinct-remove r ready d =
    rw (keys-trim ready (filter (is_left ready) r)) (IsDistinct-filter (is_left ready) r d)

chosen-ready :
    (r : Remaining) (name : String)
    → contains (ready_of r) name ≡ contains (keys (filter has_none r)) name
unfolding ready_names
chosen-ready r name = contains-sorted_set (keys (filter has_none r)) name

issue-found :
    (order : List (String × ℕ)) (entry : String × List String) (r : Remaining)
    → cycle_issue order (entry ∷ r) ≢ none
unfolding cycle_issue
issue-found order (name, qs) r h = cc

some_ok : (f : Find) → ◌≡◌ {A = Check} (ok f) (ok none) → f ≡ none
some_ok f h = cc

-- A loop that finds no cycle gives ranks.
pub cycle_loop-Ranks :
    (fuel : ℕ) (order : List (String × ℕ)) (r : Remaining)
    → IsDistinct (keys r)
    → cycle_loop fuel order r ≡ ok none
    → (rank : String → ℕ) × Ranks rank r
unfolding cycle_loop cycle_issue
cycle_loop-Ranks fuel order [] d h = (λ _. 0, tt)
cycle_loop-Ranks zero order (entry ∷ r) d h = cc
cycle_loop-Ranks (suc fuel) order (entry ∷ r) d h =
    let ready = ready_of (entry ∷ r) in
    elim (Bool-cases (null ready)) [
      | inl e ↦ absurd (issue-found order entry r (some_ok _ (rw (e, cycle_loop) at h)))
      | inr e ↦
          let (rank, ranks) =
            cycle_loop-Ranks fuel order (remove_ready_stages (entry ∷ r) ready)
              (IsDistinct-remove (entry ∷ r) ready d) (rw (e, cycle_loop) at h) in
          (after rank ready, after-Ranks (entry ∷ r) ready rank d (chosen-ready (entry ∷ r)) ranks)
    ]

some_key :
    (r : Remaining)
    → null (keys (filter has_none r)) ≡ false
    → (name : String) × (qs : List String) × Member (name, qs) r
      × (contains (keys (filter has_none r)) name ≡ true)
some_key [] h = cc
some_key ((k, qs) ∷ r) h = elim (Bool-cases (null qs)) [
  | inl e ↦ (k, qs, inl refl, rw e (ground (arith, eq_iff k k)))
  | inr e ↦ let (name, ps, m, c) = some_key r (rw e at h) in (name, ps, inr m, rw e c)
]

-- A round that finds a stage without prerequisites leaves fewer stages.
pub length-remove :
    (r : Remaining)
    → null (ready_of r) ≡ false
    → length (remove_ready_stages r (ready_of r)) < length r
unfolding remove_ready_stages ready_names
length-remove r h =
    let (name, qs, m, c) = some_key r (sym (null-sorted_set (keys (filter has_none r))) ∙ h) in
    let gone =
      length-filter_lt (is_left (ready_of r)) r (name, qs) m
        (ground (arith, chosen-ready r name)) in
    rw (length-map (trim (ready_of r)) (filter (is_left (ready_of r)) r)) gone

-- With fuel for each of the stages, the loop comes to its end.
pub cycle_loop-Answers :
    (fuel : ℕ) (order : List (String × ℕ)) (r : Remaining)
    → length r ≤ fuel
    → Answers (cycle_loop fuel order r)
unfolding cycle_loop
cycle_loop-Answers fuel order [] b = (none, refl)
cycle_loop-Answers zero order (entry ∷ r) b = absurd (omega arith)
cycle_loop-Answers (suc fuel) order (entry ∷ r) b =
    elim (Bool-cases (null (ready_of (entry ∷ r)))) [
      | inl e ↦ rw (e, cycle_loop) (_, refl)
      | inr e ↦
          rw (e, cycle_loop)
            (cycle_loop-Answers fuel order (remove_ready_stages (entry ∷ r) (ready_of (entry ∷ r)))
              (omega (arith, b, length-remove (entry ∷ r) e)))
    ]
