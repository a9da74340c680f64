-- ===== src/Stages/Graph/Total.antt =====
-- The graph checks answer on stages with distinct names and known prerequisites: no lookup raises.
use kozo.Base.{
  ℕ, ◌+◌, ◌≡◌, refl, String, Bool, true, false, contains, List, [], ◌∷◌, Option, none, All-Member,
  All-of_Member, Member, string_equality, Bool-cases, Option-cases, inl, inr, ◌==◌, if◌then◌else◌,
  not,
}
use kozo.Base.Dict.{IsDistinct}
use kozo.Issue.{Check}
use kozo.Issue.Laws.{Answers, step-Answers, first_check_of-Answers}
use kozo.Result.{ok}
use kozo.Stages.{Stage, stage_names}
use kozo.Stages.Cycle.Verdict.{AreKnown}
use kozo.Stages.Graph.{
  build_graph, first, next_name, order_issue, prerequisite_order_issue, status_issue,
  stage_status_issue, named_transition_issue, stage_transition_issue, transitions_from,
  allowed_transition_issue,
}
use kozo.Stages.Graph.Lookup.{keys-graph, need-order, need-stage}
use kozo.Stages.Graph.Order.{names_contain}

module _ (stages : List Stage) (distinct : IsDistinct (stage_names stages)) where
  order_issue-Answers :
      (s : Stage) (p : String)
      → Member s stages
      → contains (stage_names stages) p ≡ true
      → Answers (order_issue (build_graph stages) s p)
  unfolding order_issue
  order_issue-Answers s p m known =
      let here = need-order stages distinct p known in
      let there = need-order stages distinct s.stage_name (names_contain stages s m) in
      rw (here, there, order_issue) (_, refl)

  pub prerequisite_order_issue-Answers :
      AreKnown (stage_names stages) stages → Answers (prerequisite_order_issue (build_graph stages))
  unfolding prerequisite_order_issue build_graph
  prerequisite_order_issue-Answers known = first_check_of-Answers _ stages (
      All-of_Member _ stages (λ s m. first_check_of-Answers _ s.required_prerequisites (
        All-of_Member _ s.required_prerequisites (λ p n.
          order_issue-Answers s p m
            (All-Member _ s.required_prerequisites p (All-Member _ stages s known m) n)))))

  status_issue-Answers :
      (s : Stage) (p : String)
      → contains (stage_names stages) p ≡ true
      → Answers (status_issue (build_graph stages) s p)
  unfolding status_issue
  status_issue-Answers s p known =
      let (t, m, n, found) = need-stage stages distinct p known in
      rw (found, status_issue) (_, refl)

  if-Answers : (b : Bool) (c : Check) → Answers c → Answers (if b then ok none else c)
  if-Answers true c h = (none, refl)
  if-Answers false c h = h

  pub stage_status_issue-Answers :
      AreKnown (stage_names stages) stages → Answers (stage_status_issue (build_graph stages))
  unfolding stage_status_issue build_graph
  stage_status_issue-Answers known = first_check_of-Answers _ stages (
      All-of_Member _ stages (λ s m. if-Answers (not (s.status == "proven")) _ (
        first_check_of-Answers _ s.required_prerequisites (
          All-of_Member _ s.required_prerequisites (λ p n.
            status_issue-Answers s p
              (All-Member _ s.required_prerequisites p (All-Member _ stages s known m) n))))))

  named-Answers :
      (index : ℕ) (s : Stage) (actual : String) (expected : Option String)
      → Answers (named_transition_issue (build_graph stages) index s actual expected)
  unfolding named_transition_issue
  named-Answers index s actual expected = elim (Bool-cases (contains (stage_names stages) actual)) [
    | inl e ↦
        let found = need-order stages distinct actual e in
        rw (keys-graph stages distinct, e, found, named_transition_issue) (_, refl)
    | inr e ↦ rw (keys-graph stages distinct, e, named_transition_issue) (_, refl)
  ]

  stage_transition_issue-Answers :
      (index : ℕ) (s : Stage) (rest : List Stage)
      → Answers (stage_transition_issue (build_graph stages) index s rest)
  unfolding stage_transition_issue
  stage_transition_issue-Answers index s rest = elim (Option-cases (first s.allowed_next_stages)) [
    | inl e ↦ rw (e, stage_transition_issue) (_, refl)
    | inr (actual, e) ↦
        rw (e, stage_transition_issue) (named-Answers index s actual (next_name rest))
  ]

  transitions_from-Answers :
      (index : ℕ) (rest : List Stage) → Answers (transitions_from (build_graph stages) index rest)
  unfolding transitions_from
  transitions_from-Answers index [] = (none, refl)
  transitions_from-Answers index (s ∷ rest) =
      step-Answers (stage_transition_issue (build_graph stages) index s rest) _
        (stage_transition_issue-Answers index s rest)
        (λ _. transitions_from-Answers (index + 1) rest)

  pub allowed_transition_issue-Answers : Answers (allowed_transition_issue (build_graph stages))
  unfolding allowed_transition_issue
  allowed_transition_issue-Answers = transitions_from-Answers 0 (build_graph stages).stages
