-- ===== src/Stages/Graph/Order.antt =====
-- The checks on references, order and status, against what they mean of the stages.
use kozo.Base.{
  ℕ, ◌≡◌, ◌↔◌, ◌<◌, ap, String, true, contains, List, [], ◌∷◌, none, All-Member, Member,
  string_equality, arith, inl, inr, eq_iff, ltb,
}
use kozo.Base.Dict.{IsDistinct}
use kozo.Issue.{Check, issue_unless}
use kozo.Issue.Laws.{issue_unless-none, first_of_iff, first_check_of_iff, ok_unless-none}
use kozo.Result.{ok}
use kozo.Stages.{Stage, stage_names}
use kozo.Stages.Cycle.Verdict.{AreKnown, IsRank}
use kozo.Stages.Graph.{
  build_graph, prerequisite_reference_issue, order_issue, prerequisite_order_issue,
}
use kozo.Stages.Graph.Lookup.{place, keys-graph, need-order}

pub names_contain :
    (stages : List Stage) (s : Stage)
    → Member s stages
    → contains (stage_names stages) s.stage_name ≡ true
names_contain [] s m = absurd m
names_contain (t ∷ stages) s (inl e) =
    let n : s.stage_name ≡ t.stage_name = ap (λ (u : Stage). u.stage_name) e in
    ground (arith, eq_iff s.stage_name t.stage_name)
names_contain (t ∷ stages) s (inr m) = ground (arith, names_contain stages s m)

ok_less_iff :
    (a b : ℕ) (reason key detail : String)
    → ◌≡◌ {A = Check} (ok (issue_unless (ltb a b) reason key detail)) (ok none) ↔ (a < b)
ok_less_iff a b reason key detail =
    let (forth, back) = ok_unless-none (ltb a b) reason key detail in
    let less : (ltb a b ≡ true) ↔ (a < b) = ground arith in
    (λ h. less.0 (forth h), λ h. back (less.1 h))

module _ (stages : List Stage) (distinct : IsDistinct (stage_names stages)) where
  pub prerequisite_reference_issue-AreKnown :
      (prerequisite_reference_issue (build_graph stages) ≡ none)
      ↔ AreKnown (stage_names stages) stages
  unfolding prerequisite_reference_issue build_graph
  prerequisite_reference_issue-AreKnown = first_of_iff _ stages _ (λ s m.
      first_of_iff _ s.required_prerequisites _
        (λ p n. rw (keys-graph stages distinct) (issue_unless-none _ _ _ _)))

  order_issue_iff :
      (s : Stage) (p : String)
      → Member s stages
      → contains (stage_names stages) p ≡ true
      → (order_issue (build_graph stages) s p ≡ ok none)
        ↔ (place (stage_names stages) p < place (stage_names stages) s.stage_name)
  unfolding order_issue
  order_issue_iff s p m known =
      let names = stage_names stages in
      let here = need-order stages distinct p known in
      let there = need-order stages distinct s.stage_name (names_contain stages s m) in
      rw (here, there, order_issue) (ok_less_iff (place names p) (place names s.stage_name) _ _ _)

  pub prerequisite_order_issue-IsRank :
      AreKnown (stage_names stages) stages
      → (prerequisite_order_issue (build_graph stages) ≡ ok none)
        ↔ IsRank (place (stage_names stages)) stages
  unfolding prerequisite_order_issue build_graph
  prerequisite_order_issue-IsRank known = first_check_of_iff _ stages _ (λ s m.
      first_check_of_iff _ s.required_prerequisites _ (λ p n.
        order_issue_iff s p m
          (All-Member _ s.required_prerequisites p (All-Member _ stages s known m) n)))
