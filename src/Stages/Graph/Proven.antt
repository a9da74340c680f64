-- ===== src/Stages/Graph/Proven.antt =====
-- The check on the status of stages: what is required of a proven stage is proven.
use kozo.Base.{
  ◌≡◌, sym, ◌∙◌, ap, String, Bool, true, false, not, contains, List, [], ◌∷◌, none, All-Member,
  Member, string_equality, inl, inr, if◌then◌else◌, eq_iff, ◌==◌,
}
use kozo.Base.Dict.{IsDistinct}
use kozo.Issue.{Check}
use kozo.Issue.Laws.{first_check_of-none, ok_unless-none}
use kozo.Result.{ok}
use kozo.Stages.{Stage, stage_names}
use kozo.Stages.Cycle.Verdict.{AreKnown}
use kozo.Stages.Graph.{build_graph, status_issue, stage_status_issue}
use kozo.Stages.Graph.Lookup.{need-stage}
use kozo.Stages.Graph.Order.{names_contain}

-- A stage of that name has the status "proven".
abbrev pub IsProven : List Stage → String → Type 0
IsProven stages name = (s : Stage) × Member s stages × (s.stage_name ≡ name) × (s.status ≡ "proven")

-- What a stage requires, at first or second hand.
pub data Requires (stages : List Stage) : String → String → Type 0 where
  directly :
      (s : Stage) (p : String)
      → Member s stages
      → Member p s.required_prerequisites
      → Requires stages s.stage_name p
  through : (a b c : String) → Requires stages a b → Requires stages b c → Requires stages a c

other_name :
    (s t : Stage) (stages : List Stage)
    → contains (stage_names stages) t.stage_name ≡ false
    → Member s stages
    → s.stage_name ≡ t.stage_name
    → ⊥
other_name s t stages fresh m e =
    let there : contains (stage_names stages) t.stage_name ≡ true =
      rw (sym e) (names_contain stages s m) in
    cc

pub same_stage :
    (stages : List Stage) (s t : Stage)
    → IsDistinct (stage_names stages)
    → Member s stages
    → Member t stages
    → s.stage_name ≡ t.stage_name
    → s ≡ t
same_stage [] s t d m n e = absurd m
same_stage (u ∷ stages) s t d (inl a) (inl b) e = a ∙ sym b
same_stage (u ∷ stages) s t d (inl a) (inr n) e =
    absurd (other_name t u stages d.0 n (sym e ∙ ap (λ (v : Stage). v.stage_name) a))
same_stage (u ∷ stages) s t d (inr m) (inl b) e =
    absurd (other_name s u stages d.0 m (e ∙ ap (λ (v : Stage). v.stage_name) b))
same_stage (u ∷ stages) s t d (inr m) (inr n) e = same_stage stages s t d.1 m n e

module _ (stages : List Stage) (distinct : IsDistinct (stage_names stages)) where
  status_issue-IsProven :
      (s : Stage) (p : String)
      → contains (stage_names stages) p ≡ true
      → status_issue (build_graph stages) s p ≡ ok none
      → IsProven stages p
  unfolding status_issue
  status_issue-IsProven s p known h =
      let (t, m, n, found) = need-stage stages distinct p known in
      let status =
        (ok_unless-none (t.status == "proven") _ _ _).0 (rw (found, status_issue) at h) in
      (t, m, n, (eq_iff t.status "proven").0 status)

  if_proven :
      (b : Bool) (c : Check) → (if not b then ok none else c) ≡ ok none → b ≡ true → c ≡ ok none
  if_proven true c h e = h
  if_proven false c h e = cc

  prerequisite-IsProven :
      AreKnown (stage_names stages) stages
      → stage_status_issue (build_graph stages) ≡ ok none
      → (s : Stage) (p : String) → Member s stages
      → s.status ≡ "proven"
      → Member p s.required_prerequisites
      → IsProven stages p
  unfolding stage_status_issue build_graph
  prerequisite-IsProven known h s p m e n =
      let here = All-Member _ stages s ((first_check_of-none _ stages).0 h) m in
      let inner = if_proven (s.status == "proven") _ here ((eq_iff s.status "proven").1 e) in
      let found =
        All-Member _ s.required_prerequisites p
          ((first_check_of-none _ s.required_prerequisites).0 inner) n in
      let there = All-Member _ s.required_prerequisites p (All-Member _ stages s known m) n in
      status_issue-IsProven s p there found

  pub Requires-IsProven :
      AreKnown (stage_names stages) stages
      → stage_status_issue (build_graph stages) ≡ ok none
      → (a b : String) → Requires stages a b
      → IsProven stages a
      → IsProven stages b
  Requires-IsProven known h a b (directly s p m n) (t, k, e, proven) =
      let same = same_stage stages t s distinct k m e in
      prerequisite-IsProven known h s p m (sym (ap (λ (u : Stage). u.status) same) ∙ proven) n
  Requires-IsProven known h a c (through _ b _ r q) proven =
      Requires-IsProven known h b c q (Requires-IsProven known h a b r proven)
