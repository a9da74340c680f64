-- ===== src/Stages/Cycle/Verdict.antt =====
-- `_indirect_cycle_issue` on the stages of a contract.
use kozo.Base.{
  ℕ, ◌<◌, ◌≡◌, ◌↔◌, refl, ap, String, true, contains, length, List, [], ◌∷◌, map, none, All,
  string_equality, arith,
}
use kozo.Base.Dict.{keys, IsDistinct, put_all-distinct}
use kozo.Issue.Laws.{Answers}
use kozo.Result.{ok}
use kozo.Stages.{Stage, stage_names}
use kozo.Stages.Cycle.{Remaining, remaining_of, indirect_cycle_issue}
use kozo.Stages.Cycle.Exact.{cycle_loop-Ranks, cycle_loop-Answers}
use kozo.Stages.Cycle.Complete.{Known, cycle_loop_ranked}

-- Every prerequisite is the name of a stage.
abbrev pub AreKnown : List String → List Stage → Type 0
AreKnown names stages =
    All (λ (s : Stage). All (λ p. contains names p ≡ true) s.required_prerequisites) stages

-- A number for each name that puts the prerequisites of a stage below the stage.
abbrev pub IsRank : (String → ℕ) → List Stage → Type 0
IsRank rank stages =
    All (λ (s : Stage). All (λ p. rank p < rank s.stage_name) s.required_prerequisites) stages

abbrev entries : List Stage → Remaining
entries = map (λ (s : Stage). (s.stage_name, s.required_prerequisites))

keys-entries : (stages : List Stage) → keys (entries stages) ≡ stage_names stages
keys-entries [] = refl
keys-entries (s ∷ stages) = ap (λ ks. s.stage_name ∷ ks) (keys-entries stages)

All-entries :
    (P : String → String → Type 0) (stages : List Stage)
    → All (λ (name, qs). All (P name) qs) (entries stages)
      ↔ All (λ (s : Stage). All (P s.stage_name) s.required_prerequisites) stages
All-entries P [] = (λ h. h, λ h. h)
All-entries P (s ∷ stages) =
    let (forth, back) = All-entries P stages in (λ (h, t). (h, forth t), λ (h, t). (h, back t))

remaining-entries :
    (stages : List Stage) → IsDistinct (stage_names stages) → remaining_of stages ≡ entries stages
remaining-entries stages d = put_all-distinct (entries stages) (rw (keys-entries stages) d)

-- On stages with distinct names whose prerequisites all name stages, the check finds no indirect
-- cycle exactly where some numbering of the names puts every prerequisite below its stage.
pub indirect_cycle_issue-IsRank :
    (order_by_name : List (String × ℕ)) (stages : List Stage)
    → IsDistinct (stage_names stages)
    → AreKnown (stage_names stages) stages
    → (indirect_cycle_issue order_by_name stages ≡ ok none)
      ↔ ((rank : String → ℕ) × IsRank rank stages)
unfolding indirect_cycle_issue
indirect_cycle_issue-IsRank order stages d known =
    let same = remaining-entries stages d in
    let e = entries stages in
    let distinct : IsDistinct (keys e) = rw (keys-entries stages) d in
    let there : Known e e =
      (All-entries (λ name p. contains (keys e) p ≡ true) stages).1
        (rw (keys-entries stages) known) in
    (
      λ h.
          let (rank, ranks) = cycle_loop-Ranks (length e) order e distinct (rw same at h) in
          (rank, (All-entries (λ name p. rank p < rank name) stages).0 ranks),
      λ (rank, ranks). rw same (
          cycle_loop_ranked (length e) order rank e (omega arith) there
            ((All-entries (λ name p. rank p < rank name) stages).1 ranks)),
    )

-- The loop on indirect cycles ends on every list of stages: each round takes a stage away or stops.
pub indirect_cycle_issue-Answers :
    (order_by_name : List (String × ℕ)) (stages : List Stage)
    → Answers (indirect_cycle_issue order_by_name stages)
unfolding indirect_cycle_issue
indirect_cycle_issue-Answers order stages =
    cycle_loop-Answers (length (remaining_of stages)) order (remaining_of stages) (omega arith)
