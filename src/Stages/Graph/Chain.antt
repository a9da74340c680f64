-- ===== src/Stages/Graph/Chain.antt =====
-- The check on allowed transitions: the stages form a chain in their order.
use kozo.Base.{
  ℕ, suc, ◌+◌, ◌≡◌, ◌↔◌, refl, ◌∙◌, ap, String, true, false, contains, List, [], ◌∷◌, Option, none,
  some, string_equality, arith, Bool-cases, Option-cases, inl, inr, eq_iff, ◌==◌, leb,
}
use kozo.Base.Dict.{IsDistinct}
use kozo.Issue.{Find, Check, first_issue}
use kozo.Issue.Laws.{ok_unless-none, step-none}
use kozo.Result.{ok, ok-injective}
use kozo.Stages.{Stage, stage_names}
use kozo.Stages.Graph.{
  build_graph, first, next_name, same_name, skipped_issue, named_transition_issue,
  stage_transition_issue, transitions_from, allowed_transition_issue,
}
use kozo.Stages.Graph.Lookup.{place, keys-graph, need-order}

-- The first transition that a stage allows leads to the stage after it, and the last stage allows none.
abbrev pub IsChain : List Stage → Type 0
IsChain [] = Unit
IsChain (s ∷ stages) = (first s.allowed_next_stages ≡ next_name stages) × IsChain stages

-- The names of a part of the stages stand at the positions from an index on.
abbrev pub Placed : List String → ℕ → List Stage → Type 0
Placed names index [] = Unit
Placed names index (s ∷ stages) =
    (contains names s.stage_name ≡ true)
    × (place names s.stage_name ≡ index)
    × Placed names (suc index) stages

Placed-after :
    (name : String) (names : List String) (index : ℕ) (stages : List Stage)
    → contains (stage_names stages) name ≡ false
    → Placed names index stages
    → Placed (name ∷ names) (suc index) stages
Placed-after name names index [] fresh h = tt
Placed-after name names index (s ∷ stages) fresh (here, at_index, rest) =
    let other : (s.stage_name == name) ≡ false =
      ground (arith, eq_iff s.stage_name name, eq_iff name s.stage_name) in
    (
      rw other here,
      rw other (ap suc at_index),
      Placed-after name names (suc index) stages (ground arith) rest,
    )

pub Placed-distinct :
    (stages : List Stage) → IsDistinct (stage_names stages) → Placed (stage_names stages) 0 stages
Placed-distinct [] d = tt
Placed-distinct (s ∷ stages) d =
    let same : (s.stage_name == s.stage_name) ≡ true = (eq_iff s.stage_name s.stage_name).1 refl in
    (
      rw same refl,
      rw same refl,
      Placed-after s.stage_name (stage_names stages) 0 stages d.0 (Placed-distinct stages d.1),
    )

same_name_iff : (a b : Option String) → (same_name a b ≡ true) ↔ (a ≡ b)
same_name_iff none none = (λ _. refl, λ _. refl)
same_name_iff none (some b) = (λ h. cc, λ h. cc)
same_name_iff (some a) none = (λ h. cc, λ h. cc)
same_name_iff (some a) (some b) = ground (arith, eq_iff a b)

skipped_issue-none :
    (s : Stage) (a b : Option String)
    → ◌≡◌ {A = Check} (ok (skipped_issue s a b)) (ok none) ↔ (a ≡ b)
unfolding skipped_issue
skipped_issue-none s a b =
    let (forth, back) = ok_unless-none (same_name a b) _ _ _ in
    let (there, here) = same_name_iff a b in (λ h. there (forth h), λ h. back (here h))

both_none :
    (f g : Find)
    → ◌≡◌ {A = Check} (ok (first_issue (f ∷ g ∷ []))) (ok none) ↔ ((f ≡ none) × (g ≡ none))
both_none none none = (λ h. (refl, refl), λ h. refl)
both_none none (some j) = (λ h. cc, λ (f, g). cc)
both_none (some i) g = (λ h. cc, λ (f, g). cc)

module _ (stages : List Stage) (distinct : IsDistinct (stage_names stages)) where
  named-forth :
      (index : ℕ) (s : Stage) (actual : String) (expected : Option String)
      → named_transition_issue (build_graph stages) index s actual expected ≡ ok none
      → some actual ≡ expected
  unfolding named_transition_issue
  named-forth index s actual expected h = elim (Bool-cases (contains (stage_names stages) actual)) [
    | inl e ↦
        let found = need-order stages distinct actual e in
        let (_, skipped) =
          (both_none _ _).0
            (rw (keys-graph stages distinct, e, found, named_transition_issue) at h) in
        (skipped_issue-none s (some actual) expected).0 (ap ok skipped)
    | inr e ↦
        let never : ◌≡◌ {A = Check} (ok (some _)) (ok none) =
          rw (keys-graph stages distinct, e, named_transition_issue) at h in
        cc
  ]

  named-back :
      (index : ℕ) (s t : Stage) (rest : List Stage)
      → Placed (stage_names stages) (suc index) (t ∷ rest)
      → named_transition_issue (build_graph stages) index s t.stage_name (some t.stage_name)
        ≡ ok none
  unfolding named_transition_issue
  named-back index s t rest (known, placed, _) =
      let found = need-order stages distinct t.stage_name known in
      let later : leb (place (stage_names stages) t.stage_name) index ≡ false =
        ground (arith, placed) in
      rw (keys-graph stages distinct, known, found, later, named_transition_issue)
        ((both_none _ _).1
          (refl, ok-injective _ _ ((skipped_issue-none s (some t.stage_name) _).1 refl)))

  -- a stage that allows a transition, or none
  stage_forth :
      (index : ℕ) (s : Stage) (rest : List Stage)
      → stage_transition_issue (build_graph stages) index s rest ≡ ok none
      → first s.allowed_next_stages ≡ next_name rest
  unfolding stage_transition_issue
  stage_forth index s rest h = elim (Option-cases (first s.allowed_next_stages)) [
    | inl e ↦
        e ∙ (skipped_issue-none s none (next_name rest)).0 (rw (e, stage_transition_issue) at h)
    | inr (actual, e) ↦
        e ∙ named-forth index s actual (next_name rest) (rw (e, stage_transition_issue) at h)
  ]

  stage_back :
      (index : ℕ) (s : Stage) (rest : List Stage)
      → Placed (stage_names stages) (suc index) rest
      → first s.allowed_next_stages ≡ next_name rest
      → stage_transition_issue (build_graph stages) index s rest ≡ ok none
  unfolding stage_transition_issue
  stage_back index s [] placed e =
      rw (e, stage_transition_issue) ((skipped_issue-none s none none).1 refl)
  stage_back index s (t ∷ rest) placed e =
      rw (e, stage_transition_issue) (named-back index s t rest placed)

  transitions_from-IsChain :
      (index : ℕ) (rest : List Stage)
      → Placed (stage_names stages) index rest
      → (transitions_from (build_graph stages) index rest ≡ ok none) ↔ IsChain rest
  unfolding transitions_from
  transitions_from-IsChain index [] placed = (λ _. tt, λ _. refl)
  transitions_from-IsChain index (s ∷ rest) (known, here, placed) =
      let (forth, back) =
        step-none (stage_transition_issue (build_graph stages) index s rest)
          (transitions_from (build_graph stages) (index + 1) rest) in
      let next : index + 1 ≡ suc index = omega arith in
      let (there, from) = transitions_from-IsChain (index + 1) rest (rw next placed) in
      (
        λ h. let (now, later) = forth h in (stage_forth index s rest now, there later),
        λ (now, later). back (stage_back index s rest placed now, from later),
      )

-- On stages with distinct names, the check of the transitions finds nothing exactly where the stages
-- form a chain: the check on unknown names and the one on moves backward never decide more.
pub allowed_transition_issue-IsChain :
    (stages : List Stage)
    → IsDistinct (stage_names stages)
    → (allowed_transition_issue (build_graph stages) ≡ ok none) ↔ IsChain stages
unfolding allowed_transition_issue build_graph
allowed_transition_issue-IsChain stages distinct =
    transitions_from-IsChain stages distinct 0 stages (Placed-distinct stages distinct)
