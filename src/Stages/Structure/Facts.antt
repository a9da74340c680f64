-- ===== src/Stages/Structure/Facts.antt =====
-- What the structural checks establish, and that they do not raise.
use kozo.Base.{
  ℕ, ◌+◌, ◌≡◌, ◌↔◌, refl, sym, ◌∙◌, String, Bool, true, false, not, null, contains, filter, List,
  [], ◌∷◌, none, All, string_equality, arith,
}
use kozo.Base.Int.{pos, int_equality}
use kozo.Base.Dict.{IsDistinct}
use kozo.Base.Order.{null-sorted_set}
use kozo.Issue.{Issue}
use kozo.Issue.Laws.{issue_unless-none, or_else-none}
use kozo.Stages.{Stage, stage_names}
use kozo.Stages.Required.{required_stage_names}
use kozo.Stages.Structure.{
  all_distinct, ids_from, stage_ids, first_named, duplicate_stage_issue, required_stage_issue,
  stage_id_issue,
}

pub all_distinct_iff : (names : List String) → (all_distinct names ≡ true) ↔ IsDistinct names
unfolding all_distinct
all_distinct_iff [] = (λ _. tt, λ _. refl)
all_distinct_iff (n ∷ names) = ground (arith, all_distinct_iff names)

first_named-none :
    (names : List String) (f : String → Issue) → first_named names f ≡ none → null names ≡ true
first_named-none [] f h = refl
first_named-none (n ∷ names) f h = cc

null-filter :
    (p : String → Bool) (names : List String)
    → null (filter p names) ≡ true
    → All (λ n. p n ≡ false) names
null-filter p [] h = tt
null-filter p (n ∷ names) h = ground (arith, null-filter p names)

-- Every stage is one of those that the validator knows.
abbrev pub AreRequired : List Stage → Type 0
AreRequired stages = All (λ (s : Stage). contains required_stage_names s.stage_name ≡ true) stages

names-AreRequired :
    (stages : List Stage)
    → All (λ n. not (contains required_stage_names n) ≡ false) (stage_names stages)
    → AreRequired stages
names-AreRequired [] h = tt
names-AreRequired (s ∷ stages) h = (ground (arith, h.0), names-AreRequired stages h.1)

pub required_stage_issue-AreRequired :
    (stages : List Stage) → required_stage_issue stages ≡ none → AreRequired stages
unfolding required_stage_issue
required_stage_issue-AreRequired stages h =
    let p : String → Bool = λ n. not (contains required_stage_names n) in
    let found = ((or_else-none _ _).0 ((or_else-none _ _).0 h).1).0 in
    let bare = first_named-none _ _ found in
    names-AreRequired stages (
      null-filter p (stage_names stages)
        (sym (null-sorted_set (filter p (stage_names stages))) ∙ bare))

pub duplicate_stage_issue-IsDistinct :
    (stages : List Stage) → duplicate_stage_issue stages ≡ none → IsDistinct (stage_names stages)
unfolding duplicate_stage_issue
duplicate_stage_issue-IsDistinct stages h =
    let names = ((or_else-none _ _).0 ((or_else-none _ _).0 h).1).0 in
    (all_distinct_iff (stage_names stages)).0 ((issue_unless-none _ _ _ _).0 names)

-- The stages carry the identifiers from an index on.
abbrev pub AreNumbered : ℕ → List Stage → Type 0
AreNumbered index [] = Unit
AreNumbered index (s ∷ stages) = (s.stage_id ≡ pos index) × AreNumbered (index + 1) stages

ids_from_iff :
    (index : ℕ) (stages : List Stage)
    → (ids_from index (stage_ids stages) ≡ true) ↔ AreNumbered index stages
unfolding ids_from
ids_from_iff index [] = (λ _. tt, λ _. refl)
ids_from_iff index (s ∷ stages) =
    ground (arith, ids_from_iff (index + 1) stages, int_equality.equals_iff s.stage_id (pos index))

pub stage_id_issue-AreNumbered :
    (stages : List Stage) → stage_id_issue stages ≡ none → AreNumbered 0 stages
unfolding stage_id_issue
stage_id_issue-AreNumbered stages h = (ids_from_iff 0 stages).0 ((issue_unless-none _ _ _ _).0 h)
