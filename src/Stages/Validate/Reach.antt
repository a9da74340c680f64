-- ===== src/Stages/Validate/Reach.antt =====
-- The move to the first stage that a stage allows, as a relation of stage names; what a stage allows
-- besides is left aside, as the checks of the source leave it.
use kozo.Base.{
  ℕ, suc, ◌≡◌, refl, ap, String, List, [], ◌∷◌, some, Member, inl, inr, string_equality,
}
use kozo.Base.Dict.{IsDistinct}
use kozo.Stages.{Stage, stage_names}
use kozo.Stages.Graph.{first}
use kozo.Stages.Graph.Lookup.{place}
use kozo.Stages.Graph.Chain.{IsChain, Placed, Placed-distinct}

-- One move: to the first stage that a stage allows.
pub data Move (stages : List Stage) : String → String → Type 0 where
  move :
      (s : Stage) (next : String)
      → Member s stages
      → first s.allowed_next_stages ≡ some next
      → Move stages s.stage_name next

-- Any number of moves.
pub data Reaches (stages : List Stage) : String → String → Type 0 where
  stay : (name : String) → Reaches stages name name
  go : (a b c : String) → Move stages a b → Reaches stages b c → Reaches stages a c

Reaches-in :
    (stages : List Stage) (s : Stage) (rest : List Stage)
    → ((t : Stage) → Member t (s ∷ rest) → Member t stages)
    → IsChain (s ∷ rest)
    → (t : Stage) → Member t (s ∷ rest)
    → Reaches stages s.stage_name t.stage_name
Reaches-in stages s rest inside chain t (inl e) =
    let same : t.stage_name ≡ s.stage_name = ap (λ (u : Stage). u.stage_name) e in
    rw same (stay s.stage_name)
Reaches-in stages s [] inside chain t (inr m) = absurd m
Reaches-in stages s (u ∷ rest) inside (next, chain) t (inr m) =
    go s.stage_name u.stage_name t.stage_name (move s u.stage_name (inside s (inl refl)) next)
      (Reaches-in stages u rest (λ v n. inside v (inr n)) chain t m)

pub Reaches-first :
    (s : Stage) (rest : List Stage)
    → IsChain (s ∷ rest)
    → (t : Stage) → Member t (s ∷ rest)
    → Reaches (s ∷ rest) s.stage_name t.stage_name
Reaches-first s rest chain t m = Reaches-in (s ∷ rest) s rest (λ v n. n) chain t m

next_place :
    (names : List String) (index : ℕ) (stages : List Stage)
    → Placed names index stages
    → IsChain stages
    → (s : Stage) (next : String) → Member s stages
    → first s.allowed_next_stages ≡ some next
    → place names next ≡ suc (place names s.stage_name)
next_place names index [] placed chain s next m e = absurd m
next_place names index (t ∷ []) placed (last, _) s next (inl same) e =
    let bare = ap (λ (u : Stage). first u.allowed_next_stages) same in cc
next_place names index (t ∷ []) placed chain s next (inr m) e = absurd m
next_place names index (t ∷ u ∷ rest) (_, here, placed) (hop, _) s next (inl same) e =
    let (_, there, _) = placed in
    let named = ap (λ (v : Stage). v.stage_name) same in
    let allowed = ap (λ (v : Stage). first v.allowed_next_stages) same in
    let found : next ≡ u.stage_name = cc in rw (found, named, here, there) refl
next_place names index (t ∷ u ∷ rest) (_, _, placed) (_, chain) s next (inr m) e =
    next_place names (suc index) (u ∷ rest) placed chain s next m e

-- A move goes one position further.
pub Move-place :
    (stages : List Stage)
    → IsDistinct (stage_names stages)
    → IsChain stages
    → (a b : String) → Move stages a b
    → place (stage_names stages) b ≡ suc (place (stage_names stages) a)
Move-place stages distinct chain _ b (move s next m e) =
    next_place (stage_names stages) 0 stages (Placed-distinct stages distinct) chain s next m e
