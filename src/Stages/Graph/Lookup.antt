-- ===== src/Stages/Graph/Lookup.antt =====
-- The lookups in the graph that `_build_graph` makes of stages with distinct names.
use kozo.Base.{
  ℕ, suc, ◌+◌, ◌≡◌, refl, sym, ◌∙◌, ap, String, true, contains, List, [], ◌∷◌, map, some, Member,
  string_equality, arith, Bool-cases, inl, inr, if◌then◌else◌, eq_iff, ◌==◌,
}
use kozo.Base.Dict.{get, keys, IsDistinct, put_all-distinct}
use kozo.Result.{ok}
use kozo.Stages.{Stage, stage_names}
use kozo.Stages.Graph.{numbered, build_graph, need}

-- The position of a name in a list of names.
abbrev pub place : List String → String → ℕ
place [] key = 0
place (name ∷ names) key = let rest = place names key in if key == name then 0 else suc rest

abbrev named : List Stage → List (String × Stage)
named = map (λ (s : Stage). (s.stage_name, s))

keys-named : (stages : List Stage) → keys (named stages) ≡ stage_names stages
keys-named [] = refl
keys-named (s ∷ stages) = ap (λ ks. s.stage_name ∷ ks) (keys-named stages)

keys-numbered :
    (index : ℕ) (stages : List Stage) → keys (numbered index stages) ≡ stage_names stages
keys-numbered index [] = refl
keys-numbered index (s ∷ stages) = ap (λ ks. s.stage_name ∷ ks) (keys-numbered (index + 1) stages)

get-numbered :
    (index : ℕ) (stages : List Stage) (key : String)
    → contains (stage_names stages) key ≡ true
    → get key (numbered index stages) ≡ some (index + place (stage_names stages) key)
get-numbered index [] key h = cc
get-numbered index (s ∷ stages) key h = elim (Bool-cases (key == s.stage_name)) [
  | inl e ↦ rw e (ap some (omega arith))
  | inr e ↦ rw e (get-numbered (index + 1) stages key (rw e at h) ∙ ap some (omega arith))
]

get-named :
    (stages : List Stage) (key : String)
    → contains (stage_names stages) key ≡ true
    → (s : Stage) × Member s stages × (s.stage_name ≡ key) × (get key (named stages) ≡ some s)
get-named [] key h = cc
get-named (s ∷ stages) key h = elim (Bool-cases (key == s.stage_name)) [
  | inl e ↦ (s, inl refl, sym ((eq_iff key s.stage_name).0 e), rw e refl)
  | inr e ↦ let (t, m, n, g) = get-named stages key (rw e at h) in (t, inr m, n, rw e g)
]

module _ (stages : List Stage) (distinct : IsDistinct (stage_names stages)) where
  by_name : (build_graph stages).stages_by_name ≡ named stages
  unfolding build_graph
  by_name = put_all-distinct (named stages) (rw (keys-named stages) distinct)

  by_order : (build_graph stages).order_by_name ≡ numbered 0 stages
  unfolding build_graph
  by_order = put_all-distinct (numbered 0 stages) (rw (keys-numbered 0 stages) distinct)

  pub keys-graph : keys (build_graph stages).stages_by_name ≡ stage_names stages
  keys-graph = ap keys by_name ∙ keys-named stages

  pub need-order :
      (key : String)
      → contains (stage_names stages) key ≡ true
      → need key (build_graph stages).order_by_name ≡ ok (place (stage_names stages) key)
  need-order key h = rw (by_order, get-numbered 0 stages key h, need) (ap ok (omega arith))

  pub need-stage :
      (key : String)
      → contains (stage_names stages) key ≡ true
      → (s : Stage) × Member s stages
        × (s.stage_name ≡ key)
        × (need key (build_graph stages).stages_by_name ≡ ok s)
  need-stage key h =
      let (s, m, n, g) = get-named stages key h in (s, m, n, rw (by_name, g, need) refl)
