-- ===== src/Stages/Cycle/Ranks.antt =====
-- The loop on indirect cycles against ranks: a rank puts every prerequisite below what requires it.
use kozo.Base.{
  ℕ, suc, ◌<◌, ◌≡◌, refl, sym, ◌∙◌, ap, String, Bool, true, false, not, null, contains, filter,
  if◌then◌else◌, List, [], ◌∷◌, map, All, All-Member, All-of_Member, Member, Member-filter,
  Member-map, string_equality, inl, inr, arith, Bool-cases, eq_iff,
}
use kozo.Base.Dict.{keys, IsDistinct}
use kozo.Stages.Cycle.{Remaining, has_none, without, trim, is_left, remove_ready_stages}

abbrev pub Ranks : (String → ℕ) → Remaining → Type 0
Ranks rank remaining =
    All (λ (name, prerequisites). All (λ p. rank p < rank name) prerequisites) remaining

keys-filter :
    (p : String × List String → Bool) (r : Remaining) (name : String)
    → contains (keys r) name ≡ false
    → contains (keys (filter p r)) name ≡ false
keys-filter p [] name h = refl
keys-filter p ((k, qs) ∷ r) name h = ground (arith, keys-filter p r name)

pub IsDistinct-filter :
    (p : String × List String → Bool) (r : Remaining)
    → IsDistinct (keys r)
    → IsDistinct (keys (filter p r))
IsDistinct-filter p [] d = tt
IsDistinct-filter p ((k, qs) ∷ r) d = ground (arith, keys-filter p r k, IsDistinct-filter p r)

pub keys-trim : (ready : List String) (r : Remaining) → keys (map (trim ready) r) ≡ keys r
keys-trim ready [] = refl
keys-trim ready ((k, qs) ∷ r) = ap (λ ks. k ∷ ks) (keys-trim ready r)

pub Member-keys :
    (r : Remaining) (name : String) (qs : List String)
    → Member (name, qs) r
    → contains (keys r) name ≡ true
Member-keys [] name qs m = absurd m
Member-keys ((k, ps) ∷ r) name qs (inl same) =
    let n : name ≡ k = ap (λ (e : String × List String). e.0) same in ground (arith, eq_iff name k)
Member-keys ((k, ps) ∷ r) name qs (inr m) = ground (arith, Member-keys r name qs m)

ready_once :
    (k name : String) (ks : List String)
    → name ≡ k
    → contains ks k ≡ false
    → contains ks name ≡ true
    → ⊥
ready_once k name ks e f h = cc

-- A name that is ready has no prerequisites in its only entry.
ready-null :
    (r : Remaining) (name : String) (qs : List String)
    → IsDistinct (keys r)
    → Member (name, qs) r
    → contains (keys (filter has_none r)) name ≡ true
    → null qs ≡ true
ready-null [] name qs d m h = absurd m
ready-null ((k, ps) ∷ r) name qs d (inl same) h =
    let n : name ≡ k = ap (λ (e : String × List String). e.0) same in
    let q : qs ≡ ps = ap (λ (e : String × List String). e.1) same in
    let fresh = keys-filter has_none r k d.0 in
    elim (Bool-cases (null ps)) [
      | inl e ↦ rw q e
      | inr e ↦ absurd (ready_once k name (keys (filter has_none r)) n fresh (rw e at h))
    ]
ready-null ((k, ps) ∷ r) name qs d (inr m) h =
    ground (arith, Member-keys r name qs m, eq_iff name k, ready-null r name qs d.1 m)

none_there : (P : String → Type 0) (qs : List String) → null qs ≡ true → All P qs
none_there P [] h = tt
none_there P (q ∷ qs) h = cc

abbrev pub after : (String → ℕ) → List String → String → ℕ
after rank ready name = if contains ready name then 0 else suc (rank name)

-- Ranks of what is left after a round, and rank zero for what was taken, are ranks.
module _ (r : Remaining) (ready : List String) (rank : String → ℕ) (distinct : IsDistinct (keys r))
    (chosen : (name : String) → contains ready name ≡ contains (keys (filter has_none r)) name)
    (ranks : Ranks rank (remove_ready_stages r ready)) where
  after-prerequisite :
      (name : String) (qs : List String) (p : String)
      → contains ready name ≡ false
      → All (λ q. rank q < rank name) (without ready qs)
      → Member p qs
      → after rank ready p < after rank ready name
  after-prerequisite name qs p e below m = elim (Bool-cases (contains ready p)) [
    | inl f ↦ rw (e, f) (omega arith)
    | inr f ↦
        let kept = (Member-filter (λ q. not (contains ready q)) qs p).1 (m, ground arith) in
        let here = All-Member (λ q. rank q < rank name) (without ready qs) p below kept in
        rw (e, f) (omega arith)
  ]

  after-entry :
      (name : String) (qs : List String)
      → Member (name, qs) r
      → All (λ p. after rank ready p < after rank ready name) qs
  unfolding remove_ready_stages
  after-entry name qs m = elim (Bool-cases (contains ready name)) [
    | inl e ↦ none_there _ qs (ready-null r name qs distinct m (sym (chosen name) ∙ e))
    | inr e ↦
        let kept = (Member-filter (is_left ready) r (name, qs)).1 (m, ground arith) in
        let there = Member-map (trim ready) (filter (is_left ready) r) (name, qs) kept in
        let below =
          All-Member _ (remove_ready_stages r ready) (name, without ready qs) ranks there in
        All-of_Member _ qs (λ p. after-prerequisite name qs p e below)
  ]

  pub after-Ranks : Ranks (after rank ready) r
  after-Ranks = All-of_Member _ r (λ (name, qs). after-entry name qs)
