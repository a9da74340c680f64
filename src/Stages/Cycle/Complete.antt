-- ===== src/Stages/Cycle/Complete.antt =====
-- Where there are ranks, the loop on indirect cycles finds nothing.
use kozo.Base.{
  ◌==◌, ℕ, zero, suc, ◌≤◌, ◌<◌, ◌≡◌, refl, ◌∙◌, String, true, false, null, contains, length, filter,
  List, [], ◌∷◌, map, none, All, All-Member, Member, Member-filter, string_equality, inl, inr,
  arith, Bool-cases, eq_iff, leb,
}
use kozo.Base.Dict.{keys}
use kozo.Base.Order.{null-sorted_set}
use kozo.Result.{ok}
use kozo.Stages.Cycle.{
  Remaining, has_none, ready_names, without, trim, is_left, remove_ready_stages, cycle_loop,
}
use kozo.Stages.Cycle.Ranks.{Ranks, keys-trim}
use kozo.Stages.Cycle.Exact.{ready_of, length-remove}

-- Every prerequisite of an entry is a key of what is left.
abbrev pub Known : Remaining → Remaining → Type 0
Known all_left r =
    All (λ (name, prerequisites). All (λ p. contains (keys all_left) p ≡ true) prerequisites) r

least_one : (rank : String → ℕ) (k j : String) → contains (k ∷ []) j ≡ true → rank k ≤ rank j
least_one rank k j h = let same : j ≡ k = ground (arith, eq_iff j k) in rw same (omega arith)

least_of :
    (rank : String → ℕ) (k name j : String)
    → rank name ≤ rank k
    → ((j == k) ≡ false → rank name ≤ rank j)
    → rank name ≤ rank j
least_of rank k name j b h = elim (Bool-cases (j == k)) [
  | inl q ↦ let same : j ≡ k = (eq_iff j k).0 q in rw same b
  | inr q ↦ h q
]

leb_le : (a b : ℕ) → leb a b ≡ true → a ≤ b
leb_le a b h = ground arith

-- An entry of least rank.
least :
    (rank : String → ℕ) (entry : String × List String) (r : Remaining)
    → (name : String) × (qs : List String) × Member (name, qs) (entry ∷ r)
      × ((k : String) → contains (keys (entry ∷ r)) k ≡ true → rank name ≤ rank k)
least rank (k, ps) [] = (k, ps, inl refl, λ j h. least_one rank k j h)
least rank (k, ps) (entry ∷ r) =
    let (name, qs, m, below) = least rank entry r in
    elim (Bool-cases (leb (rank k) (rank name))) [
      | inl e ↦ (
        k,
        ps,
        inl refl,
        λ j h. least_of rank k k j (omega arith) (λ q.
            omega (arith, leb_le (rank k) (rank name) e, below j (ground (arith, q, eq_iff j k)))),
      )
      | inr e ↦ (
        name,
        qs,
        inr m,
        λ j h. least_of rank k name j (ground arith) (λ q. below j (ground (arith, q, eq_iff j k))),
      )
    ]

no_prerequisite :
    (rank : String → ℕ) (name : String) (qs ks : List String)
    → All (λ p. rank p < rank name) qs
    → All (λ p. contains ks p ≡ true) qs
    → ((k : String) → contains ks k ≡ true → rank name ≤ rank k)
    → null qs ≡ true
no_prerequisite rank name [] ks below there low = refl
no_prerequisite rank name (q ∷ qs) ks below there low =
    absurd (omega (arith, below.0, low q there.0))

keys_there : (r : Remaining) (entry : String × List String) → Member entry r → null (keys r) ≡ false
keys_there [] entry m = absurd m
keys_there ((k, qs) ∷ r) entry m = refl

-- Where ranks exist and every prerequisite is still there, some stage is ready.
ready-some :
    (rank : String → ℕ) (entry : String × List String) (r : Remaining)
    → Ranks rank (entry ∷ r)
    → Known (entry ∷ r) (entry ∷ r)
    → null (ready_of (entry ∷ r)) ≡ false
unfolding ready_names
ready-some rank entry r ranks known =
    let (name, qs, m, low) = least rank entry r in
    let below = All-Member _ (entry ∷ r) (name, qs) ranks m in
    let there = All-Member _ (entry ∷ r) (name, qs) known m in
    let bare = no_prerequisite rank name qs (keys (entry ∷ r)) below there low in
    let kept = (Member-filter has_none (entry ∷ r) (name, qs)).1 (m, bare) in
    null-sorted_set (keys (filter has_none (entry ∷ r)))
    ∙ keys_there (filter has_none (entry ∷ r)) (name, qs) kept

module _ (ready : List String) where
  All-without :
      (P Q : String → Type 0)
      → ((p : String) → contains ready p ≡ false → P p → Q p)
      → (qs : List String) → All P qs
      → All Q (without ready qs)
  All-without P Q f [] h = tt
  All-without P Q f (q ∷ qs) h = elim (Bool-cases (contains ready q)) [
    | inl e ↦ rw e (All-without P Q f qs h.1)
    | inr e ↦ rw e (f q e h.0, All-without P Q f qs h.1)
  ]

  -- A predicate of the prerequisites that are left, entry by entry.
  All-trim :
      (P Q : String → String → Type 0)
      → ((name p : String) → contains ready p ≡ false → P name p → Q name p)
      → (r : Remaining) → All (λ (name, qs). All (P name) qs) r
      → All (λ (name, qs). All (Q name) qs) (map (trim ready) (filter (is_left ready) r))
  All-trim P Q f [] h = tt
  All-trim P Q f ((k, qs) ∷ r) h = elim (Bool-cases (contains ready k)) [
    | inl e ↦ rw e (All-trim P Q f r h.1)
    | inr e ↦ rw e (All-without (P k) (Q k) (f k) qs h.0, All-trim P Q f r h.1)
  ]

  keys-left :
      (r : Remaining) (p : String)
      → contains (keys r) p ≡ true
      → contains ready p ≡ false
      → contains (keys (filter (is_left ready) r)) p ≡ true
  keys-left [] p h n = cc
  keys-left ((k, qs) ∷ r) p h n = ground (arith, keys-left r p, eq_iff p k)

  remove-Ranks :
      (rank : String → ℕ) (r : Remaining) → Ranks rank r → Ranks rank (remove_ready_stages r ready)
  unfolding remove_ready_stages
  remove-Ranks rank r ranks =
      All-trim (λ name p. rank p < rank name) (λ name p. rank p < rank name) (λ name p n h. h) r
        ranks

  without-Known :
      (r : Remaining)
      → Known r r
      → Known (remove_ready_stages r ready) (remove_ready_stages r ready)
  unfolding remove_ready_stages
  without-Known r known =
      All-trim (λ name p. contains (keys r) p ≡ true)
        (λ name p. contains (keys (map (trim ready) (filter (is_left ready) r))) p ≡ true)
        (λ name p n h. rw (keys-trim ready (filter (is_left ready) r)) (keys-left r p h n)) r known

-- Ranks make the loop find no cycle.
pub cycle_loop_ranked :
    (fuel : ℕ) (order : List (String × ℕ)) (rank : String → ℕ) (r : Remaining)
    → length r ≤ fuel
    → Known r r
    → Ranks rank r
    → cycle_loop fuel order r ≡ ok none
unfolding cycle_loop
cycle_loop_ranked fuel order rank [] b known ranks = refl
cycle_loop_ranked zero order rank (entry ∷ r) b known ranks = absurd (omega arith)
cycle_loop_ranked (suc fuel) order rank (entry ∷ r) b known ranks =
    let e = ready-some rank entry r ranks known in
    let ready = ready_of (entry ∷ r) in
    rw (e, cycle_loop)
      (cycle_loop_ranked fuel order rank (remove_ready_stages (entry ∷ r) ready)
        (omega (arith, b, length-remove (entry ∷ r) e)) (without-Known ready (entry ∷ r) known)
        (remove-Ranks ready rank (entry ∷ r) ranks))
