-- ===== src/Base/Dict.antt =====
-- Dicts as lists of entries in insertion order, each key once.
use mathlib.Core.Path.{◌≡◌, refl, sym, ◌∙◌, ap}
use mathlib.Core.Bool.{true, false, ◌||◌}
use mathlib.Core.Logic.{inl, inr}
use mathlib.Core.List.{List, [], ◌∷◌, ◌++◌}
use mathlib.Core.Option.{Option, none, some}
use native.Mathlib.Omega.{arith}
use kozo.Base.Logic.{Equality, ◌==◌, contains, if◌then◌else◌, Bool-cases}
use kozo.Base.Lists.{Member, append_assoc}

module _ {K V : Type 0} ⦃e : Equality K⦄ where
  -- `d.get(key)`
  abbrev pub get : K → List (K × V) → Option V
  get key [] = none
  get key ((k, v) ∷ d) = let rest = get key d in if key == k then some v else rest

  -- `d[key] = value`
  abbrev pub put : K → V → List (K × V) → List (K × V)
  put key value [] = (key, value) ∷ []
  put key value ((k, v) ∷ d) =
      let rest = put key value d in if key == k then (k, value) ∷ d else (k, v) ∷ rest

  -- The entries put into a dict in order, as a dict comprehension does.
  abbrev pub put_all : List (K × V) → List (K × V) → List (K × V)
  put_all d [] = d
  put_all d ((k, v) ∷ entries) = put_all (put k v d) entries

-- `list(d)`
abbrev pub keys : {K V : Type 0} → List (K × V) → List K
keys [] = []
keys ((k, v) ∷ d) = k ∷ keys d

-- No key stands twice.
abbrev pub IsDistinct : {K : Type 0} ⦃e : Equality K⦄ → List K → Type 0
IsDistinct [] = Unit
IsDistinct (k ∷ ks) = (contains ks k ≡ false) × IsDistinct ks

module _ {K V : Type 0} ⦃e : Equality K⦄ where
  put-fresh :
      (k : K) (v : V) (d : List (K × V))
      → contains (keys d) k ≡ false
      → put k v d ≡ d ++ ((k, v) ∷ [])
  put-fresh k v [] h = refl
  put-fresh k v ((l, w) ∷ d) h = ground (arith, put-fresh k v d)

  contains-keys_middle :
      (d : List (K × V)) (k : K) (v : V) (entries : List (K × V))
      → contains (keys (d ++ ((k, v) ∷ entries))) k ≡ true
  contains-keys_middle [] k v entries = ground (arith, e.equals_iff k k)
  contains-keys_middle ((l, w) ∷ d) k v entries = ground (arith, contains-keys_middle d k v entries)

  append-nil : (d : List (K × V)) → d ≡ d ++ []
  append-nil [] = refl
  append-nil (x ∷ d) = ap (λ l. x ∷ l) (append-nil d)

  keys-append_fresh :
      (d : List (K × V)) (k : K) (v : V) (entries : List (K × V))
      → IsDistinct (keys (d ++ ((k, v) ∷ entries)))
      → contains (keys d) k ≡ false
  keys-append_fresh [] k v entries h = refl
  keys-append_fresh ((l, w) ∷ d) k v entries h = ground (
    arith,
    keys-append_fresh d k v entries h.1,
    contains-keys_middle d k v entries,
    e.equals_iff k l,
    e.equals_iff l l,
  )

  -- A comprehension with distinct keys keeps its entries.
  put_all-append :
      (d entries : List (K × V))
      → IsDistinct (keys (d ++ entries))
      → put_all d entries ≡ d ++ entries
  put_all-append d [] h = append-nil d
  put_all-append d ((k, v) ∷ entries) h =
      let same = append_assoc d ((k, v) ∷ []) entries in
      rw (put-fresh k v d (keys-append_fresh d k v entries h))
        (put_all-append (d ++ ((k, v) ∷ [])) entries (rw same h) ∙ same)

  pub put_all-distinct :
      (entries : List (K × V)) → IsDistinct (keys entries) → put_all [] entries ≡ entries
  put_all-distinct entries h = put_all-append [] entries h

  pub get-contains :
      (d : List (K × V)) (k : K) → contains (keys d) k ≡ true → (v : V) × (get k d ≡ some v)
  get-contains [] k h = cc
  get-contains ((l, w) ∷ d) k h = elim (Bool-cases (k == l)) [
    | inl q ↦ (w, rw q refl)
    | inr q ↦ let (v, g) = get-contains d k (ground (arith, q)) in (v, rw q g)
  ]

  -- What a dict holds after a key was set.
  pub get-put :
      (j k : K) (v : V) (d : List (K × V))
      → get j (put k v d) ≡ (if j == k then some v else get j d)
  get-put j k v [] = ground (arith, e.equals_iff j k)
  get-put j k v ((l, w) ∷ d) =
      ground (arith, get-put j k v d, e.equals_iff j k, e.equals_iff k l, e.equals_iff j l)

  pub keys-put :
      (j k : K) (v : V) (d : List (K × V))
      → contains (keys (put k v d)) j ≡ (j == k || contains (keys d) j)
  keys-put j k v [] = ground (arith, e.equals_iff j k)
  keys-put j k v ((l, w) ∷ d) =
      ground (arith, keys-put j k v d, e.equals_iff j k, e.equals_iff k l, e.equals_iff j l)

  pub get-Member : (d : List (K × V)) (k : K) (v : V) → get k d ≡ some v → Member (k, v) d
  get-Member [] k v h = cc
  get-Member ((l, w) ∷ d) k v h = elim (Bool-cases (k == l)) [
    | inl q ↦
        let found : some w ≡ some v = rw q at h in
        let same : w ≡ v = cc in
        let here : k ≡ l = (e.equals_iff k l).0 q in inl (rw here (ap (λ u. (l, u)) (sym same)))
    | inr q ↦ inr (get-Member d k v (rw q at h))
  ]
