-- ===== src/Source/Order.antt =====
-- The search for anchors one behind the other takes the first place of each, and that is enough.
use kozo.Base.{
  some-injective, ◌≤◌, length, length-append, ◌≡◌, ◌≢◌, ◌↔◌, refl, sym, ◌∙◌, ap, true, List, [],
  ◌∷◌, ◌++◌, map, append_assoc, none, some, Option-cases, inl, inr, arith, All,
}
use kozo.Base.Text.{Text, strip_prefix, strip_prefix-some}
use kozo.Source.{find_after, occurs, first_missing, first_absent}

-- The needles stand in the text in their order, without overlap.
pub data InOrder : List Text → Text → Type 0 where
  done : (t : Text) → InOrder [] t
  next :
      (before needle rest : Text) (needles : List Text)
      → InOrder needles rest
      → InOrder (needle ∷ needles) (before ++ (needle ++ rest))

found :
    (needle t rest : Text)
    → find_after needle t ≡ some rest
    → (before : Text) × (t ≡ before ++ (needle ++ rest))
unfolding find_after
found needle [] rest h = ([], (strip_prefix-some needle [] rest).0 h)
found needle (c ∷ t) rest h = elim (Option-cases (strip_prefix needle (c ∷ t))) [
  | inl e ↦ let (before, q) = found needle t rest (rw e at h) in (c ∷ before, ap (λ l. c ∷ l) q)
  | inr (r, e) ↦
      let same : r ≡ rest = some-injective r rest (rw e at h) in
      ([], (strip_prefix-some needle (c ∷ t) rest).0 (e ∙ ap some same))
]

found_here :
    (needle t rest : Text) → strip_prefix needle t ≡ some rest → find_after needle t ≡ some rest
unfolding find_after
found_here needle [] rest h = h
found_here needle (c ∷ t) rest h = rw h refl

-- Of two ways to cut a text, the longer front leaves the shorter end.
longer_front :
    (xs ys r rest : Text)
    → xs ++ r ≡ ys ++ rest
    → length xs ≤ length ys
    → (more : Text) × (r ≡ more ++ rest)
longer_front [] ys r rest e h = (ys, e)
longer_front (x ∷ xs) [] r rest e h = absurd (omega arith)
longer_front (x ∷ xs) (y ∷ ys) r rest e h =
    let tails : xs ++ r ≡ ys ++ rest = cc in longer_front xs ys r rest tails (omega arith)

-- The place that is found first leaves at least as much of the text as any other.
some-none : {A : Type 0} (a : A) → some a ≢ none
some-none a h = cc

found_first :
    (needle before rest : Text)
    → (more : Text) × (find_after needle (before ++ (needle ++ rest)) ≡ some (more ++ rest))
unfolding find_after
found_first needle [] rest =
    ([], found_here needle (needle ++ rest) rest ((strip_prefix-some needle _ rest).1 refl))
found_first needle (c ∷ before) rest =
    elim (Option-cases (strip_prefix needle (c ∷ (before ++ (needle ++ rest))))) [
      | inl e ↦ let (more, q) = found_first needle before rest in (more, rw e q)
      | inr (r, e) ↦
          let cut =
            sym ((strip_prefix-some needle _ r).0 e)
            ∙ sym (append_assoc (c ∷ before) needle rest) in
          let (more, q) =
            longer_front needle ((c ∷ before) ++ needle) r rest cut
              (omega (arith, length-append (c ∷ before) needle)) in
          (more, rw e (ap some q))
    ]

InOrder-before :
    (more t : Text) (needles : List Text) → InOrder needles t → InOrder needles (more ++ t)
InOrder-before more t [] (done _) = done (more ++ t)
InOrder-before more _ (_ ∷ _) (next before needle rest needles h) =
    rw (sym (append_assoc more before (needle ++ rest)))
      (next (more ++ before) needle rest needles h)

module _ {A : Type 0} (needle : A → Text) where
  missing-InOrder :
      (anchors : List A) (t : Text)
      → first_missing needle anchors t ≡ none
      → InOrder (map needle anchors) t
  unfolding first_missing
  missing-InOrder [] t h = done t
  missing-InOrder (a ∷ anchors) t h = elim (Option-cases (find_after (needle a) t)) [
    | inl e ↦ absurd (some-none a (rw (e, first_missing) at h))
    | inr (rest, e) ↦
        let (before, q) = found (needle a) t rest e in
        rw q (
          next before (needle a) rest (map needle anchors)
            (missing-InOrder anchors rest (rw (e, first_missing) at h)))
  ]

  InOrder-names :
      (anchors : List A) (names : List Text) (t : Text)
      → names ≡ map needle anchors
      → InOrder names t
      → first_missing needle anchors t ≡ none
  unfolding first_missing
  InOrder-names [] names t e h = refl
  InOrder-names (a ∷ anchors) _ t e (done _) = cc
  InOrder-names (a ∷ anchors) _ _ e (next before name rest names h) =
      let here : name ≡ needle a = cc in
      let there : names ≡ map needle anchors = cc in
      let (more, q) = found_first name before rest in
      let later =
        InOrder-names anchors names (more ++ rest) there (InOrder-before more rest names h) in
      rw (sym here, q, first_missing) later

  -- The loop ends on no anchor exactly where all needles stand in the text in their order.
  pub first_missing-InOrder :
      (anchors : List A) (t : Text)
      → (first_missing needle anchors t ≡ none) ↔ InOrder (map needle anchors) t
  first_missing-InOrder anchors t =
      (missing-InOrder anchors t, InOrder-names anchors (map needle anchors) t refl)

  cut_at :
      (anchors : List A) (t : Text) (a : A)
      → first_missing needle anchors t ≡ some a
      → (before : List A) × (after : List A) × (anchors ≡ before ++ (a ∷ after))
        × (first_missing needle before t ≡ none)
        × (first_missing needle (before ++ (a ∷ [])) t ≡ some a)
  unfolding first_missing
  cut_at [] t a h = cc
  cut_at (b ∷ anchors) t a h = elim (Option-cases (find_after (needle b) t)) [
    | inl e ↦
        let same : b ≡ a = some-injective b a (rw (e, first_missing) at h) in
        (
          [],
          anchors,
          ap (λ x. x ∷ anchors) same,
          refl,
          rw (sym same, e, first_missing) (ap some (sym same)),
        )
    | inr (rest, e) ↦
        let (before, after, q, none_here, some_here) =
          cut_at anchors rest a (rw (e, first_missing) at h) in
        (
          b ∷ before,
          after,
          ap (λ l. b ∷ l) q,
          rw (e, first_missing) none_here,
          rw (e, first_missing) some_here,
        )
  ]

  -- The anchor that the loop ends on is the first that cannot be placed: those before it stand in order,
  -- and with it they do not.
  pub first_missing-some :
      (anchors : List A) (t : Text) (a : A)
      → first_missing needle anchors t ≡ some a
      → (before : List A) × (after : List A) × (anchors ≡ before ++ (a ∷ after))
        × InOrder (map needle before) t
        × (InOrder (map needle (before ++ (a ∷ []))) t → ⊥)
  first_missing-some anchors t a h =
      let (before, after, q, none_here, some_here) = cut_at anchors t a h in
      (
        before,
        after,
        q,
        (first_missing-InOrder before t).0 none_here,
        λ all_there.
            some-none a
              (sym some_here ∙ (first_missing-InOrder (before ++ (a ∷ [])) t).1 all_there),
      )

  pub first_absent-none :
      (anchors : List A) (t : Text)
      → (first_absent needle anchors t ≡ none) ↔ All (λ a. occurs (needle a) t ≡ true) anchors
  unfolding first_absent
  first_absent-none [] t = (λ _. tt, λ _. refl)
  first_absent-none (a ∷ anchors) t = ground (arith, first_absent-none anchors t)
