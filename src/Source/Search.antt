-- ===== src/Source/Search.antt =====
-- Searching for one needle, and for several in their order.
use kozo.Base.{Bool-cases, ◌≡◌, ◌↔◌, refl, ap, true, [], ◌∷◌, ◌++◌, inl, inr, arith}
use kozo.Base.Text.{Text, starts_with, starts_with_iff}
use kozo.Source.{occurs}

-- The needle stands somewhere in the text.
abbrev pub Occurs : Text → Text → Type 0
Occurs needle t = (before : Text) × (rest : Text) × (t ≡ before ++ (needle ++ rest))

occurs-Occurs : (needle t : Text) → occurs needle t ≡ true → Occurs needle t
unfolding occurs
occurs-Occurs needle [] h = let (rest, e) = (starts_with_iff needle []).0 h in ([], rest, e)
occurs-Occurs needle (c ∷ t) h = elim (Bool-cases (starts_with needle (c ∷ t))) [
  | inl e ↦ let (rest, q) = (starts_with_iff needle (c ∷ t)).0 e in ([], rest, q)
  | inr e ↦
      let (before, rest, q) = occurs-Occurs needle t (rw e at h) in
      (c ∷ before, rest, ap (λ l. c ∷ l) q)
]

occurs_here : (needle t : Text) → starts_with needle t ≡ true → occurs needle t ≡ true
unfolding occurs
occurs_here needle [] h = h
occurs_here needle (c ∷ t) h = ground (arith, h)

Occurs-occurs : (needle before rest : Text) → occurs needle (before ++ (needle ++ rest)) ≡ true
unfolding occurs
Occurs-occurs needle [] rest =
    occurs_here needle (needle ++ rest) ((starts_with_iff needle _).1 (rest, refl))
Occurs-occurs needle (c ∷ before) rest = ground (arith, Occurs-occurs needle before rest)

pub occurs_iff : (needle t : Text) → (occurs needle t ≡ true) ↔ Occurs needle t
occurs_iff needle t =
    (occurs-Occurs needle t, λ (before, rest, e). rw e (Occurs-occurs needle before rest))
