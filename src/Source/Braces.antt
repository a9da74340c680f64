-- ===== src/Source/Braces.antt =====
-- The counter of braces against balanced texts.
use kozo.Base.{
  length-append, ℕ, zero, suc, ◌+◌, ◌-◌, ◌≡◌, ◌≢◌, ◌↔◌, refl, sym, ◌∙◌, ap, false, [], ◌∷◌, ◌++◌,
  append_assoc, length, Option, none, some, Bool-cases, inl, inr, arith, ◌==◌, nat_equality,
}
use kozo.Base.Text.{Text}
use kozo.Source.{next_index, matching_brace}

-- Texts in which every brace that is opened is closed, and none is closed that was not opened.
pub data Balanced : Text → Type 0 where
  bare : Balanced []
  other :
      (c : ℕ) (t : Text) → (c == b'{') ≡ false → (c == b'}') ≡ false → Balanced t → Balanced (c ∷ t)
  nested : (a t : Text) → Balanced a → Balanced t → Balanced (b'{' ∷ (a ++ (b'}' ∷ t)))

-- an index from some characters before
abbrev later : ℕ → Option ℕ → Option ℕ
later n none = none
later n (some index) = some (n + index)

next-later : (n : ℕ) (o : Option ℕ) → next_index (later n o) ≡ later (suc n) o
next-later n none = refl
next-later n (some index) = ap some (omega arith)

gather :
    (m n k : ℕ) (o : Option ℕ)
    → k ≡ m + suc n
    → next_index (later m (next_index (later n o))) ≡ later (suc k) o
gather m n k none e = refl
gather m n k (some index) e = ap some (omega arith)

later_zero : (o : Option ℕ) → o ≡ later 0 o
later_zero none = refl
later_zero (some index) = ap some (omega arith)

step_other :
    (depth c : ℕ) (t : Text)
    → (c == b'{') ≡ false
    → (c == b'}') ≡ false
    → matching_brace depth (c ∷ t) ≡ next_index (matching_brace depth t)
unfolding matching_brace
step_other depth c t p q = rw (p, q) refl

step_in :
    (depth : ℕ) (t : Text)
    → matching_brace (suc (suc depth)) (b'}' ∷ t) ≡ next_index (matching_brace (suc depth) t)
unfolding matching_brace
step_in depth t =
    let less : suc (suc depth) - 1 ≡ suc depth = omega arith in
    let some_left : (suc depth == 0) ≡ false = ground arith in rw (less, some_left) refl

passed_over :
    (a t : Text) (depth : ℕ)
    → Balanced a
    → matching_brace (suc depth) (a ++ t) ≡ later (length a) (matching_brace (suc depth) t)
unfolding matching_brace
passed_over _ t depth bare = later_zero (matching_brace (suc depth) t)
passed_over _ t depth (other c a p q h) =
    step_other (suc depth) c (a ++ t) p q
    ∙ (ap next_index (passed_over a t depth h)
        ∙ next-later (length a) (matching_brace (suc depth) t))
passed_over _ t depth (nested a b g h) =
    let inside = passed_over a (b'}' ∷ (b ++ t)) (suc depth) g in
    let behind = passed_over b t depth h in
    rw (append_assoc a (b'}' ∷ b) t, inside, step_in depth (b ++ t), behind)
      (gather (length a) (length b) _ (matching_brace (suc depth) t) (length-append a (b'}' ∷ b)))

-- The text closes one level more than the depth, and the last of them at the index.
abbrev Closes : ℕ → Text → ℕ → Type 0
Closes zero t index =
    (a : Text) × (rest : Text) × Balanced a × (t ≡ a ++ (b'}' ∷ rest)) × (index ≡ length a)
Closes (suc depth) t index =
    (a : Text) × (rest : Text) × Balanced a
    × (t ≡ a ++ (b'}' ∷ rest))
    × ((more : ℕ) × Closes depth rest more × (index ≡ length a + suc more))

Closes-other :
    (depth c : ℕ) (t : Text) (index : ℕ)
    → (c == b'{') ≡ false
    → (c == b'}') ≡ false
    → Closes depth t index
    → Closes depth (c ∷ t) (suc index)
Closes-other zero c t index p q (a, rest, h, e, n) =
    (c ∷ a, rest, other c a p q h, ap (λ l. c ∷ l) e, ap suc n)
Closes-other (suc depth) c t index p q (a, rest, h, e, (more, k, n)) =
    (c ∷ a, rest, other c a p q h, ap (λ l. c ∷ l) e, (more, k, omega (arith, n)))

joined :
    (a b rest t u : Text)
    → t ≡ a ++ (b'}' ∷ u)
    → u ≡ b ++ (b'}' ∷ rest)
    → t ≡ (a ++ (b'}' ∷ b)) ++ (b'}' ∷ rest)
joined a b rest t u e f =
    e ∙ (ap (λ l. a ++ (b'}' ∷ l)) f ∙ sym (append_assoc a (b'}' ∷ b) (b'}' ∷ rest)))

Closes-open :
    (depth : ℕ) (t : Text) (index : ℕ)
    → Closes (suc depth) t index
    → Closes depth (b'{' ∷ t) (suc index)
Closes-open zero t index (a, u, g, e, (more, (b, rest, h, f, m), n)) = (
  b'{' ∷ (a ++ (b'}' ∷ b)),
  rest,
  nested a b g h,
  ap (λ l. b'{' ∷ l) (joined a b rest t u e f),
  omega (arith, n, m, length-append a (b'}' ∷ b)),
)
Closes-open (suc depth) t index (a, u, g, e, (more, (b, rest, h, f, (last, k, m)), n)) = (
  b'{' ∷ (a ++ (b'}' ∷ b)),
  rest,
  nested a b g h,
  ap (λ l. b'{' ∷ l) (joined a b rest t u e f),
  (last, k, omega (arith, n, m, length-append a (b'}' ∷ b))),
)

before_index :
    (o : Option ℕ) (index : ℕ)
    → next_index o ≡ some index
    → (n : ℕ) × (o ≡ some n) × (index ≡ suc n)
before_index none index h = cc
before_index (some n) index h = (n, refl, cc)

none-some : (index : ℕ) → none ≢ some index
none-some index h = cc

closed_brace :
    (t : Text) (depth index : ℕ)
    → ((d n : ℕ) → matching_brace (suc d) t ≡ some n → Closes d t n)
    → matching_brace (suc depth) (b'}' ∷ t) ≡ some index
    → Closes depth (b'}' ∷ t) index
unfolding matching_brace
closed_brace t zero index deeper h = ([], t, bare, refl, cc)
closed_brace t (suc depth) index deeper h =
    let (n, found, same) = before_index _ index (sym (step_in depth t) ∙ h) in
    ([], t, bare, refl, (n, deeper depth n found, omega arith))

closed :
    (t : Text) (depth index : ℕ) → matching_brace (suc depth) t ≡ some index → Closes depth t index
unfolding matching_brace
closed [] depth index h = absurd (none-some index h)
closed (c ∷ t) depth index h = elim (Bool-cases (c == b'{')) [
  | inl p ↦
      let here : c ≡ b'{' = ground arith in
      let (n, found, same) = before_index _ index (rw here at h) in
      rw (here, same) (Closes-open depth t n (closed t (suc depth) n found))
  | inr p ↦ elim (Bool-cases (c == b'}')) [
    | inl q ↦
        let here : c ≡ b'}' = ground arith in
        rw here (closed_brace t depth index (λ d n found. closed t d n found) (rw here at h))
    | inr q ↦
        let (n, found, same) = before_index _ index (sym (step_other (suc depth) c t p q) ∙ h) in
        rw same (Closes-other depth c t n p q (closed t depth n found))
  ]
]

-- The search behind an opening brace finds the index of a character exactly where that character is a
-- closing brace and what stands before it is balanced.
pub matching_brace-Balanced :
    (t : Text) (index : ℕ)
    → (matching_brace 1 t ≡ some index)
      ↔ ((a : Text) × (rest : Text) × Balanced a × (t ≡ a ++ (b'}' ∷ rest)) × (index ≡ length a))
unfolding matching_brace
matching_brace-Balanced t index = (
  λ h. closed t 0 index h,
  λ (a, rest, h, e, n). rw e (passed_over a (b'}' ∷ rest) 0 h ∙ ap some (omega (arith, n))),
)
