-- ===== src/Base/Lists.antt =====
-- Lists measured by native numbers, `any` and `all`, and predicates over every element.
use Prim.Native.Nat.{ℕ, zero, suc, ◌+◌, ◌≤◌, ◌<◌}
use mathlib.Core.Path.{◌≡◌, refl, ap, ◌∙◌}
use mathlib.Core.Logic.{◌↔◌, ◌⊎◌, inl, inr}
use mathlib.Core.Bool.{Bool, true, false, ◌&&◌, ◌||◌, not}
use mathlib.Core.List.{List, [], ◌∷◌, ◌++◌, map}
use mathlib.Core.Option.{Option, none, some}
use native.Mathlib.Omega.{arith}
use kozo.Base.Logic.{Equality, contains, if◌then◌else◌, Bool-cases}

module _ {ℓ} {A : Type ℓ} where
  abbrev pub length : List A → ℕ
  length [] = 0
  length (x ∷ xs) = suc (length xs)

  abbrev pub get_elem? : List A → ℕ → Option A
  get_elem? [] i = none
  get_elem? (x ∷ xs) zero = some x
  get_elem? (x ∷ xs) (suc i) = get_elem? xs i

  abbrev pub drop : ℕ → List A → List A
  drop zero xs = xs
  drop (suc n) [] = []
  drop (suc n) (x ∷ xs) = drop n xs

  abbrev pub take : ℕ → List A → List A
  take zero xs = []
  take (suc n) [] = []
  take (suc n) (x ∷ xs) = x ∷ take n xs

  abbrev pub any : (A → Bool) → List A → Bool
  any p [] = false
  any p (x ∷ xs) = p x || any p xs

  abbrev pub all : (A → Bool) → List A → Bool
  all p [] = true
  all p (x ∷ xs) = p x && all p xs

  abbrev pub null : List A → Bool
  null [] = true
  null (x ∷ xs) = false

  -- `[x for x in xs if p(x)]`
  abbrev pub filter : (A → Bool) → List A → List A
  filter p [] = []
  filter p (x ∷ xs) = let rest = filter p xs in if p x then x ∷ rest else rest

  pub length-append : (xs ys : List A) → length (xs ++ ys) ≡ length xs + length ys
  length-append [] ys = omega arith
  length-append (x ∷ xs) ys = omega (arith, length-append xs ys)

pub append_assoc {ℓ} : {A : Type ℓ} (xs ys zs : List A) → (xs ++ ys) ++ zs ≡ xs ++ (ys ++ zs)
append_assoc [] ys zs = refl
append_assoc (x ∷ xs) ys zs = ap (λ l. x ∷ l) (append_assoc xs ys zs)

pub drop-append {ℓ} : {A : Type ℓ} (xs ys : List A) → drop (length xs) (xs ++ ys) ≡ ys
drop-append [] ys = refl
drop-append (x ∷ xs) ys = drop-append xs ys

drop-nil {ℓ} : {A : Type ℓ} (n : ℕ) → [] ≡ drop {A = A} n []
drop-nil zero = refl
drop-nil (suc n) = refl

drop-same {ℓ} : {A : Type ℓ} (m n : ℕ) (xs : List A) → m ≡ n → drop m xs ≡ drop n xs
drop-same m n xs e = ap (λ k. drop k xs) e

pub drop-drop {ℓ} : {A : Type ℓ} (m n : ℕ) (xs : List A) → drop n (drop m xs) ≡ drop (m + n) xs
drop-drop zero n xs = ap (λ k. drop k xs) (omega arith)
drop-drop (suc m) zero [] = drop-nil (suc m + zero)
drop-drop (suc m) (suc n) [] = drop-nil (suc m + suc n)
drop-drop (suc m) n (x ∷ xs) =
    drop-drop m n xs ∙ drop-same (suc (m + n)) (suc m + n) (x ∷ xs) (omega arith)

-- What is left after a drop that leaves something.
pub length-drop {ℓ} :
    {A : Type ℓ} (m : ℕ) (xs : List A) → (m ≤ length xs) → length xs ≡ m + length (drop m xs)
length-drop zero xs h = omega arith
length-drop (suc m) [] h = absurd (omega arith)
length-drop (suc m) (x ∷ xs) h = omega (arith, length-drop m xs (omega arith))

-- The membership that proofs take apart.
abbrev pub Member : {A : Type 0} → A → List A → Type 0
Member a [] = ⊥
Member a (x ∷ xs) = (a ≡ x) ⊎ Member a xs

abbrev pub All {ℓ κ} : {A : Type ℓ} → (A → Type κ) → List A → Type κ
All P [] = Unit
All P (x ∷ xs) = P x × All P xs

pub All-Member {κ} :
    {A : Type 0} (P : A → Type κ) (xs : List A) (a : A) → All P xs → Member a xs → P a
All-Member P [] a h m = absurd m
All-Member P (x ∷ xs) a h (inl e) = rw e h.0
All-Member P (x ∷ xs) a h (inr m) = All-Member P xs a h.1 m

pub All-of_Member {κ} :
    {A : Type 0} (P : A → Type κ) (xs : List A) → ((a : A) → Member a xs → P a) → All P xs
All-of_Member P [] h = tt
All-of_Member P (x ∷ xs) h = (h x (inl refl), All-of_Member P xs (λ a m. h a (inr m)))

pub contains_iff :
    {A : Type 0} ⦃e : Equality A⦄ (xs : List A) (a : A) → (contains xs a ≡ true) ↔ Member a xs
contains_iff [] a = (λ h. cc, λ h. absurd h)
contains_iff ⦃e⦄ (x ∷ xs) a = ground (arith, e.equals_iff a x, contains_iff xs a)

-- A loop that tests every element, against the predicate that the test decides.
pub all_iff {ℓ κ} :
    {A : Type ℓ} (p : A → Bool) (P : A → Type κ)
    → ((a : A) → (p a ≡ true) ↔ P a)
    → (xs : List A) → (all p xs ≡ true) ↔ All P xs
all_iff p P h [] = (λ _. tt, λ _. refl)
all_iff p P h (x ∷ xs) = ground (arith, h x, all_iff p P h xs)

-- A loop that stops at the first element that fails the test.
pub any-not_iff {ℓ κ} :
    {A : Type ℓ} (p : A → Bool) (P : A → Type κ)
    → ((a : A) → (p a ≡ true) ↔ P a)
    → (xs : List A) → (any (λ a. not (p a)) xs ≡ false) ↔ All P xs
any-not_iff p P h [] = (λ _. tt, λ _. refl)
any-not_iff p P h (x ∷ xs) = ground (arith, h x, any-not_iff p P h xs)

pub any_iff :
    {A : Type 0} (p : A → Bool) (xs : List A)
    → (any p xs ≡ true) ↔ ((x : A) × Member x xs × (p x ≡ true))
any_iff p [] = (λ h. cc, λ (x, m, h). absurd m)
any_iff p (x ∷ xs) = (
  λ h. elim (Bool-cases (p x)) [
    | inl e ↦ (x, inl refl, e)
    | inr e ↦ let (y, m, q) = (any_iff p xs).0 (ground (arith, e)) in (y, inr m, q)
  ],
  λ (y, m, q). elim m [
    | inl e ↦ rw (← e) (rw q refl)
    | inr n ↦ ground (arith, (any_iff p xs).1 (y, n, q))
  ],
)

true-ne-false : (b : Bool) → b ≡ true → b ≡ false → ⊥
true-ne-false b h k = cc

pub Member-filter :
    {A : Type 0} (p : A → Bool) (xs : List A) (a : A)
    → Member a (filter p xs) ↔ (Member a xs × (p a ≡ true))
Member-filter p [] a = (λ h. absurd h, λ h. absurd h.0)
Member-filter p (x ∷ xs) a = elim (Bool-cases (p x)) [
  | inl e ↦ rw e (
    λ h. elim h [
      | inl same ↦ (inl same, rw same e)
      | inr m ↦ let (n, q) = (Member-filter p xs a).0 m in (inr n, q)
    ],
    λ (h, q). elim h [ inl same ↦ inl same | inr m ↦ inr ((Member-filter p xs a).1 (m, q)) ],
  )
  | inr e ↦ rw e (
    λ h. let (n, q) = (Member-filter p xs a).0 h in (inr n, q),
    λ (h, q). elim h [
      | inl same ↦ absurd (true-ne-false (p x) (rw (← same) q) e)
      | inr m ↦ (Member-filter p xs a).1 (m, q)
    ],
  )
]

pub length-filter : {A : Type 0} (p : A → Bool) (xs : List A) → length (filter p xs) ≤ length xs
length-filter p [] = omega arith
length-filter p (x ∷ xs) = ground (arith, length-filter p xs)

-- An element that is left out makes the list shorter.
pub length-filter_lt :
    {A : Type 0} (p : A → Bool) (xs : List A) (a : A)
    → Member a xs
    → p a ≡ false
    → length (filter p xs) < length xs
length-filter_lt p [] a m h = absurd m
length-filter_lt p (x ∷ xs) a (inl same) h =
    let e : p x ≡ false = rw (← same) h in rw e (omega (arith, length-filter p xs))
length-filter_lt p (x ∷ xs) a (inr m) h = ground (arith, length-filter_lt p xs a m h)

pub length-map {ℓ κ} :
    {A : Type ℓ} {B : Type κ} (f : A → B) (xs : List A) → length (map f xs) ≡ length xs
length-map f [] = refl
length-map f (x ∷ xs) = ap suc (length-map f xs)

pub Member-map :
    {A B : Type 0} (f : A → B) (xs : List A) (a : A) → Member a xs → Member (f a) (map f xs)
Member-map f [] a m = absurd m
Member-map f (x ∷ xs) a (inl e) = inl (ap f e)
Member-map f (x ∷ xs) a (inr m) = inr (Member-map f xs a m)
