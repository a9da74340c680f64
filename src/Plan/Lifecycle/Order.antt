-- ===== src/Plan/Lifecycle/Order.antt =====
-- The test on the step identifiers, against strict ascent.
use kozo.Base.{
  ◌≤◌, ◌≡◌, refl, ◌↔◌, true, false, length, contains, All, nat_equality, List, [], ◌∷◌, arith,
  Bool-cases, inl, inr, ap,
}
use kozo.Base.Int.{
  ℤ, int_equality, int_leb, int_beq_iff, ◌<ℤ◌, lt_of_leb, leb_of_lt, beq_of_lt, leb_trans,
  leb_total,
}
use kozo.Plan.Lifecycle.{insert_sorted, sorted, distinct, ids_equal, out_of_order}

abbrev pub IsAscending : List ℤ → Type 0
IsAscending [] = Unit
IsAscending (x ∷ xs) = All (λ y. x <ℤ y) xs × IsAscending xs

-- Each element is at most those after it.
abbrev IsSorted : List ℤ → Type 0
IsSorted [] = Unit
IsSorted (x ∷ xs) = All (λ y. int_leb x y ≡ true) xs × IsSorted xs

All-le_trans :
    (a b : ℤ) (xs : List ℤ)
    → int_leb a b ≡ true
    → All (λ y. int_leb b y ≡ true) xs
    → All (λ y. int_leb a y ≡ true) xs
All-le_trans a b [] h k = tt
All-le_trans a b (y ∷ xs) h k = (leb_trans a b y h k.0, All-le_trans a b xs h k.1)

All-insert_sorted :
    (a x : ℤ) (xs : List ℤ)
    → int_leb a x ≡ true
    → All (λ y. int_leb a y ≡ true) xs
    → All (λ y. int_leb a y ≡ true) (insert_sorted x xs)
unfolding insert_sorted
All-insert_sorted a x [] h k = (h, tt)
All-insert_sorted a x (y ∷ xs) h k = elim (Bool-cases (int_leb x y)) [
  | inl e ↦ rw e (h, k)
  | inr e ↦ rw e (k.0, All-insert_sorted a x xs h k.1)
]

insert_sorted-IsSorted : (x : ℤ) (xs : List ℤ) → IsSorted xs → IsSorted (insert_sorted x xs)
unfolding insert_sorted
insert_sorted-IsSorted x [] s = (tt, tt)
insert_sorted-IsSorted x (y ∷ xs) s = elim (Bool-cases (int_leb x y)) [
  | inl e ↦ rw e ((e, All-le_trans x y xs e s.0), s)
  | inr e ↦ rw e (All-insert_sorted y x xs (leb_total x y e) s.0, insert_sorted-IsSorted x xs s.1)
]

sorted-IsSorted : (xs : List ℤ) → IsSorted (sorted xs)
unfolding sorted
sorted-IsSorted [] = tt
sorted-IsSorted (x ∷ xs) = insert_sorted-IsSorted x (sorted xs) (sorted-IsSorted xs)

ids_equal_iff : (xs ys : List ℤ) → (ids_equal xs ys ≡ true) ↔ (xs ≡ ys)
unfolding ids_equal
ids_equal_iff [] [] = ground arith
ids_equal_iff [] (y ∷ ys) = ground arith
ids_equal_iff (x ∷ xs) [] = ground arith
ids_equal_iff (x ∷ xs) (y ∷ ys) = ground (arith, int_beq_iff x y, ids_equal_iff xs ys)

length-distinct : (xs : List ℤ) → length (distinct xs) ≤ length xs
unfolding distinct
length-distinct [] = omega arith
length-distinct (x ∷ xs) = ground (arith, length-distinct xs)

-- Strictly above `x` means: at least `x`, and `x` is not among them.
All-lt :
    (x : ℤ) (xs : List ℤ)
    → All (λ y. int_leb x y ≡ true) xs
    → contains xs x ≡ false
    → All (λ y. x <ℤ y) xs
All-lt x [] h n = tt
All-lt x (y ∷ xs) h n = (lt_of_leb x y h.0 (ground arith), All-lt x xs h.1 (ground arith))

IsAscending-of_distinct :
    (xs : List ℤ) → IsSorted xs → length xs ≡ length (distinct xs) → IsAscending xs
unfolding distinct
IsAscending-of_distinct [] s e = tt
IsAscending-of_distinct (x ∷ xs) s e = elim (Bool-cases (contains xs x)) [
  | inl c ↦ absurd (ground (arith, length-distinct xs))
  | inr c ↦ (All-lt x xs s.0 c, IsAscending-of_distinct xs s.1 (ground arith))
]

not-contains : (x : ℤ) (xs : List ℤ) → All (λ y. x <ℤ y) xs → contains xs x ≡ false
not-contains x [] h = refl
not-contains x (y ∷ xs) h = rw (beq_of_lt x y h.0) (not-contains x xs h.1)

distinct_of_ascending : (xs : List ℤ) → IsAscending xs → distinct xs ≡ xs
unfolding distinct
distinct_of_ascending [] a = refl
distinct_of_ascending (x ∷ xs) a =
    rw (not-contains x xs a.0) (ap (λ ys. x ∷ ys) (distinct_of_ascending xs a.1))

insert_sorted-least : (x : ℤ) (xs : List ℤ) → All (λ y. x <ℤ y) xs → insert_sorted x xs ≡ x ∷ xs
unfolding insert_sorted
insert_sorted-least x [] h = refl
insert_sorted-least x (y ∷ xs) h = rw (leb_of_lt x y h.0)

sorted_of_ascending : (xs : List ℤ) → IsAscending xs → sorted xs ≡ xs
unfolding sorted
sorted_of_ascending [] a = refl
sorted_of_ascending (x ∷ xs) a = rw (sorted_of_ascending xs a.1) (insert_sorted-least x xs a.0)

-- The identifiers pass the test exactly when each is strictly below those after it.
pub out_of_order_iff : (ids : List ℤ) → (out_of_order ids ≡ false) ↔ IsAscending ids
unfolding out_of_order
out_of_order_iff ids = (
  λ h.
      IsAscending-of_distinct ids
        (rw ((ids_equal_iff ids (sorted ids)).0 (ground arith)) (sorted-IsSorted ids))
        (ground arith),
  λ a.
      rw (sorted_of_ascending ids a, distinct_of_ascending ids a, (ids_equal_iff ids ids).1 refl)
        (ground arith),
)
