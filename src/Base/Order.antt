-- ===== src/Base/Order.antt =====
-- Python's order of strings, and `sorted` of a set of them.
use Prim.Native.String.{String}
use mathlib.Core.Bool.{Bool, true, false}
use mathlib.Core.List.{List, [], ◌∷◌}
use mathlib.Core.Path.{◌≡◌, refl}
use mathlib.Core.Bool.{◌||◌}
use native.Mathlib.Omega.{arith}
use text.Mathlib.TextEquality.{eq_iff}
use kozo.Base.Lists.{null}
use kozo.Base.Logic.{contains, ltb, ◌==◌, nat_equality, string_equality, if◌then◌else◌}
use kozo.Base.Text.{Text, codes}

-- `a < b` on strings compares code points.
unfoldable pub text_ltb : Text → Text → Bool
text_ltb [] [] = false
text_ltb [] (b ∷ bs) = true
text_ltb (a ∷ as') [] = false
text_ltb (a ∷ as') (b ∷ bs) = if a == b then text_ltb as' bs else ltb a b

unfoldable pub insert : String → List String → List String
insert s [] = s ∷ []
insert s (x ∷ xs) =
    let rest = insert s xs in
    if s == x then x ∷ xs else if text_ltb (codes s) (codes x) then s ∷ x ∷ xs else x ∷ rest

-- `sorted(set(xs))`
unfoldable pub sorted_set : List String → List String
sorted_set [] = []
sorted_set (x ∷ xs) = insert x (sorted_set xs)

contains-insert :
    (s : String) (xs : List String) (a : String)
    → contains (insert s xs) a ≡ (a == s || contains xs a)
unfolding insert
contains-insert s [] a = refl
contains-insert s (x ∷ xs) a =
    ground (arith, contains-insert s xs a, eq_iff s x, eq_iff a s, eq_iff a x)

-- Sorting and removing duplicates keep the elements.
pub contains-sorted_set :
    (xs : List String) (a : String) → contains (sorted_set xs) a ≡ contains xs a
unfolding sorted_set
contains-sorted_set [] a = refl
contains-sorted_set (x ∷ xs) a =
    rw (contains-insert x (sorted_set xs) a, contains-sorted_set xs a) refl

null-insert : (s : String) (xs : List String) → null (insert s xs) ≡ false
unfolding insert
null-insert s [] = refl
null-insert s (x ∷ xs) = ground arith

pub null-sorted_set : (xs : List String) → null (sorted_set xs) ≡ null xs
unfolding sorted_set
null-sorted_set [] = refl
null-sorted_set (x ∷ xs) = null-insert x (sorted_set xs)
