-- ===== src/Json/Equality.antt =====
-- Python's `==` on JSON values: numbers and bools compare as numbers, dicts by key.
use kozo.Base.{
  Bool, true, false, ◌&&◌, ◌||◌, ◌==◌, nat_equality, string_equality, Option, none, some,
}
use kozo.Base.Int.{ℤ, int_equality, int_beq}
use kozo.Json.{Json, null, bool, int, str, arr, obj, Items, nil, cons, Fields, end, field}
use kozo.Json.Access.{lookup, size_fields, as_number}

abbrev same_number : Option ℤ → Option ℤ → Bool
same_number none n = false
same_number (some m) none = false
same_number (some m) (some n) = int_beq m n

abbrev holds_some : (Json → Bool) → Option Json → Bool
holds_some p none = false
holds_some p (some v) = p v

unfoldable mutual
  pub json_eq : Json → Json → Bool
  json_eq null null = true
  json_eq (bool b) v = same_number (as_number (bool b)) (as_number v)
  json_eq (int n) v = same_number (some n) (as_number v)
  json_eq (str s) (str t) = s == t
  json_eq (arr xs) (arr ys) = items_eq xs ys
  json_eq (obj fs) (obj gs) = size_fields fs == size_fields gs && fields_in fs gs
  json_eq _ _ = false

  pub items_eq : Items → Items → Bool
  items_eq nil nil = true
  items_eq (cons x xs) (cons y ys) = json_eq x y && items_eq xs ys
  items_eq _ _ = false

  -- Every entry of the first is an entry of the second.
  pub fields_in : Fields → Fields → Bool
  fields_in end gs = true
  fields_in (field k v fs) gs = holds_some (json_eq v) (lookup k gs) && fields_in fs gs

-- `value in options`
unfoldable pub in_items : Json → Items → Bool
unfolding json_eq
in_items v nil = false
in_items v (cons x xs) = json_eq v x || in_items v xs
