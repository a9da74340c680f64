-- ===== src/Json/Access.antt =====
-- Reading JSON values: lookup, truth, and Python's `==`, under which `True == 1`.
use kozo.Base.{
  [], ◌≡◌, refl, eq_iff, arith, List, ◌∷◌, eq_iff, ◌∷◌, arith, ◌≡◌, List, ℕ, suc, String, Bool,
  true, false, not, Option, none, some, ◌==◌, string_equality, if◌then◌else◌, nat_equality,
}
use kozo.Base.Int.{ℤ, pos, int_equality}
use kozo.Json.{Json, null, bool, int, str, arr, obj, Items, nil, cons, Fields, end, field}

-- `d.get(key)`
unfoldable pub lookup : String → Fields → Option Json
lookup key end = none
lookup key (field k v fs) = if key == k then some v else lookup key fs

-- `key in d`
unfoldable pub has_key : String → Fields → Bool
has_key key end = false
has_key key (field k v fs) = if key == k then true else has_key key fs

abbrev pub size_items : Items → ℕ
size_items nil = 0
size_items (cons x xs) = suc (size_items xs)

abbrev pub size_fields : Fields → ℕ
size_fields end = 0
size_fields (field k v fs) = suc (size_fields fs)

-- The number that a value is in an arithmetic comparison: a bool is 0 or 1.
unfoldable pub as_number : Json → Option ℤ
as_number (bool true) = some (pos 1)
as_number (bool false) = some (pos 0)
as_number (int n) = some n
as_number _ = none

-- `bool(value)`
unfoldable pub truthy : Json → Bool
truthy null = false
truthy (bool b) = b
truthy (int n) = not (n == pos 0)
truthy (str s) = not (s == "")
truthy (arr nil) = false
truthy (arr (cons x xs)) = true
truthy (obj end) = false
truthy (obj (field k v fs)) = true

-- `d[key] = value`
unfoldable pub put : String → Json → Fields → Fields
put key v end = field key v end
put key v (field k w fs) = if key == k then field k v fs else field k w (put key v fs)

-- A list of strings as a JSON array.
unfoldable pub strings : List String → Items
strings [] = nil
strings (s ∷ ss) = cons (str s) (strings ss)

-- A dict by its entries.
unfoldable pub entries : List (String × Json) → Fields
entries [] = end
entries ((k, v) ∷ es) = field k v (entries es)

unfoldable pub dict : List (String × Json) → Json
unfolding entries
dict es = obj (entries es)

pub lookup-put :
    (key j : String) (v : Json) (fs : Fields)
    → lookup j (put key v fs) ≡ (if j == key then some v else lookup j fs)
unfolding lookup put
lookup-put key j v end = refl
lookup-put key j v (field k w fs) =
    ground (arith, eq_iff key k, eq_iff j k, eq_iff j key, lookup-put key j v fs)
