-- ===== src/Json/Size.antt =====
-- The size of a JSON value, which bounds the depth of its parts.
use kozo.Base.{◌⊎◌, inl, inr, ◌≤◌, ℕ, suc, ◌+◌, ◌<◌, ◌≡◌, String, some, arith, string_equality}
use kozo.Json.{Json, null, bool, int, str, arr, obj, Items, nil, cons, Fields, end, field}
use kozo.Json.Access.{lookup}

unfoldable mutual
  pub size : Json → ℕ
  size null = 1
  size (bool b) = 1
  size (int n) = 1
  size (str s) = 1
  size (arr xs) = suc (items_size xs)
  size (obj fs) = suc (fields_size fs)

  pub items_size : Items → ℕ
  items_size nil = 0
  items_size (cons x xs) = size x + items_size xs

  pub fields_size : Fields → ℕ
  fields_size end = 0
  fields_size (field k v fs) = size v + fields_size fs

-- What a key holds is smaller than the dict.
pub size-lookup :
    (key : String) (fs : Fields) (v : Json) → lookup key fs ≡ some v → size v < suc (fields_size fs)
unfolding lookup size
size-lookup key end v h = cc
size-lookup key (field k w fs) v h = ground (arith, size-lookup key fs v)

-- The entries of a dict.
abbrev pub EntryOf : String → Json → Fields → Type 0
EntryOf key v end = ⊥
EntryOf key v (field k w fs) = ((key ≡ k) × (v ≡ w)) ⊎ EntryOf key v fs

pub size-EntryOf :
    (key : String) (v : Json) (fs : Fields) → EntryOf key v fs → size v ≤ fields_size fs
unfolding size
size-EntryOf key v end m = absurd m
size-EntryOf key v (field k w fs) (inl (e, f)) = rw f (omega arith)
size-EntryOf key v (field k w fs) (inr m) = omega (arith, size-EntryOf key v fs m)
