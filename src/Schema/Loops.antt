-- ===== src/Schema/Loops.antt =====
-- The steps of the schema check, each against what it tests.
use kozo.Base.{
  ap, Option, ℕ, ◌+◌, ◌≡◌, refl, ◌↔◌, ◌⊎◌, inl, inr, Bool, true, false, String, string_equality,
  eq_iff, arith, some, Option-cases, none,
}
use kozo.Base.Int.{ℤ}
use mathlib.Core.Option.{some-injective}
use kozo.Json.{Json, null, bool, int, str, arr, obj, Items, nil, cons, Fields, end, field}
use kozo.Json.Size.{EntryOf}
use kozo.Json.Access.{lookup, has_key}
use kozo.Base.Text.{codes}
use kozo.Source.Search.{Occurs, occurs_iff}
use kozo.Json.Equality.{json_eq, in_items}
use kozo.Result.{ok, raise, ◌>>◌}
use kozo.Schema.{
  Check, SchemaError, not_enumerated, malformed_schema, require, type_check, validate_type,
  check_const, check_enum, is_among, check_properties, check_items,
}

pub >>-ok : (m k : Check) → (m >> k) ≡ ok tt → (m ≡ ok tt) × (k ≡ ok tt)
>>-ok (ok tt) k h = (refl, h)
>>-ok (raise e) k h = cc

pub require-ok : (b : Bool) (e : SchemaError) → require b e ≡ ok tt → b ≡ true
require-ok true e h = refl
require-ok false e h = cc

-- The value has the JSON type of that name.
pub data HasType (name : String) : Json → Type 0 where
  array : (xs : Items) → name ≡ "array" → HasType name (arr xs)
  boolean : (b : Bool) → name ≡ "boolean" → HasType name (bool b)
  integer : (n : ℤ) → name ≡ "integer" → HasType name (int n)
  object : (fs : Fields) → name ≡ "object" → HasType name (obj fs)
  string : (s : String) → name ≡ "string" → HasType name (str s)

type_check-HasType : (name : String) (v : Json) → type_check name v ≡ some true → HasType name v
unfolding type_check
type_check-HasType name null h = absurd (ground arith)
type_check-HasType name (bool b) h = boolean b (
    ground (
      arith,
      eq_iff name "array",
      eq_iff name "boolean",
      eq_iff name "integer",
      eq_iff name "object",
      eq_iff name "string",
    ))
type_check-HasType name (int n) h = integer n (
    ground (
      arith,
      eq_iff name "array",
      eq_iff name "boolean",
      eq_iff name "integer",
      eq_iff name "object",
      eq_iff name "string",
    ))
type_check-HasType name (str s) h = string s (
    ground (
      arith,
      eq_iff name "array",
      eq_iff name "boolean",
      eq_iff name "integer",
      eq_iff name "object",
      eq_iff name "string",
    ))
type_check-HasType name (arr xs) h = array xs (
    ground (
      arith,
      eq_iff name "array",
      eq_iff name "boolean",
      eq_iff name "integer",
      eq_iff name "object",
      eq_iff name "string",
    ))
type_check-HasType name (obj fs) h = object fs (
    ground (
      arith,
      eq_iff name "array",
      eq_iff name "boolean",
      eq_iff name "integer",
      eq_iff name "object",
      eq_iff name "string",
    ))

HasType-type_check : (name : String) (v : Json) → HasType name v → type_check name v ≡ some true
unfolding type_check
HasType-type_check name null h = elim h [ ]
HasType-type_check name (arr xs) (array _ e) = rw e refl
HasType-type_check name (bool b) (boolean _ e) = rw e refl
HasType-type_check name (int n) (integer _ e) = rw e refl
HasType-type_check name (obj fs) (object _ e) = rw e refl
HasType-type_check name (str s) (string _ e) = rw e refl

pub validate_type_iff :
    (v : Json) (name path : String) → (validate_type v name path ≡ ok tt) ↔ HasType name v
unfolding validate_type
validate_type_iff v name path = (
  λ h. type_check-HasType name v (ground arith),
  λ t. rw (HasType-type_check name v t, validate_type),
)

pub check_const_iff :
    (v : Json) (schema : Fields) (path : String)
    → (check_const v schema path ≡ ok tt)
      ↔ ((c : Json) → lookup "const" schema ≡ some c → json_eq v c ≡ true)
unfolding check_const
check_const_iff v schema path = elim (Option-cases (lookup "const" schema)) [
  | inl e ↦ rw (e, check_const) (λ _ c f. cc, λ _. refl)
  | inr (c, e) ↦
      rw (e, check_const)
        (λ h d f. rw (← some-injective c d f) (require-ok _ _ h), λ h. rw (h c refl) refl)
]

-- What `enum` may be, and when a value is one of its options: an element of a list, a part of a text,
-- or a key of an object.
abbrev pub IsAmong : Json → Json → Type 0
IsAmong value options =
    ((xs : Items) × (options ≡ arr xs) × (in_items value xs ≡ true))
    ⊎ ((s t : String) × (value ≡ str s) × (options ≡ str t) × Occurs (codes s) (codes t))
    ⊎ ((s : String) × (fs : Fields) × (value ≡ str s) × (options ≡ obj fs) × (has_key s fs ≡ true))

is_among-IsAmong :
    (value options : Json) → is_among value options ≡ some true → IsAmong value options
unfolding is_among
is_among-IsAmong value (arr xs) h = inl (xs, refl, some-injective _ _ h)
is_among-IsAmong (str s) (str t) h =
    inr (inl (s, t, refl, refl, (occurs_iff _ _).0 (some-injective _ _ h)))
is_among-IsAmong (str s) (obj fs) h = inr (inr (s, fs, refl, refl, some-injective _ _ h))
is_among-IsAmong (int n) (obj fs) h = cc
is_among-IsAmong (bool b) (obj fs) h = cc
is_among-IsAmong null (obj fs) h = cc
is_among-IsAmong (arr xs) (obj fs) h = cc
is_among-IsAmong (obj gs) (obj fs) h = cc
is_among-IsAmong (int n) (str t) h = cc
is_among-IsAmong (bool b) (str t) h = cc
is_among-IsAmong null (str t) h = cc
is_among-IsAmong (arr xs) (str t) h = cc
is_among-IsAmong (obj gs) (str t) h = cc
is_among-IsAmong value (int n) h = cc
is_among-IsAmong value (bool b) h = cc
is_among-IsAmong value null h = cc

IsAmong-is_among :
    (value options : Json) → IsAmong value options → is_among value options ≡ some true
unfolding is_among
IsAmong-is_among value options (inl (xs, o, m)) = rw o (ap some m)
IsAmong-is_among value options (inr (inl (s, t, v, o, m))) =
    rw (o, v) (ap some ((occurs_iff (codes s) (codes t)).1 m))
IsAmong-is_among value options (inr (inr (s, fs, v, o, m))) = rw (o, v) (ap some m)

among_test :
    (found : Option Bool) (options : Json) (path : String)
    → (elim found as (λ _. Check) [
      | none ↦ raise (malformed_schema path)
      | some b ↦ require b (not_enumerated path options)
    ]
        ≡ ok tt)
      ↔ (found ≡ some true)
among_test none options path = (λ h. cc, λ h. cc)
among_test (some true) options path = (λ _. refl, λ _. refl)
among_test (some false) options path = (λ h. cc, λ h. cc)

pub check_enum_iff :
    (v : Json) (schema : Fields) (path : String)
    → (check_enum v schema path ≡ ok tt)
      ↔ ((e : Json) → lookup "enum" schema ≡ some e → IsAmong v e)
unfolding check_enum
check_enum_iff v schema path = elim (Option-cases (lookup "enum" schema)) [
  | inl e ↦ rw (e, check_enum) (λ _ c f. cc, λ _. refl)
  | inr (w, e) ↦
      let test = among_test (is_among v w) w path in
      rw (e, check_enum)
        (
          λ h d f. rw (← some-injective w d f) (is_among-IsAmong v w (test.0 h)),
          λ h. test.1 (IsAmong-is_among v w (h w refl)),
        )
]

-- The elements of a list.
abbrev pub ElementOf : Json → Items → Type 0
ElementOf v nil = ⊥
ElementOf v (cons x xs) = (v ≡ x) ⊎ ElementOf v xs

module _ (visit : Json → Json → String → Check) where
  pub check_properties-elim :
      (properties members : Fields) (path key : String) (sub v : Json)
      → check_properties visit properties members path ≡ ok tt
      → EntryOf key sub properties
      → lookup key members ≡ some v
      → (p : String) × (visit v sub p ≡ ok tt)
  unfolding check_properties
  check_properties-elim end members path key sub v h m f = absurd m
  check_properties-elim (field k s properties) members path key sub v h (inl (e, g)) f =
      let found : lookup k members ≡ some v = rw (← e) f in
      rw g (_, (>>-ok _ _ (rw (found, check_properties) at h)).0)
  check_properties-elim (field k s properties) members path key sub v h (inr m) f =
      elim (Option-cases (lookup k members)) [
        | inl e ↦
            check_properties-elim properties members path key sub v (rw (e, check_properties) at h)
              m f
        | inr (w, e) ↦
            check_properties-elim properties members path key sub v
              (>>-ok _ _ (rw (e, check_properties) at h)).1 m f
      ]

  pub check_properties-intro :
      (properties members : Fields) (path : String)
      → ((key p : String) (sub v : Json)
          → EntryOf key sub properties
          → lookup key members ≡ some v
          → visit v sub p ≡ ok tt)
      → check_properties visit properties members path ≡ ok tt
  unfolding check_properties
  check_properties-intro end members path all = refl
  check_properties-intro (field k s properties) members path all =
      let rest =
        check_properties-intro properties members path
          (λ key p sub v m f. all key p sub v (inr m) f) in
      elim (Option-cases (lookup k members)) [
        | inl e ↦ rw (e, check_properties) rest
        | inr (w, e) ↦ rw (e, check_properties) (rw (all k _ s w (inl (refl, refl)) e) rest)
      ]

  pub check_items-elim :
      (elements : Items) (index : ℕ) (path : String) (element sub : Json)
      → check_items visit sub elements index path ≡ ok tt
      → ElementOf element elements
      → (p : String) × (visit element sub p ≡ ok tt)
  unfolding check_items
  check_items-elim nil index path element sub h m = absurd m
  check_items-elim (cons x xs) index path element sub h (inl e) = rw e (_, (>>-ok _ _ h).0)
  check_items-elim (cons x xs) index path element sub h (inr m) =
      check_items-elim xs (index + 1) path element sub (>>-ok _ _ h).1 m

  pub check_items-intro :
      (elements : Items) (index : ℕ) (path : String) (sub : Json)
      → ((p : String) (element : Json) → ElementOf element elements → visit element sub p ≡ ok tt)
      → check_items visit sub elements index path ≡ ok tt
  unfolding check_items
  check_items-intro nil index path sub all = refl
  check_items-intro (cons x xs) index path sub all =
      rw (all _ x (inl refl)) (check_items-intro xs (index + 1) path sub (λ p e m. all p e (inr m)))
