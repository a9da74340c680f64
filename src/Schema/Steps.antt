-- ===== src/Schema/Steps.antt =====
-- The steps of `_validate_schema` on objects, arrays and strings, taken apart and put together.
use kozo.Base.{
  ◌≡◌, refl, Bool, true, String, ◌==◌, string_equality, eq_iff, inl, inr, Option, some,
  Option-cases, Bool-cases,
}
use kozo.Json.{Json, obj, arr, str, Items, Fields}
use kozo.Json.Access.{lookup}
use kozo.Result.{ok, >>=-eq-ok}
use kozo.Schema.{
  Check, is_obj, check_properties, check_items, property_schemas, required_keys, validate_object,
  validate_array, validate_string, validate_shape,
}
use kozo.Schema.Loops.{>>-ok}
use kozo.Schema.Keywords.{
  Declares, Requires, property_schemas-Declares, required_keys-Requires, RequiredIn,
  check_required_iff, IsClosed, check_additional_iff, HasMinItems, check_min_items_iff,
}

module _ (re_search : String → String → Bool) where
  -- The dispatch on the shape, in both directions.
  pub shape-elim :
      (visit : Json → Json → String → Check) (value : Json) (expected : Option Json)
      (schema : Fields) (path : String)
      → validate_shape re_search visit value expected schema path ≡ ok tt
      → ((fs : Fields)
          → value ≡ obj fs
          → expected ≡ some (str "object")
          → validate_object visit fs schema path ≡ ok tt)
        × ((xs : Items)
            → value ≡ arr xs
            → expected ≡ some (str "array")
            → validate_array visit xs schema path ≡ ok tt)
        × ((s : String)
            → value ≡ str s
            → expected ≡ some (str "string")
            → validate_string re_search s schema path ≡ ok tt)
  unfolding validate_shape
  shape-elim visit value expected schema path h = (
    λ fs e f. rw (f, validate_shape) at (rw (e, validate_shape) at h),
    λ xs e f. rw (f, validate_shape) at (rw (e, validate_shape) at h),
    λ s e f. rw (f, validate_shape) at (rw (e, validate_shape) at h),
  )

  pub shape-intro :
      (visit : Json → Json → String → Check) (value : Json) (expected : Option Json)
      (schema : Fields) (path : String)
      → ((fs : Fields)
          → value ≡ obj fs
          → expected ≡ some (str "object")
          → validate_object visit fs schema path ≡ ok tt)
      → ((xs : Items)
          → value ≡ arr xs
          → expected ≡ some (str "array")
          → validate_array visit xs schema path ≡ ok tt)
      → ((s : String)
          → value ≡ str s
          → expected ≡ some (str "string")
          → validate_string re_search s schema path ≡ ok tt)
      → validate_shape re_search visit value expected schema path ≡ ok tt
  unfolding validate_shape
  shape-intro visit (obj fs) (some (str t)) schema path o a s = elim (Bool-cases (t == "object")) [
    | inl e ↦ rw e (o fs refl (rw ((eq_iff t "object").0 e) refl))
    | inr e ↦ rw e
  ]
  shape-intro visit (arr xs) (some (str t)) schema path o a s = elim (Bool-cases (t == "array")) [
    | inl e ↦ rw e (a xs refl (rw ((eq_iff t "array").0 e) refl))
    | inr e ↦ rw e
  ]
  shape-intro visit (str x) (some (str t)) schema path o a s = elim (Bool-cases (t == "string")) [
    | inl e ↦ rw e (s x refl (rw ((eq_iff t "string").0 e) refl))
    | inr e ↦ rw e
  ]
  shape-intro visit value expected schema path o a s = refl

pub object-elim :
    (visit : Json → Json → String → Check) (fs schema : Fields) (path : String)
    → validate_object visit fs schema path ≡ ok tt
    → (properties : Fields) × (keys : Items) × Declares schema properties
      × Requires schema keys
      × RequiredIn keys fs
      × IsClosed schema properties fs
      × (check_properties visit properties fs path ≡ ok tt)
unfolding validate_object
object-elim visit fs schema path h =
    let (properties, p, h₁) = >>=-eq-ok (property_schemas schema path) _ h in
    let (keys, k, h₂) = >>=-eq-ok (required_keys schema path) _ h₁ in
    let (r, h₃) = >>-ok _ _ h₂ in
    let (c, v) = >>-ok _ _ h₃ in
    (
      properties,
      keys,
      (property_schemas-Declares schema properties path).0 p,
      (required_keys-Requires schema keys path).0 k,
      (check_required_iff keys fs path).0 r,
      (check_additional_iff schema properties fs path).0 c,
      v,
    )

pub object-intro :
    (visit : Json → Json → String → Check) (fs schema properties : Fields) (keys : Items)
    (path : String)
    → Declares schema properties
    → Requires schema keys
    → RequiredIn keys fs
    → IsClosed schema properties fs
    → check_properties visit properties fs path ≡ ok tt
    → validate_object visit fs schema path ≡ ok tt
unfolding validate_object
object-intro visit fs schema properties keys path d r i c v =
    rw ((property_schemas-Declares schema properties path).1 d) (
      rw ((required_keys-Requires schema keys path).1 r) (
        rw ((check_required_iff keys fs path).1 i)
          (rw ((check_additional_iff schema properties fs path).1 c) v)))

pub array-elim :
    (visit : Json → Json → String → Check) (xs : Items) (schema : Fields) (path : String)
    → validate_array visit xs schema path ≡ ok tt
    → HasMinItems schema xs
      × ((sub : Json)
          → lookup "items" schema ≡ some sub
          → is_obj sub ≡ true
          → check_items visit sub xs 0 path ≡ ok tt)
unfolding validate_array
array-elim visit xs schema path h =
    let (m, i) = >>-ok _ _ h in
    ((check_min_items_iff xs schema path).0 m, λ sub e o. rw o at (rw (e, validate_array) at i))

pub array-intro :
    (visit : Json → Json → String → Check) (xs : Items) (schema : Fields) (path : String)
    → HasMinItems schema xs
    → ((sub : Json)
        → lookup "items" schema ≡ some sub
        → is_obj sub ≡ true
        → check_items visit sub xs 0 path ≡ ok tt)
    → validate_array visit xs schema path ≡ ok tt
unfolding validate_array
array-intro visit xs schema path m i =
    rw ((check_min_items_iff xs schema path).1 m) (elim (Option-cases (lookup "items" schema)) [
      | inl e ↦ rw (e, validate_array)
      | inr (sub, e) ↦ elim (Bool-cases (is_obj sub)) [
        | inl o ↦ rw (e, validate_array) (rw o (i sub e o))
        | inr o ↦ rw (e, validate_array) (rw o)
      ]
    ])
