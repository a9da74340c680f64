-- ===== src/Schema/Exact.antt =====
-- The schema check accepts exactly the values that conform, and the size of the schema is fuel enough.
use kozo.Base.{
  ℕ, zero, suc, ◌≤◌, ◌<◌, ◌≡◌, refl, ◌↔◌, Bool, String, arith, Option, none, some, inl, inr,
}
use kozo.Json.{Json, str, obj, Fields}
use kozo.Json.Access.{lookup}
use kozo.Json.Size.{size, fields_size, size-lookup, size-EntryOf, EntryOf}
use kozo.Result.{ok}
use kozo.Schema.{check_type, validate_schema}
use kozo.Schema.Loops.{
  >>-ok, HasType, validate_type_iff, check_const_iff, check_enum_iff, check_properties-elim,
  check_properties-intro, check_items-elim, check_items-intro,
}
use kozo.Schema.Keywords.{validate_string_iff, Declares}
use kozo.Schema.Conforms.{Conforms, conforms}
use kozo.Schema.Steps.{shape-elim, shape-intro, object-elim, object-intro, array-elim, array-intro}

module _ (re_search : String → String → Bool) where
  check_type_iff :
      (value : Json) (expected : Option Json) (path : String)
      → (check_type re_search value expected path ≡ ok tt)
        ↔ ((t : String) → expected ≡ some (str t) → HasType t value)
  unfolding check_type
  check_type_iff value none path = (λ _ t e. cc, λ _. refl)
  check_type_iff value (some (str n)) path = (
    λ h t e. let same : n ≡ t = cc in rw (← same) ((validate_type_iff value n path).0 h),
    λ h. (validate_type_iff value n path).1 (h n refl),
  )
  check_type_iff value (some other) path = (λ _ t e. cc, λ _. refl)

  declared_once : (schema p q : Fields) → Declares schema p → Declares schema q → p ≡ q
  declared_once schema p q d e = ground arith

  -- What is accepted conforms.
  validate_schema_sound :
      (fuel : ℕ) (value schema : Json) (path : String)
      → validate_schema re_search fuel value schema path ≡ ok tt
      → Conforms re_search value schema
  unfolding validate_schema
  validate_schema_sound zero value schema path h = cc
  validate_schema_sound (suc fuel) value (obj schema) path h =
      let (t, h₁) = >>-ok _ _ h in
      let (c, h₂) = >>-ok _ _ h₁ in
      let (e, h₃) = >>-ok _ _ h₂ in
      let (o, a, s) =
        shape-elim re_search (validate_schema re_search fuel) value (lookup "type" schema) schema
          path h₃ in
      conforms schema refl
        (record {
          typed = (check_type_iff value (lookup "type" schema) path).0 t;
          constant = (check_const_iff value schema path).0 c;
          enumerated = (check_enum_iff value schema path).0 e;
          members = λ fs v k.
              let (p, ks, d, r, i, z, _) =
                object-elim (validate_schema re_search fuel) fs schema path (o fs v k) in
              (p, ks, d, r, i, z);
          elements =
              λ xs v k. (array-elim (validate_schema re_search fuel) xs schema path (a xs v k)).0;
          text = λ x v k. (validate_string_iff re_search x schema path).0 (s x v k);
        })
        (λ fs properties key sub w v k d m f.
          let (p, ks, d', _, _, _, visited) =
            object-elim (validate_schema re_search fuel) fs schema path (o fs v k) in
          let (at, found) =
            check_properties-elim (validate_schema re_search fuel) properties fs path key sub w
              (rw (declared_once schema properties p d d') visited) m f in
          validate_schema_sound fuel w sub at found)
        (λ xs sub w v k l j m.
          let (_, visited) =
            array-elim (validate_schema re_search fuel) xs schema path (a xs v k) in
          let (at, found) =
            check_items-elim (validate_schema re_search fuel) xs 0 path w sub (visited sub l j) m in
          validate_schema_sound fuel w sub at found)
  validate_schema_sound (suc fuel) value schema path h = cc

  pub size-Declares :
      (schema properties : Fields) (key : String) (sub : Json)
      → Declares schema properties
      → EntryOf key sub properties
      → size sub < suc (fields_size schema)
  unfolding size
  size-Declares schema properties key sub (inl e) m =
      omega (
        arith,
        size-lookup "properties" schema (obj properties) e,
        size-EntryOf key sub properties m,
      )
  size-Declares schema properties key sub (inr (e, f)) m = absurd (rw f at m)

  -- What conforms is accepted, given fuel for the size of the schema.
  validate_schema_complete :
      (fuel : ℕ) (value schema : Json) (path : String)
      → size schema ≤ fuel
      → Conforms re_search value schema
      → validate_schema re_search fuel value schema path ≡ ok tt
  unfolding validate_schema size
  validate_schema_complete zero value schema path b (conforms keywords e fits parts items) =
      let none_left : size (obj keywords) ≤ 0 = rw e at b in absurd (omega arith)
  validate_schema_complete (suc fuel) value schema path b (conforms keywords e fits parts items) =
      let room : size (obj keywords) ≤ suc fuel = rw e at b in
      let visit = validate_schema re_search fuel in
      rw e (
        rw ((check_type_iff value (lookup "type" keywords) path).1 fits.typed) (
          rw ((check_const_iff value keywords path).1 fits.constant) (
            rw ((check_enum_iff value keywords path).1 fits.enumerated) (
              shape-intro re_search visit value (lookup "type" keywords) keywords path
                (λ fs v k.
                  let (p, ks, d, r, i, z) = fits.members fs v k in
                  object-intro visit fs keywords p ks path d r i z (
                    check_properties-intro visit p fs path (λ key at sub w m f.
                      validate_schema_complete fuel w sub at
                        (omega (arith, size-Declares keywords p key sub d m, room))
                        (parts fs p key sub w v k d m f))))
                (λ xs v k. array-intro visit xs keywords path (fits.elements xs v k) (λ sub l o.
                  check_items-intro visit xs 0 path sub (λ at w m.
                    validate_schema_complete fuel w sub at
                      (omega (arith, size-lookup "items" keywords sub l, room))
                      (items xs sub w v k l o m))))
                (λ x v k. (validate_string_iff re_search x keywords path).1 (fits.text x v k))))))

-- With fuel for the size of the schema, the check accepts a value exactly when the value conforms
-- to the schema, at every path.
pub validate_schema-Conforms :
    (re_search : String → String → Bool) (fuel : ℕ) (value schema : Json) (path : String)
    → size schema ≤ fuel
    → (validate_schema re_search fuel value schema path ≡ ok tt) ↔ Conforms re_search value schema
validate_schema-Conforms re_search fuel value schema path b = (
  validate_schema_sound re_search fuel value schema path,
  validate_schema_complete re_search fuel value schema path b,
)
