-- ===== src/Schema/Total.antt =====
-- The fuel of the schema check never runs out below the size of the schema.
use kozo.Base.{
  ℕ, zero, suc, ◌+◌, ◌≤◌, ◌<◌, ◌≡◌, ◌≢◌, refl, Bool, true, String, arith, Option, some,
  Option-cases, inl, inr, Bool-cases, ◌==◌, string_equality,
}
use kozo.Json.{Json, null, bool, int, str, arr, obj, Items, nil, cons, Fields, end, field}
use kozo.Json.Access.{lookup}
use kozo.Json.Size.{size, fields_size, size-lookup, EntryOf}
use kozo.Result.{Result, ok, raise, ◌>>=◌, ◌>>◌}
use kozo.Schema.{
  Check, SchemaError, out_of_fuel, check_type, check_const, check_enum, validate_shape,
  validate_schema, validate_type, type_check, check_required, check_extras, check_additional,
  check_properties, check_items, check_min_items, property_schemas, required_keys, validate_object,
  validate_array, validate_string, is_obj,
}
use kozo.Schema.Keywords.{property_schemas-Declares}
use kozo.Schema.Exact.{size-Declares}

abbrev Fine : {A : Type 0} → Result SchemaError A → Type 0
Fine m = m ≢ raise out_of_fuel

Fine->>= :
    {A B : Type 0} (m : Result SchemaError A) (f : A → Result SchemaError B)
    → Fine m
    → ((a : A) → m ≡ ok a → Fine (f a))
    → Fine (m >>= f)
Fine->>= (ok a) f h k = k a refl
Fine->>= (raise e) f h k = λ p. h (cc)

Fine->> : (m k : Check) → Fine m → Fine k → Fine (m >> k)
Fine->> m k h g = Fine->>= m (λ _. k) h (λ _ _. g)

Fine-type : (v : Json) (t path : String) → Fine (validate_type v t path)
unfolding validate_type type_check
Fine-type v t path = λ h. ground arith

Fine-const : (v : Json) (schema : Fields) (path : String) → Fine (check_const v schema path)
unfolding check_const
Fine-const v schema path = λ h. ground arith

Fine-enum : (v : Json) (schema : Fields) (path : String) → Fine (check_enum v schema path)
unfolding check_enum
Fine-enum v schema path = λ h. ground arith

Fine-required : (keys : Items) (fs : Fields) (path : String) → Fine (check_required keys fs path)
unfolding check_required
Fine-required nil fs path = λ h. cc
Fine-required (cons (str k) keys) fs path =
    Fine->> _ _ (λ h. ground arith) (Fine-required keys fs path)
Fine-required (cons k keys) fs path = λ h. cc

Fine-additional : (schema p fs : Fields) (path : String) → Fine (check_additional schema p fs path)
unfolding check_additional check_extras
Fine-additional schema p fs path = λ h. ground arith

Fine-min_items :
    (xs : Items) (schema : Fields) (path : String) → Fine (check_min_items xs schema path)
unfolding check_min_items
Fine-min_items xs schema path = λ h. ground arith

module _ (visit : Json → Json → String → Check) where
  Fine-properties :
      (properties fs : Fields) (path : String)
      → ((key p : String) (sub v : Json) → EntryOf key sub properties → Fine (visit v sub p))
      → Fine (check_properties visit properties fs path)
  unfolding check_properties
  Fine-properties end fs path all = λ h. cc
  Fine-properties (field k s properties) fs path all =
      let rest = Fine-properties properties fs path (λ key p sub v m. all key p sub v (inr m)) in
      elim (Option-cases (lookup k fs)) [
        | inl e ↦ rw (e, check_properties) rest
        | inr (w, e) ↦ rw (e, check_properties) (Fine->> _ _ (all k _ s w (inl (refl, refl))) rest)
      ]

  Fine-items :
      (sub : Json) (xs : Items) (index : ℕ) (path : String)
      → ((p : String) (v : Json) → Fine (visit v sub p))
      → Fine (check_items visit sub xs index path)
  unfolding check_items
  Fine-items sub nil index path all = λ h. cc
  Fine-items sub (cons x xs) index path all =
      Fine->> _ _ (all _ x) (Fine-items sub xs (index + 1) path all)

  Fine-object :
      (fs schema : Fields) (path : String)
      → ((p : String) (sub v : Json) → size sub < suc (fields_size schema) → Fine (visit v sub p))
      → Fine (validate_object visit fs schema path)
  unfolding validate_object
  Fine-object fs schema path all =
      Fine->>= (property_schemas schema path) _ (unfold property_schemas in λ h. ground arith)
        λ properties e.
          Fine->>= (required_keys schema path) _ (unfold required_keys in λ h. ground arith)
            λ keys f. Fine->> _ _ (Fine-required keys fs path) (
              Fine->> _ _ (Fine-additional schema properties fs path) (
                Fine-properties properties fs path (λ key p sub v m. all p sub v (
                  size-Declares (λ _ _. true) schema properties key sub
                    ((property_schemas-Declares schema properties path).0 e) m))))

  Fine-array :
      (xs : Items) (schema : Fields) (path : String)
      → ((p : String) (sub v : Json) → size sub < suc (fields_size schema) → Fine (visit v sub p))
      → Fine (validate_array visit xs schema path)
  unfolding validate_array
  Fine-array xs schema path all =
      Fine->> _ _ (Fine-min_items xs schema path) (elim (Option-cases (lookup "items" schema)) [
        | inl e ↦ rw (e, validate_array) (λ h. cc)
        | inr (sub, e) ↦ elim (Bool-cases (is_obj sub)) [
          | inl o ↦
              rw (e, validate_array)
                (rw o (
                  Fine-items sub xs 0 path (λ p v. all p sub v (size-lookup "items" schema sub e))))
          | inr o ↦ rw (e, validate_array) (rw o (λ h. cc))
        ]
      ])

module _ (re_search : String → String → Bool) where
  Fine-string :
      (s : String) (schema : Fields) (path : String)
      → Fine (validate_string re_search s schema path)
  unfolding validate_string
  Fine-string s schema path = λ h. ground arith

  Fine-shape :
      (visit : Json → Json → String → Check) (v : Json) (expected : Option Json) (schema : Fields)
      (path : String)
      → ((p : String) (sub w : Json) → size sub < suc (fields_size schema) → Fine (visit w sub p))
      → Fine (validate_shape re_search visit v expected schema path)
  unfolding validate_shape
  Fine-shape visit (obj fs) (some (str t)) schema path all = elim (Bool-cases (t == "object")) [
    | inl e ↦ rw e (Fine-object visit fs schema path all)
    | inr e ↦ rw e (λ h. cc)
  ]
  Fine-shape visit (arr xs) (some (str t)) schema path all = elim (Bool-cases (t == "array")) [
    | inl e ↦ rw e (Fine-array visit xs schema path all)
    | inr e ↦ rw e (λ h. cc)
  ]
  Fine-shape visit (str s) (some (str t)) schema path all = elim (Bool-cases (t == "string")) [
    | inl e ↦ rw e (Fine-string s schema path)
    | inr e ↦ rw e (λ h. cc)
  ]
  Fine-shape visit v expected schema path all = λ h. cc

  Fine-check_type :
      (v : Json) (e : Option Json) (path : String) → Fine (check_type re_search v e path)
  unfolding check_type
  Fine-check_type v (some (str t)) path = Fine-type v t path
  Fine-check_type v e path = λ h. cc

-- With fuel for the size of the schema, the recursion reaches its end: the result is an acceptance
-- or one of the program's own errors, never that the fuel ran out.
pub validate_schema-ends :
    (re_search : String → String → Bool) (fuel : ℕ) (value schema : Json) (path : String)
    → size schema ≤ fuel
    → validate_schema re_search fuel value schema path ≢ raise out_of_fuel
unfolding validate_schema size
validate_schema-ends re zero v null path b = absurd (omega arith)
validate_schema-ends re zero v (bool c) path b = absurd (omega arith)
validate_schema-ends re zero v (int n) path b = absurd (omega arith)
validate_schema-ends re zero v (str s) path b = absurd (omega arith)
validate_schema-ends re zero v (arr xs) path b = absurd (omega arith)
validate_schema-ends re zero v (obj fs) path b = absurd (omega arith)
validate_schema-ends re (suc fuel) v (obj fs) path b =
    Fine->> _ _ (Fine-check_type re v (lookup "type" fs) path) (
      Fine->> _ _ (Fine-const v fs path) (
        Fine->> _ _ (Fine-enum v fs path) (
          Fine-shape re (validate_schema re fuel) v (lookup "type" fs) fs path
            (λ p sub w s. validate_schema-ends re fuel w sub p (omega (arith, s, b))))))
validate_schema-ends re (suc fuel) v schema path b = λ h. cc
