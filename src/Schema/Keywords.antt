-- ===== src/Schema/Keywords.antt =====
-- The object, array and string keywords of a schema, each against what it asks of a value.
use kozo.Base.{
  some-injective, sym, ◌∙◌, ◌≡◌, refl, ◌∙◌, ◌↔◌, ◌⊎◌, inl, inr, Bool, true, String, ◌==◌,
  string_equality, eq_iff, arith, none, some, Option-cases, Bool-cases, List, [], ◌∷◌,
}
use kozo.Base.Int.{ℤ, pos, int_leb}
use kozo.Json.{Json, null, bool, int, str, arr, obj, Items, nil, cons, Fields, end, field}
use kozo.Json.Access.{lookup, has_key, size_items, as_number}
use kozo.Result.{ok}
use kozo.Schema.{
  no_match, Check, require, check_required, required_keys, characters, keys_of, property_schemas,
  extra_keys, check_extras, check_additional, is_false, check_min_items, validate_string,
}
use kozo.Schema.Loops.{>>-ok, require-ok}

abbrev pub Declares : Fields → Fields → Type 0
Declares schema properties =
    (lookup "properties" schema ≡ some (obj properties))
    ⊎ ((lookup "properties" schema ≡ none) × (properties ≡ end))

abbrev pub Requires : Fields → Items → Type 0
Requires schema keys =
    (lookup "required" schema ≡ some (arr keys))
    ⊎ ((lookup "required" schema ≡ none) × (keys ≡ nil))
    ⊎ ((s : String) × (lookup "required" schema ≡ some (str s)) × (keys ≡ characters s))
    ⊎ ((fs : Fields) × (lookup "required" schema ≡ some (obj fs)) × (keys ≡ keys_of fs))

pub property_schemas-Declares :
    (schema properties : Fields) (path : String)
    → (property_schemas schema path ≡ ok properties) ↔ Declares schema properties
unfolding property_schemas
property_schemas-Declares schema properties path = ground arith

pub required_keys-Requires :
    (schema : Fields) (keys : Items) (path : String)
    → (required_keys schema path ≡ ok keys) ↔ Requires schema keys
unfolding required_keys
required_keys-Requires schema keys path = ground arith

-- Every required key is a string and a key of the value.
abbrev pub RequiredIn : Items → Fields → Type 0
RequiredIn nil members = Unit
RequiredIn (cons (str key) keys) members = (has_key key members ≡ true) × RequiredIn keys members
RequiredIn (cons key keys) members = ⊥

pub check_required_iff :
    (keys : Items) (members : Fields) (path : String)
    → (check_required keys members path ≡ ok tt) ↔ RequiredIn keys members
unfolding check_required
check_required_iff nil members path = (λ _. tt, λ _. refl)
check_required_iff (cons (str key) keys) members path = (
  λ h. let (a, b) = >>-ok _ _ h in (require-ok _ _ a, (check_required_iff keys members path).0 b),
  λ h. rw h.0 ((check_required_iff keys members path).1 h.1),
)
check_required_iff (cons key keys) members path = (λ h. cc, λ h. absurd h)

-- No key beyond the declared ones, where the schema closes the object.
abbrev pub IsClosed : Fields → Fields → Fields → Type 0
IsClosed schema properties members =
    is_false (lookup "additionalProperties" schema) ≡ true
    → (key : String) → has_key key members ≡ true
    → has_key key properties ≡ true

extra_keys-nil :
    (members properties : Fields)
    → extra_keys members properties ≡ []
    → (key : String) → has_key key members ≡ true
    → has_key key properties ≡ true
unfolding extra_keys has_key
extra_keys-nil end properties h key m = cc
extra_keys-nil (field k v members) properties h key m = elim (Bool-cases (has_key k properties)) [
  | inl a ↦ elim (Bool-cases (key == k)) [
    | inl e ↦ rw ((eq_iff key k).0 e) a
    | inr e ↦ extra_keys-nil members properties (rw a at h) key (rw e at m)
  ]
  | inr a ↦ let h' = rw a at h in cc
]

nil-extra_keys :
    (members properties : Fields)
    → ((key : String) → has_key key members ≡ true → has_key key properties ≡ true)
    → extra_keys members properties ≡ []
unfolding extra_keys has_key
nil-extra_keys end properties h = refl
nil-extra_keys (field k v members) properties h =
    ground (
      arith,
      h k,
      eq_iff k k,
      nil-extra_keys members properties (λ key m. h key (ground (arith, m))),
    )

check_extras_iff :
    (keys : List String) (path : String) → (check_extras keys path ≡ ok tt) ↔ (keys ≡ [])
unfolding check_extras
check_extras_iff [] path = (λ _. refl, λ _. refl)
check_extras_iff (k ∷ keys) path = (λ h. cc, λ h. cc)

pub check_additional_iff :
    (schema properties members : Fields) (path : String)
    → (check_additional schema properties members path ≡ ok tt) ↔ IsClosed schema properties members
unfolding check_additional
check_additional_iff schema properties members path =
    let extras = check_extras_iff (extra_keys members properties) path in
    elim (Bool-cases (is_false (lookup "additionalProperties" schema))) [
      | inl e ↦ rw e (
        λ h _. extra_keys-nil members properties (extras.0 h),
        λ h. extras.1 (nil-extra_keys members properties (h refl)),
      )
      | inr e ↦ rw e (λ _ h. cc, λ _. refl)
    ]

abbrev pub HasMinItems : Fields → Items → Type 0
HasMinItems schema elements =
    (v : Json) (n : ℤ)
    → lookup "minItems" schema ≡ some v
    → as_number v ≡ some n
    → int_leb n (pos (size_items elements)) ≡ true

pub check_min_items_iff :
    (elements : Items) (schema : Fields) (path : String)
    → (check_min_items elements schema path ≡ ok tt) ↔ HasMinItems schema elements
unfolding check_min_items
check_min_items_iff elements schema path = elim (Option-cases (lookup "minItems" schema)) [
  | inl e ↦ rw (e, check_min_items) (λ _ v n f g. cc, λ _. refl)
  | inr (w, e) ↦ elim (Option-cases (as_number w)) [
    | inl g ↦ rw (e, check_min_items) (rw (g, check_min_items) (λ _ v n f k. cc, λ _. refl))
    | inr (m, g) ↦ (
      λ h v n f k.
          let same : w ≡ v = some-injective w v (sym e ∙ f) in
          let number : n ≡ m = some-injective n m (sym k ∙ (rw same at g)) in
          rw number (require-ok _ _ (rw (g, check_min_items) at (rw (e, check_min_items) at h))),
      λ h. rw (e, check_min_items) (rw (g, check_min_items) (rw (h w m e g) refl)),
    )
  ]
]

abbrev pub MatchesPattern : (String → String → Bool) → Fields → String → Type 0
MatchesPattern re_search schema text =
    (pattern : String)
    → lookup "pattern" schema ≡ some (str pattern)
    → re_search pattern text ≡ true

check_pattern : (String → String → Bool) → String → Json → String → Check
check_pattern re_search text v path = elim v [
  | str pattern ↦ require (re_search pattern text) (no_match path pattern)
  | _ ↦ ok tt
]

check_pattern_iff :
    (re_search : String → String → Bool) (text : String) (v : Json) (path : String)
    → (check_pattern re_search text v path ≡ ok tt)
      ↔ ((pattern : String) → some v ≡ some (str pattern) → re_search pattern text ≡ true)
unfolding check_pattern
check_pattern_iff re_search text (str pattern) path = (
  λ h p f. let same : pattern ≡ p = cc in rw (← same) (require-ok _ _ h),
  λ h. rw (h pattern refl) refl,
)
check_pattern_iff re_search text null path = (λ _ p f. cc, λ _. refl)
check_pattern_iff re_search text (bool b) path = (λ _ p f. cc, λ _. refl)
check_pattern_iff re_search text (int n) path = (λ _ p f. cc, λ _. refl)
check_pattern_iff re_search text (arr xs) path = (λ _ p f. cc, λ _. refl)
check_pattern_iff re_search text (obj fs) path = (λ _ p f. cc, λ _. refl)

pub validate_string_iff :
    (re_search : String → String → Bool) (text : String) (schema : Fields) (path : String)
    → (validate_string re_search text schema path ≡ ok tt) ↔ MatchesPattern re_search schema text
unfolding validate_string check_pattern
validate_string_iff re_search text schema path = elim (Option-cases (lookup "pattern" schema)) [
  | inl e ↦ rw (e, validate_string) (λ _ p f. cc, λ _. refl)
  | inr (v, e) ↦ rw (e, validate_string) (check_pattern_iff re_search text v path)
]
