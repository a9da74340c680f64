-- ===== src/Schema/Conforms.antt =====
-- What a document is that conforms to a schema, and that the check accepts exactly these.
use kozo.Base.{◌≡◌, Bool, true, String, string_equality, some}
use kozo.Json.{Json, str, arr, obj, Items, Fields}
use kozo.Json.Size.{EntryOf}
use kozo.Json.Access.{lookup}
use kozo.Json.Equality.{json_eq}
use kozo.Schema.{is_obj}
use kozo.Schema.Loops.{HasType, ElementOf, IsAmong}
use kozo.Schema.Keywords.{Declares, Requires, RequiredIn, IsClosed, HasMinItems, MatchesPattern}

module _ (re_search : String → String → Bool) where
  -- What a schema asks of a value itself, and not of its parts.
  pub record FitsHere (value : Json) (schema : Fields) : Type 0 where
    pub typed : (t : String) → lookup "type" schema ≡ some (str t) → HasType t value
    pub constant : (c : Json) → lookup "const" schema ≡ some c → json_eq value c ≡ true
    pub enumerated : (e : Json) → lookup "enum" schema ≡ some e → IsAmong value e
    pub members :
        (fs : Fields)
        → value ≡ obj fs
        → lookup "type" schema ≡ some (str "object")
        → (properties : Fields) × (keys : Items) × Declares schema properties
          × Requires schema keys
          × RequiredIn keys fs
          × IsClosed schema properties fs
    pub elements :
        (xs : Items)
        → value ≡ arr xs
        → lookup "type" schema ≡ some (str "array")
        → HasMinItems schema xs
    pub text :
        (s : String)
        → value ≡ str s
        → lookup "type" schema ≡ some (str "string")
        → MatchesPattern re_search schema s

  -- A value conforms when it fits here, each member under a declared key conforms to that key's
  -- schema, and each element of an array conforms to the schema of the items.
  pub data Conforms : Json → Json → Type 0 where
    conforms :
        {value schema : Json} (keywords : Fields)
        → schema ≡ obj keywords
        → FitsHere value keywords
        → ((fs properties : Fields) (key : String) (sub v : Json)
            → value ≡ obj fs
            → lookup "type" keywords ≡ some (str "object")
            → Declares keywords properties
            → EntryOf key sub properties
            → lookup key fs ≡ some v
            → Conforms v sub)
        → ((xs : Items) (sub v : Json)
            → value ≡ arr xs
            → lookup "type" keywords ≡ some (str "array")
            → lookup "items" keywords ≡ some sub
            → is_obj sub ≡ true
            → ElementOf v xs
            → Conforms v sub)
        → Conforms value schema
