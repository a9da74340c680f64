-- ===== src/Invariants/Table.antt =====
-- The table of invariants and its two readers, `get_predicate` and `get_schema`.
use kozo.Base.{
  ℕ, String, Bool, true, false, ◌&&◌, ◌==◌, nat_equality, string_equality, if◌then◌else◌, List, [],
  ◌∷◌,
}
use kozo.Base.Int.{pos}
use kozo.Base.Text.{Text, codes}
use kozo.Json.{Json, str, int}
use kozo.Json.Access.{dict}
use kozo.Invariants.{
  is_nonempty_string, is_string_list, is_nonempty_string_list, is_verification_ref,
}
use kozo.Result.{Result, ok, raise}

abbrev pub nonempty_string_pattern : String
nonempty_string_pattern = ".*\\S.*"

abbrev pub utc_timestamp_pattern : String
utc_timestamp_pattern = "^\\d{4}-\\d{2}-\\d{2}T\\d{2}:\\d{2}:\\d{2}Z$"

abbrev pub verification_ref_pattern : String
verification_ref_pattern =
    "^verification\\.(tests_run|logs|diffs|invariants|expected_behavior|actual_behavior)\\[[0-9]+\\]$"

pub record Invariant : Type 0 where
  pub predicate : Json → Bool
  pub schema : Json

abbrev string_schema : String → Json
string_schema pattern = dict (("type", str "string") ∷ ("pattern", str pattern) ∷ [])

-- `is_decimal` is the class `\d` of `re`.
module _ (is_decimal : ℕ → Bool) where
  -- A template against a text: `0` stands for a decimal digit, and else a character for itself.
  unfoldable pub match_template : Text → Text → Bool
  match_template [] [] = true
  match_template [] (c ∷ t) = false
  match_template (p ∷ ps) [] = false
  match_template (p ∷ ps) (c ∷ t) =
      (if p == b'0' then is_decimal c else (p == c)) && match_template ps t

  unfoldable pub is_utc_timestamp : Json → Bool
  is_utc_timestamp (str s) = match_template (codes "0000-00-00T00:00:00Z") (codes s)
  is_utc_timestamp _ = false

  unfoldable pub invariants_table : List (String × Invariant)
  invariants_table =
      (
        "nonempty_string",
        record { predicate = is_nonempty_string; schema = string_schema nonempty_string_pattern },
      )
      ∷ (
        "string_list",
        record {
          predicate = is_string_list;
          schema =
              dict (("type", str "array") ∷ ("items", string_schema nonempty_string_pattern) ∷ []);
        },
      )
      ∷ (
        "nonempty_string_list",
        record {
          predicate = is_nonempty_string_list;
          schema = dict (
              ("type", str "array")
              ∷ ("minItems", int (pos 1))
              ∷ ("items", string_schema nonempty_string_pattern)
              ∷ []);
        },
      )
      ∷ (
        "utc_timestamp",
        record { predicate = is_utc_timestamp; schema = string_schema utc_timestamp_pattern },
      )
      ∷ (
        "verification_ref",
        record { predicate = is_verification_ref; schema = string_schema verification_ref_pattern },
      )
      ∷ []

  -- the table's entry, or the `ValueError` with the unknown name
  unfoldable pub get_invariant : String → List (String × Invariant) → Result String Invariant
  get_invariant name [] = raise name
  get_invariant name ((k, i) ∷ table) =
      let rest = get_invariant name table in if name == k then ok i else rest

  unfoldable pub get_predicate : String → Result String (Json → Bool)
  get_predicate name = elim (get_invariant name invariants_table) [
    | raise e ↦ raise e
    | ok i ↦ ok i.predicate
  ]

  unfoldable pub get_schema : String → Result String Json
  get_schema name = elim (get_invariant name invariants_table) [
    | raise e ↦ raise e
    | ok i ↦ ok i.schema
  ]
