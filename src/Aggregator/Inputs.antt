-- ===== src/Aggregator/Inputs.antt =====
-- The checks of harness/aggregator.py on its inputs.
use Prim.Native.String.{◌++◌ as ◌<>◌}
use kozo.Base.{ℕ, ◌+◌, String, string_equality, if◌then◌else◌, List, [], ◌∷◌}
use kozo.Base.Format.{show_nat}
use kozo.Base.Text.{codes, is_blank}
use kozo.Json.{Json, str, Items, nil, cons}
use kozo.Result.{ok, raise, ◌>>=◌}
use kozo.Aggregator.Types.{empty_string, Run}

-- `_validate_nonempty_string`
unfoldable pub nonempty_string : String → String → Run String
nonempty_string value field_name =
    if is_blank (codes value) then raise (empty_string field_name) else ok value

unfoldable pub validate_nonempty_string : Json → String → Run String
validate_nonempty_string (str value) field_name = nonempty_string value field_name
validate_nonempty_string value field_name = raise (empty_string field_name)

string_list_from : ℕ → Items → String → Run (List String)
string_list_from index nil field_name = ok []
string_list_from index (cons value values) field_name = do
  v ← validate_nonempty_string value (field_name <> ("[" <> (show_nat index <> "]")))
  vs ← string_list_from (index + 1) values field_name
  ok (v ∷ vs)

-- `_validate_string_list`
unfoldable pub validate_string_list : Items → String → Run (List String)
unfolding string_list_from
validate_string_list values field_name = string_list_from 0 values field_name
