-- ===== src/Aggregator/Registration.antt =====
-- The canonical order, and `_build_validator_map` of harness/aggregator.py.

use kozo.Base.Order.{sorted_set}
use kozo.Base.{
  String, not, null, contains, ◌==◌, string_equality, if◌then◌else◌, List, [], ◌∷◌, ◌++◌, map,
  Option, none, some,
}
use kozo.Registry.{checks, check_names}
use kozo.Result.{ok, ◌>>=◌, ◌>>◌}
use kozo.Aggregator.Types.{
  duplicate_validator, missing_checks, extra_checks, Run, Validator, reject_if,
}
use kozo.Aggregator.Inputs.{nonempty_string}

-- `_EXPECTED_VALIDATOR_ORDER`, and `_EXPECTED_SUBSYSTEM_BY_CHECK[name]`
unfoldable pub expected_order : List String
expected_order = check_names

unfoldable pub find_subsystem : String → List (String × String) → Option String
find_subsystem name [] = none
find_subsystem name ((n, s) ∷ table) = if name == n then some s else find_subsystem name table

unfoldable pub expected_subsystem : String → Option String
unfolding find_subsystem
expected_subsystem name = find_subsystem name checks

abbrev pub ValidatorMap : Type 0
ValidatorMap = List (String × Validator)

unfoldable pub find_validator : String → ValidatorMap → Option Validator
find_validator name [] = none
find_validator name ((n, v) ∷ registered) =
    if name == n then some v else find_validator name registered

abbrev pub registered_names : ValidatorMap → List String
registered_names = map (λ (name, _). name)

-- the loop of `_build_validator_map`
unfoldable pub register : List Validator → ValidatorMap → Run ValidatorMap
register [] registered = ok registered
register (v ∷ validators) registered = do
  name ← nonempty_string v.name "name"
  reject_if (contains (registered_names registered) name) (duplicate_validator name)
  register validators (registered ++ ((name, v) ∷ []))

-- the names of the first list that are not in the second
unfoldable pub absent : List String → List String → List String
absent [] present = []
absent (name ∷ names) present =
    let rest = absent names present in if contains present name then rest else name ∷ rest

-- `_build_validator_map`
unfoldable pub build_validator_map : List Validator → Run ValidatorMap
build_validator_map validators = do
  registered ← register validators []
  let missing = absent expected_order (registered_names registered)
  let extra = sorted_set (absent (registered_names registered) expected_order)
  reject_if (not (null missing)) (missing_checks missing)
  reject_if (not (null extra)) (extra_checks extra)
  ok registered
