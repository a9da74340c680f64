-- ===== src/Stages/Cycle.antt =====
-- `_indirect_cycle_issue`: stages without prerequisites are taken away until none is left.
pub mod Ranks
pub mod Exact
pub mod Complete
pub mod Verdict
use Prim.Native.String.{◌++◌ as ◌<>◌}
use kozo.Base.{
  ℕ, zero, suc, String, Bool, true, false, not, null, contains, ltb, length, filter,
  string_equality, if◌then◌else◌, List, [], ◌∷◌, map, Option, none, some,
}
use kozo.Base.Dict.{get, keys, put_all}
use kozo.Base.Order.{sorted_set}
use kozo.Issue.{Check, out_of_fuel, Find, Issue, issue}
use kozo.Result.{ok, raise}
use kozo.Stages.{Stage}

-- The prerequisites that are left of each stage that is left. A set of them is a list: only its
-- elements are asked for.
abbrev pub Remaining : Type 0
Remaining = List (String × List String)

abbrev pub has_none : String × List String → Bool
has_none (name, prerequisites) = null prerequisites

-- `ready`, before it is sorted
unfoldable pub ready_names : Remaining → List String
ready_names remaining = keys (filter has_none remaining)

-- `difference_update`
abbrev pub without : List String → List String → List String
without ready prerequisites = filter (λ p. not (contains ready p)) prerequisites

abbrev pub trim : List String → String × List String → String × List String
trim ready (name, prerequisites) = (name, without ready prerequisites)

abbrev pub is_left : List String → String × List String → Bool
is_left ready (name, prerequisites) = not (contains ready name)

-- `_remove_ready_stages`
unfoldable pub remove_ready_stages : Remaining → List String → Remaining
remove_ready_stages remaining ready = map (trim ready) (filter (is_left ready) remaining)

-- a position that is missing is after every other
abbrev before : Option ℕ → Option ℕ → Bool
before none b = false
before (some a) none = true
before (some a) (some b) = ltb a b

-- `min(remaining, key=graph.order_by_name.get)`
unfoldable pub earliest : List (String × ℕ) → String → List String → String
earliest order_by_name name [] = name
earliest order_by_name name (other ∷ names) =
    earliest order_by_name
      (if before (get other order_by_name) (get name order_by_name) then other else name) names

cycle_issue : List (String × ℕ) → Remaining → Find
cycle_issue order_by_name [] = none
cycle_issue order_by_name ((name, prerequisites) ∷ remaining) = some (
    issue "indirect_cycle"
      ("stages." <> (earliest order_by_name name (keys remaining) <> ".required_prerequisites"))
      "Runtime progression prerequisites contain an indirect cycle")

-- the `while` loop, on fuel for its rounds
unfoldable pub cycle_loop : ℕ → List (String × ℕ) → Remaining → Check
unfolding cycle_issue
cycle_loop fuel order_by_name [] = ok none
cycle_loop zero order_by_name (entry ∷ remaining) = raise out_of_fuel
cycle_loop (suc fuel) order_by_name (entry ∷ remaining) =
    let ready = sorted_set (ready_names (entry ∷ remaining)) in
    let rest = cycle_loop fuel order_by_name (remove_ready_stages (entry ∷ remaining) ready) in
    if null ready then ok (cycle_issue order_by_name (entry ∷ remaining)) else rest

-- the dict comprehension
abbrev pub remaining_of : List Stage → Remaining
remaining_of stages =
    put_all [] (map (λ (s : Stage). (s.stage_name, s.required_prerequisites)) stages)

-- `_indirect_cycle_issue`
unfoldable pub indirect_cycle_issue : List (String × ℕ) → List Stage → Check
indirect_cycle_issue order_by_name stages =
    let remaining = remaining_of stages in cycle_loop (length remaining) order_by_name remaining
