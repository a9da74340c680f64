-- ===== src/Stages/Owners.antt =====
-- `_transition_authority_issue`: every allowed transition has one owner.
pub mod Count
use Prim.Native.String.{◌++◌ as ◌<>◌}
use kozo.Base.{
  ℕ, String, Bool, true, false, not, ◌&&◌, null, contains, length, all, leb, ◌==◌, string_equality,
  Equality, if◌then◌else◌, List, [], ◌∷◌, ◌++◌, map, Option, none, some, ◌≡◌, refl, ◌↔◌, arith,
  eq_iff,
}
use kozo.Base.Dict.{get, put, keys}
use kozo.Issue.{Issue, Find, Check, issue, issue_unless, first_issue, first_of}
use kozo.Result.{Result, ok, raise}
use kozo.Stages.{Stage, Transition}
use kozo.Stages.Graph.{Graph}
use kozo.Stages.Structure.{authority_contract_issue}

abbrev pub Edge : Type 0
Edge = String × String

abbrev pub edge_same : Edge → Edge → Bool
edge_same (a, b) (c, d) = a == c && b == d

pub edge_same_iff : (x y : Edge) → (edge_same x y ≡ true) ↔ (x ≡ y)
edge_same_iff (a, b) (c, d) = ground (arith, eq_iff a c, eq_iff b d)

instance abbrev pub edge_equality : Equality Edge
edge_equality = record { equals = edge_same; equals_iff = edge_same_iff }

-- `transition_map`: the owners of each edge
abbrev pub Owners : Type 0
Owners = List (Edge × List String)

abbrev pub owners_of : Edge → Owners → List String
owners_of edge owners = elim (get edge owners) [ none ↦ [] | some names ↦ names ]

-- the loop over `contract.transitions`, with `setdefault(edge, []).append(owner)`
unfoldable pub add_owners : Owners → List Transition → Owners
add_owners owners [] = owners
add_owners owners (t ∷ transitions) =
    let edge : Edge = (t.from_stage, t.to_stage) in
    add_owners (put edge (owners_of edge owners ++ (t.owner_contract ∷ [])) owners) transitions

abbrev edge_field : String × String → String
edge_field (a, b) = "transitions." <> (a <> ("." <> b))

-- `_transition_reference_issue`
unfoldable pub transition_reference_issue : Owners → Graph → Find
transition_reference_issue owners graph =
    first_of
      (λ (a, b).
        issue_unless
          (contains (keys graph.stages_by_name) a && contains (keys graph.stages_by_name) b)
          "unknown_stage_reference" (edge_field (a, b))
          "Transition ownership references an unknown stage")
      (keys owners)

-- `_duplicate_transition_owner_issue`
unfoldable pub duplicate_transition_owner_issue : Owners → Find
duplicate_transition_owner_issue owners =
    first_of
      (λ (edge, names).
        issue_unless (leb (length names) 1) "duplicate_transition_ownership"
          (edge_field edge <> ".owner_contract")
          "A transition must have exactly one owner contract")
      owners

-- `_expected_transition_edges`; a set is a list, of which only the elements are asked for
unfoldable pub expected_transition_edges : List Stage → List Edge
expected_transition_edges [] = []
expected_transition_edges (stage ∷ stages) = elim stage.allowed_next_stages [
  | [] ↦ expected_transition_edges stages
  | next ∷ more ↦ (stage.stage_name, next) ∷ expected_transition_edges stages
]

-- `==` of two sets
abbrev pub same_set : List Edge → List Edge → Bool
same_set xs ys = all (contains ys) xs && all (contains xs) ys

-- `_transition_alignment_issue`
unfoldable pub transition_alignment_issue : Owners → Graph → Find
transition_alignment_issue owners graph =
    issue_unless (same_set (keys owners) (expected_transition_edges graph.stages))
      "transition_ownership_mismatch" "transitions"
      "Transition ownership must match every allowed stage transition exactly"

module _ (is_file : String → Bool) where
  -- `_transition_owner_reference_issue`; no edge has an empty list of owners
  unfoldable pub transition_owner_reference_issue : Owners → Find
  transition_owner_reference_issue owners =
      first_of
        (λ (edge, names). elim names [
          | [] ↦ none
          | owner ∷ more ↦
              authority_contract_issue is_file owner (edge_field edge <> ".owner_contract")
        ])
        owners

  -- `_transition_authority_issue`: none of its checks looks a key up
  unfoldable pub transition_authority_issue : List Transition → Graph → Find
  transition_authority_issue transitions graph =
      let owners = add_owners [] transitions in
      first_issue (
        transition_reference_issue owners graph
        ∷ duplicate_transition_owner_issue owners
        ∷ transition_alignment_issue owners graph
        ∷ transition_owner_reference_issue owners
        ∷ [])
