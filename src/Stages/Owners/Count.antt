-- ===== src/Stages/Owners/Count.antt =====
-- `_transition_authority_issue` counts: each allowed transition has one owner, and no other has one.
use kozo.Base.{
  ◌≤◌, ◌≡◌, refl, sym, ◌∙◌, ap, String, Bool, true, false, not, ◌||◌, null, contains, length, all,
  all_iff, leb, List, [], ◌∷◌, ◌++◌, append_assoc, none, All-Member, contains_iff, arith,
  Bool-cases, Option-cases, inl, inr, if◌then◌else◌, ◌==◌,
}
use kozo.Base.Dict.{get, put, keys, get-put, keys-put, get-Member}
use kozo.Issue.Laws.{issue_unless-none, or_else-none, first_of-none}
use kozo.Stages.{Transition}
use kozo.Stages.Graph.{Graph}
use kozo.Stages.Owners.{
  Edge, edge_equality, edge_same_iff, Owners, owners_of, add_owners,
  duplicate_transition_owner_issue, expected_transition_edges, same_set, transition_alignment_issue,
  transition_authority_issue,
}

-- The owners that a list of transitions gives an edge.
abbrev pub owners_in : Edge → List Transition → List String
owners_in edge [] = []
owners_in edge (t ∷ transitions) =
    let rest = owners_in edge transitions in
    if edge == (t.from_stage, t.to_stage) then t.owner_contract ∷ rest else rest

append_nil : (xs : List String) → xs ≡ xs ++ []
append_nil [] = refl
append_nil (x ∷ xs) = ap (λ l. x ∷ l) (append_nil xs)

owners_of-put :
    (edge other : Edge) (owner : String) (owners : Owners)
    → owners_of edge (put other (owners_of other owners ++ (owner ∷ [])) owners)
      ≡ owners_of edge owners ++ (if edge == other then owner ∷ [] else [])
owners_of-put edge other owner owners =
    let gained = owners_of other owners ++ (owner ∷ []) in
    elim (Bool-cases (edge == other)) [
      | inl e ↦
          let same : edge ≡ other = (edge_same_iff edge other).0 e in
          rw (get-put edge other gained owners, owners_of) (rw (e, same) refl)
      | inr e ↦
          rw (get-put edge other gained owners, owners_of)
            (rw e (append_nil (owners_of edge owners)))
    ]

one_more :
    (b : Bool) (xs : List String) (owner : String) (rest : List String)
    → (xs ++ (if b then owner ∷ [] else [])) ++ rest ≡ xs ++ (if b then owner ∷ rest else rest)
one_more true xs owner rest = append_assoc xs (owner ∷ []) rest
one_more false xs owner rest = ap (λ l. l ++ rest) (sym (append_nil xs))

one_key :
    (b here : Bool) (owner : String) (rest : List String)
    → ((b || here) || not (null rest)) ≡ (here || not (null (if b then owner ∷ rest else rest)))
one_key true true owner rest = refl
one_key true false owner rest = refl
one_key false true owner rest = refl
one_key false false owner rest = refl

owners_of-add :
    (edge : Edge) (owners : Owners) (transitions : List Transition)
    → owners_of edge (add_owners owners transitions)
      ≡ owners_of edge owners ++ owners_in edge transitions
unfolding add_owners
owners_of-add edge owners [] = append_nil (owners_of edge owners)
owners_of-add edge owners (t ∷ transitions) =
    let other : Edge = (t.from_stage, t.to_stage) in
    let added = put other (owners_of other owners ++ (t.owner_contract ∷ [])) owners in
    owners_of-add edge added transitions
    ∙ (rw (owners_of-put edge other t.owner_contract owners) (
        one_more (edge == other) (owners_of edge owners) t.owner_contract
          (owners_in edge transitions)))

keys-add :
    (edge : Edge) (owners : Owners) (transitions : List Transition)
    → contains (keys (add_owners owners transitions)) edge
      ≡ (contains (keys owners) edge || not (null (owners_in edge transitions)))
unfolding add_owners
keys-add edge owners [] = ground arith
keys-add edge owners (t ∷ transitions) =
    let other : Edge = (t.from_stage, t.to_stage) in
    let names = owners_of other owners ++ (t.owner_contract ∷ []) in
    keys-add edge (put other names owners) transitions
    ∙ (rw (keys-put edge other names owners) (
        one_key (edge == other) (contains (keys owners) edge) t.owner_contract
          (owners_in edge transitions)))

all-contains :
    (xs ys : List Edge) (edge : Edge)
    → all (contains ys) xs ≡ true
    → contains xs edge ≡ true
    → contains ys edge ≡ true
all-contains xs ys edge h here =
    All-Member _ xs edge
      ((all_iff (contains ys) (λ x. contains ys x ≡ true) (λ x. (λ q. q, λ q. q)) xs).0 h)
      ((contains_iff xs edge).0 here)

same_set-contains :
    (xs ys : List Edge) (edge : Edge) → same_set xs ys ≡ true → contains xs edge ≡ contains ys edge
same_set-contains xs ys edge h = ground (arith, all-contains xs ys edge, all-contains ys xs edge)

single :
    (b : Bool) (owners : List String)
    → length owners ≤ 1
    → b ≡ not (null owners)
    → length owners ≡ (if b then 1 else 0)
single b [] h e = ground (arith, e)
single b (owner ∷ owners) h e = ground (arith, e)

at_most_one :
    (edge : Edge) (owners : Owners)
    → duplicate_transition_owner_issue owners ≡ none
    → length (owners_of edge owners) ≤ 1
unfolding duplicate_transition_owner_issue
at_most_one edge owners h = elim (Option-cases (get edge owners)) [
  | inl e ↦ rw (e, owners_of) (omega arith)
  | inr (names, e) ↦
      let here =
        All-Member _ owners (edge, names) ((first_of-none _ owners).0 h)
          (get-Member owners edge names e) in
      let few = (issue_unless-none (leb (length names) 1) _ _ _).0 here in
      rw (e, owners_of) (ground arith)
]

-- Where the check of the transitions' owners finds nothing, each edge from a stage to the first stage
-- that it allows is owned by one transition of the contract, and every other edge by none.
pub transition_authority_issue-single :
    (is_file : String → Bool) (transitions : List Transition) (graph : Graph)
    → transition_authority_issue is_file transitions graph ≡ none
    → (edge : Edge)
    → length (owners_in edge transitions)
      ≡ (if contains (expected_transition_edges graph.stages) edge then 1 else 0)
unfolding transition_authority_issue transition_alignment_issue
transition_authority_issue-single is_file transitions graph h edge =
    let owners = add_owners [] transitions in
    let (duplicates, rest) = (or_else-none _ _).0 ((or_else-none _ _).0 h).1 in
    let aligned = (issue_unless-none _ _ _ _).0 ((or_else-none _ _).0 rest).0 in
    let same =
      same_set-contains (keys owners) (expected_transition_edges graph.stages) edge aligned in
    single _ (owners_in edge transitions)
      (rw (sym (owners_of-add edge [] transitions)) (at_most_one edge owners duplicates))
      (sym same ∙ keys-add edge [] transitions)
