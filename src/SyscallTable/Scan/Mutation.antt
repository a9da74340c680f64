-- ===== src/SyscallTable/Scan/Mutation.antt =====
-- What a text that the pattern of an assignment to the payload does not find has no part of.
use kozo.Base.{
  ℕ, ◌≡◌, ◌≢◌, refl, sym, Bool-cases, inl, inr, nat_beq_iff, Bool, true, false, ◌==◌, nat_equality,
  all, [], ◌∷◌, ◌++◌, Option, none, some, ap, ◌∙◌, arith,
}
use kozo.Base.Text.{Text, codes, is_space, strip_prefix}
use kozo.Source.{lstrip}
use kozo.Source.Pattern.{search_between, first_some}
use kozo.SyscallTable.Scan.{
  is_name_character, starts_name, drop_name, is_assigned, boundary, match_mutation, is_found,
  mutates,
}

-- The character at the end of a text, and the given one where there is none.
abbrev pub end_of : Option ℕ → Text → Option ℕ
end_of before [] = before
end_of before (c ∷ t) = end_of (some c) t

-- `payload.NAME = ` stands in the text, with white space or none before the sign, which is not the
-- first of two, and there is no word that goes on into `payload`.
pub record AssignsPayload (is_word : ℕ → Bool) (t : Text) : Type 0 where
  pub before : Text
  pub first : ℕ
  pub name : Text
  pub gap : Text
  pub after : Text
  pub stands : t ≡ before ++ (codes "payload." ++ ((first ∷ name) ++ (gap ++ (b'=' ∷ after))))
  pub edge : boundary is_word (end_of none before) (codes "payload.") ≡ true
  pub letter : starts_name (first ∷ []) ≡ true
  pub named : all is_name_character name ≡ true
  pub blank : all is_space gap ≡ true
  pub alone : (rest : Text) → after ≢ b'=' ∷ rest

space_is_no_name : (c : ℕ) → is_space c ≡ true → is_name_character c ≡ false
unfolding is_space
space_is_no_name c h = ground arith

drop_gap :
    (gap rest : Text)
    → all is_space gap ≡ true
    → (drop_name (gap ++ (b'=' ∷ rest)) ≡ gap ++ (b'=' ∷ rest))
      × (lstrip (gap ++ (b'=' ∷ rest)) ≡ b'=' ∷ rest)
unfolding drop_name lstrip is_space
drop_gap [] rest h = (refl, refl)
drop_gap (c ∷ gap) rest h = ground (arith, drop_gap gap rest, space_is_no_name c)

drop_named :
    (name rest : Text)
    → all is_name_character name ≡ true
    → drop_name (name ++ rest) ≡ drop_name rest
unfolding drop_name
drop_named [] rest h = refl
drop_named (c ∷ name) rest h = ground (arith, drop_named name rest)

is_assigned-alone :
    (after : Text) → ((rest : Text) → after ≢ b'=' ∷ rest) → is_assigned (b'=' ∷ after) ≡ true
is_assigned-alone [] h = refl
is_assigned-alone (d ∷ after) h = elim (Bool-cases (d == b'=')) [
  | inl e ↦ absurd (h after (ap (λ c. c ∷ after) ((nat_beq_iff d b'=').0 e)))
  | inr e ↦ ground (arith, e)
]

abbrev tail_of : (first : ℕ) → Text → Text → Text → Text
tail_of first name gap after = first ∷ (name ++ (gap ++ (b'=' ∷ after)))

tail-is_assigned :
    (first : ℕ) (name gap after : Text)
    → starts_name (first ∷ []) ≡ true
    → all is_name_character name ≡ true
    → all is_space gap ≡ true
    → ((rest : Text) → after ≢ b'=' ∷ rest)
    → is_assigned (lstrip (drop_name (tail_of first name gap after))) ≡ true
unfolding drop_name
tail-is_assigned first name gap after letter named blank alone =
    let (kept, stripped) = drop_gap gap after blank in
    let starts : is_name_character first ≡ true = ground (arith, letter) in
    let dropped : drop_name (tail_of first name gap after) ≡ gap ++ (b'=' ∷ after) =
      rw starts (drop_named name (gap ++ (b'=' ∷ after)) named ∙ kept) in
    ap (λ t. is_assigned (lstrip t)) dropped
    ∙ ap is_assigned stripped
    ∙ is_assigned-alone after alone

first_some-none :
    {A : Type 0} (a later : Option A) → first_some a later ≡ none → (a ≡ none) × (later ≡ none)
first_some-none none later h = (refl, h)
first_some-none (some a) later h = cc

search_between-none :
    {A : Type 0} (at_position : Option ℕ → Text → Option A) (start : Option ℕ) (before rest : Text)
    → search_between at_position start (before ++ rest) ≡ none
    → at_position (end_of start before) rest ≡ none
unfolding search_between
search_between-none at_position start [] [] h = h
search_between-none at_position start [] (c ∷ rest) h = (first_some-none _ _ h).0
search_between-none at_position start (c ∷ before) rest h =
    search_between-none at_position (some c) before rest (first_some-none _ _ h).1

some-none : {A : Type 0} (a : A) → some a ≢ none
some-none a h = cc

module _ (is_word : ℕ → Bool) where
  is_found-none : {A : Type 0} (o : Option A) → is_found is_word o ≡ false → o ≡ none
  is_found-none none h = refl
  is_found-none (some a) h = cc

  match_mutation-some :
      (before : Option ℕ) (field : Text)
      → boundary is_word before (codes "payload.") ≡ true
      → starts_name field ≡ true
      → is_assigned (lstrip (drop_name field)) ≡ true
      → match_mutation is_word before (codes "payload." ++ field) ≡ some field
  unfolding match_mutation strip_prefix
  match_mutation-some before field edge letter assigned =
      rw (edge, match_mutation) (rw (letter, match_mutation) (rw (assigned, match_mutation) refl))

  match_mutation-found :
      (t : Text) (a : AssignsPayload is_word t)
      → match_mutation is_word
          (end_of none a.before)
          (codes "payload." ++ tail_of a.first a.name a.gap a.after)
        ≢ none
  match_mutation-found t a h =
      let assigned =
        tail-is_assigned a.first a.name a.gap a.after a.letter a.named a.blank a.alone in
      let found =
        match_mutation-some (end_of none a.before) (tail_of a.first a.name a.gap a.after) a.edge
          a.letter assigned in
      some-none _ (sym found ∙ h)

  -- A text in which the pattern is not found has no such assignment.
  pub mutates-AssignsPayload : (t : Text) → mutates is_word t ≡ false → AssignsPayload is_word t → ⊥
  unfolding mutates
  mutates-AssignsPayload t h a =
      let clear = is_found-none (search_between (match_mutation is_word) none t) h in
      match_mutation-found t a (
        search_between-none (match_mutation is_word) none a.before _
          (ap (search_between (match_mutation is_word) none) (sym a.stands) ∙ clear))
