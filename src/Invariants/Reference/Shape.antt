-- ===== src/Invariants/Reference/Shape.antt =====
-- What a verification reference is, apart from the matcher and the splits.
use kozo.Base.{
  Option, ℕ, ◌≡◌, refl, ◌↔◌, inl, inr, Bool, true, false, any, all, null, Member, nat_equality,
  List, [], ◌∷◌, ◌++◌, map, some, arith, Bool-cases, Option-cases, sym, ap, ◌∙◌,
}
use kozo.Base.Text.{
  Text, codes, is_digit, strip_prefix, strip_prefix-some, strip_prefix-append, int_of_digits,
}
use kozo.Registry.{verification_sections}
use kozo.Invariants.Reference.{
  match_index, match_section, fullmatch_ref, split_once, drop_last, split_ref, resolve_ref,
}

abbrev pub section_names : List Text
section_names = map codes verification_sections

-- `verification.SECTION[DIGITS]`
abbrev pub ref_text : Text → Text → Text
ref_text section digits = codes "verification." ++ (section ++ (b'[' ∷ (digits ++ (b']' ∷ []))))

pub record IsRef (ref section : Text) (index : ℕ) : Type 0 where
  pub digits : Text
  pub known : Member section section_names
  pub some_digit : null digits ≡ false
  pub only_digits : all is_digit digits ≡ true
  pub value : int_of_digits 0 digits ≡ index
  pub shape : ref ≡ ref_text section digits

abbrev Index : Text → Type 0
Index t =
    (digits : Text) × (null digits ≡ false)
    × (all is_digit digits ≡ true)
    × (t ≡ digits ++ (b']' ∷ []))

match_index_sound : (t : Text) → match_index t ≡ true → Index t
unfolding match_index
match_index_sound [] h = cc
match_index_sound (c ∷ []) h = cc
match_index_sound (c ∷ d ∷ []) h = (c ∷ [], refl, ground arith, ground arith)
match_index_sound (c ∷ d ∷ e ∷ t) h =
    let (digits, more, only, shape) = match_index_sound (d ∷ e ∷ t) (ground arith) in
    (c ∷ digits, refl, ground arith, cc)

match_index_complete :
    (digits : Text)
    → null digits ≡ false
    → all is_digit digits ≡ true
    → match_index (digits ++ (b']' ∷ [])) ≡ true
unfolding match_index
match_index_complete [] n a = cc
match_index_complete (c ∷ []) n a = ground arith
match_index_complete (c ∷ d ∷ []) n a = ground (arith, match_index_complete (d ∷ []) refl)
match_index_complete (c ∷ d ∷ e ∷ t) n a = ground (arith, match_index_complete (d ∷ e ∷ t) refl)

drop_last-append : (t : Text) (c : ℕ) → drop_last (t ++ (c ∷ [])) ≡ t
unfolding drop_last
drop_last-append [] c = refl
drop_last-append (a ∷ []) c = refl
drop_last-append (a ∷ b ∷ t) c = ap (λ u. a ∷ u) (drop_last-append (b ∷ t) c)

-- The two splits of a reference with a known section give that section and the digits.
split_ref-shape :
    (section digits : Text)
    → Member section section_names
    → split_ref (ref_text section digits) ≡ some (section, int_of_digits 0 digits)
unfolding split_ref split_once
split_ref-shape section digits (inl e) = rw (e, drop_last-append)
split_ref-shape section digits (inr (inl e)) = rw (e, drop_last-append)
split_ref-shape section digits (inr (inr (inl e))) = rw (e, drop_last-append)
split_ref-shape section digits (inr (inr (inr (inl e)))) = rw (e, drop_last-append)
split_ref-shape section digits (inr (inr (inr (inr (inl e))))) = rw (e, drop_last-append)
split_ref-shape section digits (inr (inr (inr (inr (inr (inl e)))))) = rw (e, drop_last-append)
split_ref-shape section digits (inr (inr (inr (inr (inr (inr e)))))) = absurd e

match_section_sound :
    (t section : Text)
    → match_section t section ≡ true
    → (index : Text) × (t ≡ section ++ (b'[' ∷ index)) × (match_index index ≡ true)
unfolding match_section
match_section_sound t section h = elim (Option-cases (strip_prefix section t)) [
  | inl e ↦ absurd (ground (arith, e))
  | inr (rest, e) ↦ elim (Option-cases (strip_prefix (b'[' ∷ []) rest)) [
    | inl f ↦ absurd (ground (arith, e, f))
    | inr (index, f) ↦ (
      index,
      (strip_prefix-some section t rest).0 e
          ∙ ap (λ u. section ++ u) ((strip_prefix-some (b'[' ∷ []) rest index).0 f),
      ground (arith, e, f),
    )
  ]
]

match_section_complete :
    (section index : Text)
    → match_index index ≡ true
    → match_section (section ++ (b'[' ∷ index)) section ≡ true
unfolding match_section
match_section_complete section index h =
    rw (strip_prefix-append section (b'[' ∷ index), match_section)
      (rw (strip_prefix-append (b'[' ∷ []) index) h)

any-Member :
    (p : Text → Bool) (xs : List Text) → any p xs ≡ true → (x : Text) × Member x xs × (p x ≡ true)
any-Member p [] h = cc
any-Member p (x ∷ xs) h = elim (Bool-cases (p x)) [
  | inl e ↦ (x, inl refl, e)
  | inr e ↦ let (y, m, q) = any-Member p xs (ground (arith, e)) in (y, inr m, q)
]

Member-any :
    (p : Text → Bool) (xs : List Text) (x : Text) → Member x xs → p x ≡ true → any p xs ≡ true
Member-any p (y ∷ xs) x (inl e) h = rw (← e) (rw h refl)
Member-any p (y ∷ xs) x (inr m) h = ground (arith, Member-any p xs x m h)
Member-any p [] x m h = absurd m

-- A text that the pattern matches is a reference, and the splits read it.
fullmatch_ref_sound :
    (ref : Text)
    → fullmatch_ref ref ≡ true
    → (section digits : Text) × Member section section_names
      × (null digits ≡ false)
      × (all is_digit digits ≡ true)
      × (ref ≡ ref_text section digits)
unfolding fullmatch_ref
fullmatch_ref_sound ref h = elim (Option-cases (strip_prefix (codes "verification.") ref)) [
  | inl e ↦ absurd (ground (arith, e))
  | inr (rest, e) ↦
      let (section, known, matched) =
        any-Member (match_section rest) section_names (rw (e, fullmatch_ref) at h) in
      let (index, shape, index_ok) = match_section_sound rest section matched in
      let (digits, more, only, index_shape) = match_index_sound index index_ok in
      (
        section,
        digits,
        known,
        more,
        only,
        (strip_prefix-some (codes "verification.") ref rest).0 e
            ∙ ap (λ u. codes "verification." ++ u)
                (shape ∙ ap (λ u. section ++ (b'[' ∷ u)) index_shape),
      )
]

fullmatch_ref-append :
    (t : Text) → fullmatch_ref (codes "verification." ++ t) ≡ any (match_section t) section_names
unfolding fullmatch_ref strip_prefix
fullmatch_ref-append t = refl

fullmatch_ref_complete :
    (section digits : Text)
    → Member section section_names
    → null digits ≡ false
    → all is_digit digits ≡ true
    → fullmatch_ref (ref_text section digits) ≡ true
fullmatch_ref_complete section digits known more only =
    fullmatch_ref-append (section ++ (b'[' ∷ (digits ++ (b']' ∷ []))))
    ∙ Member-any (match_section (section ++ (b'[' ∷ (digits ++ (b']' ∷ []))))) section_names section
        known (match_section_complete section _ (match_index_complete digits more only))

-- A reference resolves to a section and an index exactly when it is written
-- `verification.SECTION[DIGITS]` with a canonical section and decimal digits of that value.
pub resolve_ref-IsRef :
    (ref section : Text) (index : ℕ)
    → (resolve_ref ref ≡ some (section, index)) ↔ IsRef ref section index
unfolding resolve_ref
resolve_ref-IsRef ref section index = (
  λ h. elim (Bool-cases (fullmatch_ref ref)) [
    | inl m ↦
        let (s, digits, known, more, only, shape) = fullmatch_ref_sound ref m in
        let found : ◌≡◌ {A = Option (Text × ℕ)} (some (s, int_of_digits 0 digits))
            (some (section, index)) =
          sym (split_ref-shape s digits known) ∙ sym (ap split_ref shape) ∙ (rw m at h) in
        let same : s ≡ section = cc in
        record {
          digits = digits;
          known = rw same at known;
          some_digit = more;
          only_digits = only;
          value = cc;
          shape = rw same at shape;
        }
    | inr m ↦ absurd (ground (arith, m))
  ],
  λ r. rw r.shape (
      rw (fullmatch_ref_complete section r.digits r.known r.some_digit r.only_digits)
        (rw (split_ref-shape section r.digits r.known, r.value) refl)),
)
