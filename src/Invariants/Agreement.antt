-- ===== src/Invariants/Agreement.antt =====
-- The two ways in which the program applies the pattern of a text that is not empty, `.*\S.*`.
use kozo.Base.{
  true, false, not, all, any, ◌==◌, nat_equality, ℕ, [], ◌∷◌, ◌++◌, ◌≡◌, ◌≢◌, refl, ◌↔◌, arith,
  Bool-cases, inl, inr, ◌&&◌, ◌||◌, ap,
}
use kozo.Base.Text.{Text, is_space}
use kozo.Invariants.{fullmatch_nonempty, search_nonempty}

-- The regular expressions that the pattern is made of: `.`, `\S`, `r*` and one behind another.
pub data Regex : Type 0 where
  dot : Regex
  not_space : Regex
  star : Regex → Regex
  seq : Regex → Regex → Regex

-- A regular expression describes a text as a whole.
pub data Matches : Regex → Text → Type 0 where
  a_dot : (c : ℕ) → c ≢ 10 → Matches dot (c ∷ [])
  a_character : (c : ℕ) → is_space c ≡ false → Matches not_space (c ∷ [])
  no_more : (r : Regex) → Matches (star r) []
  one_more : (r : Regex) (s t : Text) → Matches r s → Matches (star r) t → Matches (star r) (s ++ t)
  both : (q r : Regex) (s t : Text) → Matches q s → Matches r t → Matches (seq q r) (s ++ t)

-- `.*\S.*`
abbrev pub nonempty_regex : Regex
nonempty_regex = seq (star dot) (seq not_space (star dot))

star_dot : (t : Text) → all (λ c. not (c == 10)) t ≡ true → Matches (star dot) t
star_dot [] h = no_more dot
star_dot (c ∷ t) h =
    one_more dot (c ∷ []) t (a_dot c (ground (arith, h))) (star_dot t (ground (arith, h)))

star_dot-all : (t : Text) → Matches (star dot) t → all (λ c. not (c == 10)) t ≡ true
star_dot-all _ (no_more _) = refl
star_dot-all _ (one_more _ _ t (a_dot c n) m) = ground (arith, star_dot-all t m, n)

line_feed_is_space : (c : ℕ) → is_space c ≡ false → c ≢ 10
unfolding is_space
line_feed_is_space c h e = ground (arith, h, e)

all-append :
    (s t : Text)
    → all (λ c. not (c == 10)) (s ++ t) ≡ (all (λ c. not (c == 10)) s && all (λ c. not (c == 10)) t)
all-append [] t = refl
all-append (c ∷ s) t = ground (arith, all-append s t)

any-append :
    (s t : Text)
    → any (λ c. not (is_space c)) (s ++ t)
      ≡ (any (λ c. not (is_space c)) s || any (λ c. not (is_space c)) t)
any-append [] t = refl
any-append (c ∷ s) t = ground (arith, any-append s t)

-- A text with a character that is no white space, cut at one.
cut :
    (t : Text)
    → any (λ c. not (is_space c)) t ≡ true
    → (front : Text) × (c : ℕ) × (back : Text) × (t ≡ front ++ (c ∷ back)) × (is_space c ≡ false)
cut [] h = cc
cut (c ∷ t) h = elim (Bool-cases (is_space c)) [
  | inl e ↦
      let (front, d, back, q, n) = cut t (ground (arith, e, h)) in
      (c ∷ front, d, back, ap (λ u. c ∷ u) q, n)
  | inr e ↦ ([], c, t, refl, e)
]

Matches-fullmatch : (t : Text) → fullmatch_nonempty t ≡ true → Matches nonempty_regex t
unfolding fullmatch_nonempty
Matches-fullmatch t h =
    let (front, c, back, q, n) = cut t (ground (arith, h)) in
    let whole : all (λ c. not (c == 10)) (front ++ (c ∷ back)) ≡ true =
      rw (← q) (ground (arith, h)) in
    let parts = all-append front (c ∷ back) in
    rw q (
      both (star dot) (seq not_space (star dot)) front (c ∷ back)
        (star_dot front (ground (arith, whole, parts)))
        (both not_space (star dot) (c ∷ []) back (a_character c n)
          (star_dot back (ground (arith, whole, parts)))))

fullmatch-Matches : (t : Text) → Matches nonempty_regex t → fullmatch_nonempty t ≡ true
unfolding fullmatch_nonempty
fullmatch-Matches _ (both _ _ s _ m (both _ _ _ u (a_character c n) w)) = ground (
  arith,
  all-append s (c ∷ u),
  any-append s (c ∷ u),
  star_dot-all s m,
  star_dot-all u w,
  n,
  line_feed_is_space c,
)

-- Some part of the text is as the expression has it.
abbrev pub HasMatch : Regex → Text → Type 0
HasMatch r t =
    (before : Text) × (part : Text) × (after : Text) × (t ≡ before ++ (part ++ after))
    × Matches r part

HasMatch-search : (t : Text) → search_nonempty t ≡ true → HasMatch nonempty_regex t
unfolding search_nonempty
HasMatch-search t h =
    let (front, c, back, q, n) = cut t h in
    (
      front,
      c ∷ [],
      back,
      q,
      both (star dot) (seq not_space (star dot)) [] (c ∷ []) (no_more dot)
          (both not_space (star dot) (c ∷ []) [] (a_character c n) (no_more dot)),
    )

Matches-any : (t : Text) → Matches nonempty_regex t → any (λ c. not (is_space c)) t ≡ true
Matches-any _ (both _ _ s _ m (both _ _ _ u (a_character c n) w)) =
    ground (arith, any-append s (c ∷ u), n)

search-HasMatch : (t : Text) → HasMatch nonempty_regex t → search_nonempty t ≡ true
unfolding search_nonempty
search-HasMatch t (before, part, after, q, m) =
    rw q
      (ground (arith, any-append before (part ++ after), any-append part after, Matches-any part m))

-- The predicate of the invariants accepts a text exactly when `.*\S.*` describes all of it, and the
-- search of the schema check accepts it exactly when `.*\S.*` describes a part of it.
pub nonempty-Matches :
    (t : Text)
    → ((fullmatch_nonempty t ≡ true) ↔ Matches nonempty_regex t)
      × ((search_nonempty t ≡ true) ↔ HasMatch nonempty_regex t)
nonempty-Matches t =
    ((Matches-fullmatch t, fullmatch-Matches t), (HasMatch-search t, search-HasMatch t))
