-- ===== src/TrapPath/Function/Body.antt =====
-- What `_extract_rust_function_block` returns: a part of the source, a header and a balanced body.
use kozo.Base.{
  some-injective, ℕ, zero, suc, ◌+◌, ◌-◌, ◌≡◌, refl, sym, ◌∙◌, ap, String, List, [], ◌∷◌, ◌++◌,
  append_assoc, length, length-append, take, Option, some, Option-cases, Bool-cases, inl, inr,
  arith, ◌==◌, ◌||◌, nat_equality,
}
use kozo.Base.Text.{Text, codes, is_space, strip_prefix, strip_prefix-some}
use kozo.Source.{lstrip, matching_brace}
use kozo.Source.Braces.{Balanced, matching_brace-Balanced}
use kozo.Source.Pattern.{
  Piece, literal, spaces, some_spaces, match_pieces, starts_space, search, until,
}
use kozo.TrapPath.Function.{
  drop_word, starts_word, after_return_type, after_parameters, function_header, header_at, block_to,
  extract_rust_function_block,
}

-- The second text is an end of the first.
abbrev HasEnd : Text → Text → Type 0
HasEnd t end = (front : Text) × (t ≡ front ++ end)

HasEnd-trans : (a b c : Text) → HasEnd a b → HasEnd b c → HasEnd a c
HasEnd-trans a b c (f, p) (g, q) = (f ++ g, p ∙ (ap (λ l. f ++ l) q ∙ sym (append_assoc f g c)))

HasEnd-lstrip : (t : Text) → HasEnd t (lstrip t)
unfolding lstrip
HasEnd-lstrip [] = ([], refl)
HasEnd-lstrip (c ∷ t) = elim (Bool-cases (is_space c)) [
  | inl e ↦ let (f, p) = HasEnd-lstrip t in (c ∷ f, rw e (ap (λ l. c ∷ l) p))
  | inr e ↦ ([], rw e refl)
]

HasEnd-drop_word : (t : Text) → HasEnd t (drop_word t)
unfolding drop_word
HasEnd-drop_word [] = ([], refl)
HasEnd-drop_word (c ∷ t) = elim (Bool-cases (is_space c || c == b'{')) [
  | inl e ↦ ([], rw e refl)
  | inr e ↦ let (f, p) = HasEnd-drop_word t in (c ∷ f, rw e (ap (λ l. c ∷ l) p))
]

HasEnd-strip_prefix : (p t rest : Text) → strip_prefix p t ≡ some rest → HasEnd t rest
HasEnd-strip_prefix p t rest h = (p, (strip_prefix-some p t rest).0 h)

HasEnd-until : (stop : ℕ) (t body rest : Text) → until stop t ≡ some (body, rest) → HasEnd t rest
unfolding until
HasEnd-until stop [] body rest h = cc
HasEnd-until stop (c ∷ t) body rest h = elim (Bool-cases (c == stop)) [
  | inl e ↦
      let same = some-injective ([], t) (body, rest) (rw e at h) in
      (c ∷ [], ap (λ (p : Text × Text). c ∷ p.1) same)
  | inr e ↦ elim (Option-cases (until stop t)) [
    | inl q ↦ let never = rw (e, q) at h in cc
    | inr ((body', rest'), q) ↦
        let (f, p) = HasEnd-until stop t body' rest' q in
        let same = some-injective (c ∷ body', rest') (body, rest) (rw (e, q) at h) in
        (c ∷ f, ap (λ l. c ∷ l) (p ∙ ap (λ (p : Text × Text). f ++ p.1) same))
  ]
]

HasEnd-pieces :
    (pieces : List Piece) (t rest : Text) → match_pieces pieces t ≡ some rest → HasEnd t rest
unfolding match_pieces
HasEnd-pieces [] t rest h = ([], some-injective t rest h)
HasEnd-pieces (literal p ∷ pieces) t rest h = elim (Option-cases (strip_prefix p t)) [
  | inl e ↦ let never = rw (e, match_pieces) at h in cc
  | inr (u, e) ↦
      HasEnd-trans t u rest (HasEnd-strip_prefix p t u e)
        (HasEnd-pieces pieces u rest (rw (e, match_pieces) at h))
]
HasEnd-pieces (spaces ∷ pieces) t rest h =
    HasEnd-trans t (lstrip t) rest (HasEnd-lstrip t) (HasEnd-pieces pieces (lstrip t) rest h)
HasEnd-pieces (some_spaces ∷ pieces) t rest h = elim (Bool-cases (starts_space t)) [
  | inl e ↦
      HasEnd-trans t (lstrip t) rest (HasEnd-lstrip t)
        (HasEnd-pieces pieces (lstrip t) rest (rw e at h))
  | inr e ↦ let never = rw e at h in cc
]

HasEnd-return_type : (t rest : Text) → after_return_type t ≡ some rest → HasEnd t rest
unfolding after_return_type
HasEnd-return_type t rest h = elim (Option-cases (strip_prefix (codes "->") (lstrip t))) [
  | inl e ↦ ([], some-injective t rest (rw (e, after_return_type) at h))
  | inr (u, e) ↦ elim (Bool-cases (starts_word (lstrip u))) [
    | inl q ↦
        let same = some-injective (drop_word (lstrip u)) rest (rw (e, q, after_return_type) at h) in
        let word = HasEnd-trans u (lstrip u) _ (HasEnd-lstrip u) (HasEnd-drop_word (lstrip u)) in
        let arrow = HasEnd-trans t (lstrip t) u (HasEnd-lstrip t) (HasEnd-strip_prefix _ _ u e) in
        rw (sym same) (HasEnd-trans t u _ arrow word)
    | inr q ↦ let never = rw (e, q, after_return_type) at h in cc
  ]
]

HasEnd-parameters :
    (name : String) (t rest : Text) → after_parameters name t ≡ some rest → HasEnd t rest
unfolding after_parameters
HasEnd-parameters name t rest h =
    let pieces : List Piece =
      literal (codes "fn")
      ∷ some_spaces
      ∷ literal (codes name)
      ∷ spaces
      ∷ literal (codes "(")
      ∷ [] in
    elim (Option-cases (match_pieces pieces t)) [
      | inl e ↦ let never = rw (e, after_parameters) at h in cc
      | inr (u, e) ↦ elim (Option-cases (until b')' u)) [
        | inl q ↦ let never = rw (e, q, after_parameters) at h in cc
        | inr ((body, v), q) ↦
            let same = some-injective v rest (rw (e, q, after_parameters) at h) in
            rw (sym same)
              (HasEnd-trans t u v (HasEnd-pieces pieces t u e) (HasEnd-until b')' u body v q))
      ]
    ]

-- A header ends with the brace that opens the body.
header_brace :
    (name : String) (t body : Text)
    → function_header name t ≡ some body
    → (front : Text) × (t ≡ front ++ (b'{' ∷ body))
unfolding function_header
header_brace name t body h = elim (Option-cases (after_parameters name t)) [
  | inl e ↦ let never = rw (e, function_header) at h in cc
  | inr (u, e) ↦ elim (Option-cases (after_return_type u)) [
    | inl q ↦ let never = rw (e, q, function_header) at h in cc
    | inr (v, q) ↦
        let brace =
          (strip_prefix-some (codes "{") (lstrip v) body).0 (rw (e, q, function_header) at h) in
        let (f, p) =
          HasEnd-trans t u (lstrip v) (HasEnd-parameters name t u e)
            (HasEnd-trans u v (lstrip v) (HasEnd-return_type u v q) (HasEnd-lstrip v)) in
        (f, p ∙ ap (λ l. f ++ l) brace)
  ]
]

searched :
    {A : Type 0} (at_position : Text → Option A) (t : Text) (a : A)
    → search at_position t ≡ some a
    → (end : Text) × HasEnd t end × (at_position end ≡ some a)
unfolding search
searched at_position [] a h = ([], ([], refl), h)
searched at_position (c ∷ t) a h = elim (Option-cases (at_position (c ∷ t))) [
  | inl e ↦
      let (end, (f, p), q) = searched at_position t a (rw e at h) in
      (end, (c ∷ f, ap (λ l. c ∷ l) p), q)
  | inr (b, e) ↦ (c ∷ t, ([], refl), e ∙ (rw e at h))
]

take_front : (front rest : Text) (n : ℕ) → n ≡ length front → take n (front ++ rest) ≡ front
take_front [] rest n e = rw e refl
take_front (x ∷ front) rest zero e = absurd (omega arith)
take_front (x ∷ front) rest (suc n) e = ap (λ l. x ∷ l) (take_front front rest n (omega arith))

end_of_body :
    (front a rest : Text)
    → front ++ (b'{' ∷ (a ++ (b'}' ∷ rest))) ≡ (front ++ (b'{' ∷ (a ++ (b'}' ∷ [])))) ++ rest
end_of_body front a rest = sym (
    append_assoc front (b'{' ∷ (a ++ (b'}' ∷ []))) rest
    ∙ ap (λ l. front ++ (b'{' ∷ l)) (append_assoc a (b'}' ∷ []) rest))

header_found :
    (name : String) (source start body : Text)
    → search (header_at name) source ≡ some (start, body)
    → HasEnd source start × ((front : Text) × (start ≡ front ++ (b'{' ∷ body)))
header_found name source start body h =
    let (end, inside, here) = searched (header_at name) source (start, body) h in
    elim (Option-cases (function_header name end)) [
      | inl e ↦ let never = rw (e, header_at) at here in cc
      | inr (b, e) ↦
          let same = some-injective (end, b) (start, body) (rw (e, header_at) at here) in
          let place : end ≡ start = ap (λ (p : Text × Text). p.0) same in
          let rest : b ≡ body = ap (λ (p : Text × Text). p.1) same in
          let (front, q) = header_brace name end b e in
          (rw place at inside, (front, sym place ∙ (q ∙ ap (λ l. front ++ (b'{' ∷ l)) rest)))
    ]

-- The length that is taken reaches from the header to the closing brace.
block_to-shape :
    (start open_body header body after : Text) (index : ℕ)
    → start ≡ header ++ (b'{' ∷ open_body)
    → open_body ≡ body ++ (b'}' ∷ after)
    → index ≡ length body
    → (start ≡ (header ++ (b'{' ∷ (body ++ (b'}' ∷ [])))) ++ after)
      × (block_to start open_body index ≡ header ++ (b'{' ∷ (body ++ (b'}' ∷ []))))
block_to-shape start open_body header body after index p q n =
    let shape = header ++ (b'{' ∷ (body ++ (b'}' ∷ []))) in
    let whole : start ≡ shape ++ after =
      p ∙ (ap (λ l. header ++ (b'{' ∷ l)) q ∙ end_of_body header body after) in
    let long : length start ≡ length header + suc (length open_body) =
      ap length p ∙ length-append header (b'{' ∷ open_body) in
    let short : length shape ≡ length header + suc (length body + 1) =
      length-append header (b'{' ∷ (body ++ (b'}' ∷ [])))
      ∙ ap (λ k. length header + suc k) (length-append body (b'}' ∷ [])) in
    let reach : (length start - length open_body) + suc index ≡ length shape = omega arith in
    (whole, rw reach (rw whole (take_front shape after (length shape) refl)))

-- The block of a function that is found stands in the source as it is, and is a header with a body in
-- braces that is balanced: the search for the closing brace neither stops inside nor runs on.
pub extract_rust_function_block-Balanced :
    (source : Text) (name : String) (block : Text)
    → extract_rust_function_block source name ≡ some block
    → (before : Text) × (header : Text) × (body : Text) × (after : Text) × (source
        ≡ before ++ (block ++ after))
      × (block ≡ header ++ (b'{' ∷ (body ++ (b'}' ∷ []))))
      × Balanced body
unfolding extract_rust_function_block
extract_rust_function_block-Balanced source name block h =
    elim (Option-cases (search (header_at name) source)) [
      | inl e ↦ let never = rw (e, extract_rust_function_block) at h in cc
      | inr ((start, open_body), e) ↦ elim (Option-cases (matching_brace 1 open_body)) [
        | inl q ↦ let never = rw (e, q, extract_rust_function_block) at h in cc
        | inr (index, q) ↦
            let ((before, r), (header, p)) = header_found name source start open_body e in
            let (body, after, balanced, closes, n) =
              (matching_brace-Balanced open_body index).0 q in
            let same = some-injective _ block (rw (e, q, extract_rust_function_block) at h) in
            let (whole, shape) =
              block_to-shape start open_body header body after index p closes n in
            let shaped = sym same ∙ shape in
            (
              before,
              header,
              body,
              after,
              r ∙ ap (λ l. before ++ l) (whole ∙ ap (λ l. l ++ after) (sym shaped)),
              shaped,
              balanced,
            )
      ]
    ]
