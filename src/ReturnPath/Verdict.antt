-- ===== src/ReturnPath/Verdict.antt =====
-- When the return path proof passes.
use kozo.Base.{
  some-injective, ℕ, zero, suc, ◌+◌, ◌<◌, ◌≡◌, ◌↔◌, refl, sym, ◌∙◌, ap, String, true, false, not,
  ◌||◌, ltb, List, [], ◌∷◌, none, some, Option-cases, Bool-cases, inl, inr, All, arith,
}
use kozo.Base.Text.{Text}
use kozo.Source.{occurs, splitlines}
use kozo.TrapPath.Validate.{has_local_stub, has_extern_decl, has_extern_call}
use kozo.TrapPath.Validate.Fails.{OnlyFails, or_pass-none}
use kozo.ReturnPath.{
  RequiredAnchor, anchor_text, line_index, comes_after, rust_return_path_anchors,
  odin_return_path_anchors, missing_required_anchors, missing_anchor_result, first_missing_result,
  validate_required_anchors, validate_bridge, status_call, validation_call,
  validate_post_call_order, return_path_checks, validate_return_path,
}
use kozo.Validator.{Passes}

-- The first line with the needle is at that index.
abbrev pub IsFirstLine : List Text → Text → ℕ → Type 0
IsFirstLine [] needle index = ⊥
IsFirstLine (line ∷ lines) needle zero = occurs needle line ≡ true
IsFirstLine (line ∷ lines) needle (suc index) =
    (occurs needle line ≡ false) × IsFirstLine lines needle index

line_index-forth :
    (start : ℕ) (lines : List Text) (needle : Text) (index : ℕ)
    → line_index start lines needle ≡ some index
    → (n : ℕ) × (index ≡ start + n) × IsFirstLine lines needle n
unfolding line_index
line_index-forth start [] needle index h = cc
line_index-forth start (line ∷ lines) needle index h = elim (Bool-cases (occurs needle line)) [
  | inl e ↦ let same = some-injective start index (rw e at h) in (0, omega (arith, same), e)
  | inr e ↦
      let (n, q, f) = line_index-forth (start + 1) lines needle index (rw e at h) in
      (suc n, omega (arith, q), (e, f))
]

line_index-back :
    (start : ℕ) (lines : List Text) (needle : Text) (n : ℕ)
    → IsFirstLine lines needle n
    → line_index start lines needle ≡ some (start + n)
unfolding line_index
line_index-back start [] needle n h = absurd h
line_index-back start (line ∷ lines) needle zero h = rw h (ap some (omega arith))
line_index-back start (line ∷ lines) needle (suc n) (e, f) =
    rw e (line_index-back (start + 1) lines needle n f ∙ ap some (omega arith))

-- The bridge is called on an earlier line than the one that validates what it returned, each taken at
-- the first line where it stands.
abbrev pub ValidatesAfter : Text → Type 0
ValidatesAfter source =
    (call : ℕ) × (validation : ℕ) × IsFirstLine (splitlines source) status_call call
    × IsFirstLine (splitlines source) validation_call validation
    × (call < validation)

comes_after-lines :
    (lines : List Text) (a b : Text)
    → (comes_after (line_index 0 lines a) (line_index 0 lines b) ≡ true)
      ↔ ((m : ℕ) × (n : ℕ) × IsFirstLine lines a m × IsFirstLine lines b n × (m < n))
comes_after-lines lines a b = (
  λ h. elim (Option-cases (line_index 0 lines a)) [
    | inl e ↦ let never = rw e at h in cc
    | inr (i, e) ↦ elim (Option-cases (line_index 0 lines b)) [
      | inl q ↦ let never = rw (e, q) at h in cc
      | inr (j, q) ↦
          let (m, x, f) = line_index-forth 0 lines a i e in
          let (n, y, g) = line_index-forth 0 lines b j q in
          let less : ltb i j ≡ true = rw (e, q) at h in (m, n, f, g, ground (arith, x, y))
    ]
  ],
  λ (m, n, f, g, less).
      rw (line_index-back 0 lines a m f, line_index-back 0 lines b n g) (ground arith),
)

post_call_iff : (source : Text) → (validate_post_call_order source ≡ none) ↔ ValidatesAfter source
unfolding validate_post_call_order
post_call_iff source =
    let (forth, back) = comes_after-lines (splitlines source) status_call validation_call in
    elim (Bool-cases (
      comes_after (line_index 0 (splitlines source) status_call)
        (line_index 0 (splitlines source) validation_call))) [
          | inl e ↦ (λ _. forth e, λ _. rw e refl)
          | inr e ↦ (λ h. let never = rw e at h in cc, λ h. let never = back h in cc)
        ]

required_iff :
    (source : Text) (anchors : List RequiredAnchor)
    → (validate_required_anchors source anchors ≡ none)
      ↔ All (λ a. occurs (anchor_text a) source ≡ true) anchors
unfolding validate_required_anchors missing_required_anchors
required_iff source [] = (λ _. tt, λ _. refl)
required_iff source (a ∷ anchors) = elim (Bool-cases (occurs (anchor_text a) source)) [
  | inl e ↦
      let (forth, back) = required_iff source anchors in
      (λ h. (e, forth (rw e at h)), λ (_, h). rw e (back h))
  | inr e ↦ (λ h. let never = rw e at h in cc, λ (h, _). let never = sym e ∙ h in cc)
]

bridge_iff :
    (source : Text)
    → (validate_bridge source ≡ none) ↔ (
        (has_local_stub source ≡ false)
        × (has_extern_decl source ≡ true)
        × (has_extern_call source ≡ true))
unfolding validate_bridge
bridge_iff source = ground arith

-- The service declares and calls the bridge without a stub, validates after the call, and both sources
-- have all of their anchors.
abbrev pub IsProved : String → Text → Text → Type 0
IsProved root rust_source kernel_source =
    ((has_local_stub rust_source ≡ false)
      × (has_extern_decl rust_source ≡ true)
      × (has_extern_call rust_source ≡ true))
    × ValidatesAfter rust_source
    × All (λ a. occurs (anchor_text a) rust_source ≡ true) (rust_return_path_anchors root)
    × All (λ a. occurs (anchor_text a) kernel_source ≡ true) (odin_return_path_anchors root)

checks_iff :
    (root : String) (rust_source kernel_source : Text)
    → All (λ r. r ≡ none) (return_path_checks root rust_source kernel_source)
      ↔ IsProved root rust_source kernel_source
checks_iff root rust_source kernel_source =
    let bridge = bridge_iff rust_source in
    let order = post_call_iff rust_source in
    let rust = required_iff rust_source (rust_return_path_anchors root) in
    let odin = required_iff kernel_source (odin_return_path_anchors root) in
    (
      λ (a, (b, (c, (d, _)))). (bridge.0 a, order.0 b, rust.0 c, odin.0 d),
      λ (a, b, c, d). (bridge.1 a, (order.1 b, (rust.1 c, (odin.1 d, tt)))),
    )

bridge_fails : (source : Text) → OnlyFails (validate_bridge source)
unfolding validate_bridge
bridge_fails source = elim (Bool-cases (has_local_stub source)) [
  | inl a ↦ rw a refl
  | inr a ↦ elim (Bool-cases (not (has_extern_decl source) || not (has_extern_call source))) [
    | inl b ↦ rw (a, b) refl
    | inr b ↦ rw (a, b) tt
  ]
]

post_call_fails : (source : Text) → OnlyFails (validate_post_call_order source)
unfolding validate_post_call_order
post_call_fails source =
    elim (Bool-cases (
      comes_after (line_index 0 (splitlines source) status_call)
        (line_index 0 (splitlines source) validation_call))) [ inl e ↦ rw e tt | inr e ↦ rw e refl ]

missing_fails : (missing : List RequiredAnchor) → OnlyFails (first_missing_result missing)
unfolding missing_anchor_result
missing_fails [] = tt
missing_fails (a ∷ missing) = refl

required_fails :
    (source : Text) (anchors : List RequiredAnchor)
    → OnlyFails (validate_required_anchors source anchors)
unfolding validate_required_anchors
required_fails source anchors = missing_fails (missing_required_anchors source anchors)

checks_fail :
    (root : String) (rust_source kernel_source : Text)
    → All OnlyFails (return_path_checks root rust_source kernel_source)
checks_fail root rust_source kernel_source = (
  bridge_fails rust_source,
  (
    post_call_fails rust_source,
    (required_fails rust_source _, (required_fails kernel_source _, tt)),
  ),
)

-- The proof passes exactly where the service declares and calls the extern bridge without a local
-- stub, the line that validates stands below the line of the call, and every anchor of the two sources
-- is there.
pub validate_return_path-IsProved :
    (root : String) (rust_source kernel_source : Text)
    → Passes (validate_return_path root rust_source kernel_source)
      ↔ IsProved root rust_source kernel_source
unfolding validate_return_path
validate_return_path-IsProved root rust_source kernel_source =
    let (proved, checked) = checks_iff root rust_source kernel_source in
    let (forth, back) =
      or_pass-none (return_path_checks root rust_source kernel_source) _
        (checks_fail root rust_source kernel_source) refl in
    (λ h. proved (forth h), λ h. back (checked h))
