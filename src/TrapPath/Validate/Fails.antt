-- ===== src/TrapPath/Validate/Fails.antt =====
-- Whatever a check of the trap path returns is a failure.
use kozo.Base.{
  ◌≡◌, ◌↔◌, refl, sym, ◌∙◌, String, List, [], ◌∷◌, Option, none, some, Option-cases, Bool-cases,
  inl, inr, All,
}
use kozo.Base.Text.{Text}
use kozo.Registry.{fail as fail_status}
use kozo.Source.{occurs, first_missing, first_absent}
use kozo.TrapPath.{RuntimePathAnchor, anchor_text}
use kozo.TrapPath.Anchors.{
  failure_result, runtime_anchor_failure, ordered_anchor_result, required_anchor_result,
  forbidden_snippet_result, first_result,
}
use kozo.TrapPath.Function.{extract_rust_function_block}
use kozo.TrapPath.Validate.{
  has_local_stub, has_stub_marker, has_extern_decl, validate_extern_contract, with_block,
  validate_live_heartbeat_block, validate_live_nop_block, validate_live_status_block,
  validate_bridge_helper_block, validate_no_payload_bridge_helper_block,
  validate_nop_return_status_block, validate_status_return_status_block,
  validate_core_service_entry_block, trap_path_checks, or_pass,
}
use kozo.Validator.{ValidationResult, Passes, fail-ne-pass}

abbrev pub OnlyFails : Option ValidationResult → Type 0
OnlyFails none = Unit
OnlyFails (some result) = result.status ≡ fail_status

ordered_fails :
    (block source : Text) (anchors : List RuntimePathAnchor)
    → OnlyFails (ordered_anchor_result block source anchors)
unfolding ordered_anchor_result runtime_anchor_failure failure_result
ordered_fails block source anchors = elim (Option-cases (first_missing anchor_text anchors block)) [
  | inl e ↦ rw (e, ordered_anchor_result) tt
  | inr (a, e) ↦ rw (e, ordered_anchor_result) refl
]

required_fails :
    (block source : Text) (anchors : List RuntimePathAnchor)
    → OnlyFails (required_anchor_result block source anchors)
unfolding required_anchor_result runtime_anchor_failure failure_result
required_fails block source anchors = elim (Option-cases (first_absent anchor_text anchors block)) [
  | inl e ↦ rw (e, required_anchor_result) tt
  | inr (a, e) ↦ rw (e, required_anchor_result) refl
]

forbidden_fails :
    (block : Text) (snippets : List RuntimePathAnchor)
    → OnlyFails (forbidden_snippet_result block snippets)
unfolding forbidden_snippet_result failure_result
forbidden_fails block [] = tt
forbidden_fails block (s ∷ snippets) = elim (Bool-cases (occurs (anchor_text s) block)) [
  | inl e ↦ rw e refl
  | inr e ↦ rw e (forbidden_fails block snippets)
]

pub first_result_fails :
    (results : List (Option ValidationResult))
    → All OnlyFails results
    → OnlyFails (first_result results)
unfolding first_result
first_result_fails [] h = tt
first_result_fails (none ∷ results) h = first_result_fails results h.1
first_result_fails (some r ∷ results) h = h.0

bare_ordered_fails :
    (block source : Text) (snippets anchors : List RuntimePathAnchor)
    → OnlyFails (
        first_result (
          forbidden_snippet_result block snippets
          ∷ ordered_anchor_result block source anchors
          ∷ []))
bare_ordered_fails block source snippets anchors =
    first_result_fails
      (forbidden_snippet_result block snippets ∷ ordered_anchor_result block source anchors ∷ [])
      (forbidden_fails block snippets, (ordered_fails block source anchors, tt))

bare_required_fails :
    (block source : Text) (snippets anchors : List RuntimePathAnchor)
    → OnlyFails (
        first_result (
          forbidden_snippet_result block snippets
          ∷ required_anchor_result block source anchors
          ∷ []))
bare_required_fails block source snippets anchors =
    first_result_fails
      (forbidden_snippet_result block snippets ∷ required_anchor_result block source anchors ∷ [])
      (forbidden_fails block snippets, (required_fails block source anchors, tt))

with_block_fails :
    (source : Text) (name : String) (missing : ValidationResult)
    (check : Text → Option ValidationResult)
    → OnlyFails (some missing)
    → ((block : Text) → OnlyFails (check block))
    → OnlyFails (with_block source name missing check)
with_block_fails source name missing check m f =
    elim (Option-cases (extract_rust_function_block source name)) [
      | inl e ↦ rw (e, with_block) m
      | inr (block, e) ↦ rw (e, with_block) (f block)
    ]

extern_fails : (source : Text) → OnlyFails (validate_extern_contract source)
unfolding validate_extern_contract failure_result
extern_fails source = elim (Bool-cases (has_local_stub source)) [
  | inl a ↦ rw a refl
  | inr a ↦ elim (Bool-cases (has_stub_marker source)) [
    | inl b ↦ rw (a, b) refl
    | inr b ↦ elim (Bool-cases (has_extern_decl source)) [
      | inl c ↦ rw (a, b, c) tt
      | inr c ↦ rw (a, b, c) refl
    ]
  ]
]

pub checks_fail : (source : Text) → All OnlyFails (trap_path_checks source)
unfolding validate_live_heartbeat_block validate_live_nop_block validate_live_status_block
    validate_bridge_helper_block validate_no_payload_bridge_helper_block
    validate_nop_return_status_block validate_status_return_status_block
    validate_core_service_entry_block failure_result
checks_fail source = (
  extern_fails source,
  (
    with_block_fails source _ _ _ refl (λ b. required_fails b source _),
    (
      with_block_fails source _ _ _ refl (λ b. bare_required_fails b source _ _),
      (
        with_block_fails source _ _ _ refl (λ b. required_fails b source _),
        (
          with_block_fails source _ _ _ refl (λ b. required_fails b source _),
          (
            with_block_fails source _ _ _ refl (λ b. bare_ordered_fails b source _ _),
            (
              with_block_fails source _ _ _ refl (λ b. bare_ordered_fails b source _ _),
              (
                with_block_fails source _ _ _ refl (λ b. ordered_fails b source _),
                (with_block_fails source _ _ _ refl (λ b. ordered_fails b source _), tt),
              ),
            ),
          ),
        ),
      ),
    ),
  ),
)

pub first_result-none :
    (results : List (Option ValidationResult))
    → (first_result results ≡ none) ↔ All (λ r. r ≡ none) results
unfolding first_result
first_result-none [] = (λ _. tt, λ _. refl)
first_result-none (none ∷ results) =
    let (forth, back) = first_result-none results in (λ h. (refl, forth h), λ (_, h). back h)
first_result-none (some r ∷ results) = (λ h. cc, λ (h, _). cc)

-- Where all checks can only fail, a validator that passes otherwise passes where no check returns.
pub or_pass-none :
    (checks : List (Option ValidationResult)) (passing : ValidationResult)
    → All OnlyFails checks
    → Passes passing
    → Passes (or_pass (first_result checks) passing) ↔ All (λ r. r ≡ none) checks
or_pass-none checks passing fails p =
    let (forth, back) = first_result-none checks in
    elim (Option-cases (first_result checks)) [
      | inl e ↦ (λ _. forth e, λ _. rw e p)
      | inr (r, e) ↦
          let failed = rw e at (first_result_fails checks fails) in
          (λ h. absurd (fail-ne-pass (sym failed ∙ (rw e at h))), λ h. let never = back h in cc)
    ]
