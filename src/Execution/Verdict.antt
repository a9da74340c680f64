-- ===== src/Execution/Verdict.antt =====
-- When the execution proof passes, and which anchor it names when it does not.
use kozo.Base.{
  some-injective, arith, ◌≡◌, ◌↔◌, refl, sym, ◌∙◌, true, false, List, [], ◌∷◌, ◌++◌, map, none,
  some, Option-cases, inl, inr, All,
}
use kozo.Base.Text.{Text}
use kozo.Source.{occurs, first_missing, first_absent}
use kozo.Source.Order.{InOrder, first_missing-InOrder, first_missing-some, first_absent-none}
use kozo.Execution.{
  ExecutionSources, OrderedAnchor, ContractCheck, heartbeat_case_label, heartbeat_execution_anchors,
  serial_observation_anchors, extract_odin_case_block, anchor_text, observation_text,
  execution_anchor_failure, ordered_branch_check, heartbeat_execution_check,
  serial_observation_check, first_failing_check, failure_result, execution_proof_result,
}
use kozo.Validator.{Passes, fail-ne-pass}

ordered_branch_check-InOrder :
    (branch source : Text)
    → ((ordered_branch_check branch source).is_ok ≡ true)
      ↔ InOrder (map anchor_text heartbeat_execution_anchors) branch
unfolding ordered_branch_check execution_anchor_failure
ordered_branch_check-InOrder branch source =
    let (forth, back) = first_missing-InOrder anchor_text heartbeat_execution_anchors branch in
    elim (Option-cases (first_missing anchor_text heartbeat_execution_anchors branch)) [
      | inl e ↦ (λ _. forth e, λ _. rw (e, ordered_branch_check) refl)
      | inr (a, e) ↦
          (λ h. let never = rw (e, ordered_branch_check) at h in cc, λ h. let never = back h in cc)
    ]

-- The kernel has the heartbeat case, and its block has the anchors in order.
abbrev pub HasBranch : Text → Type 0
HasBranch kernel =
    (branch : Text) × (extract_odin_case_block kernel heartbeat_case_label ≡ some branch)
    × InOrder (map anchor_text heartbeat_execution_anchors) branch

heartbeat_execution_check-HasBranch :
    (kernel : Text) → ((heartbeat_execution_check kernel).is_ok ≡ true) ↔ HasBranch kernel
unfolding heartbeat_execution_check
heartbeat_execution_check-HasBranch kernel =
    elim (Option-cases (extract_odin_case_block kernel heartbeat_case_label)) [
      | inl e ↦ (
        λ h. let never = rw (e, heartbeat_execution_check) at h in cc,
        λ (branch, q, _). let never = sym e ∙ q in cc,
      )
      | inr (branch, e) ↦
          let (forth, back) = ordered_branch_check-InOrder branch kernel in
          (
            λ h. (branch, e, forth (rw (e, heartbeat_execution_check) at h)),
            λ (other, q, ordered).
                let same : other ≡ branch = some-injective other branch (sym q ∙ e) in
                rw (e, heartbeat_execution_check) (back (rw same at ordered)),
          )
    ]

serial_observation_check-All :
    (serial : Text)
    → ((serial_observation_check serial).is_ok ≡ true)
      ↔ All (λ a. occurs (observation_text a) serial ≡ true) serial_observation_anchors
unfolding serial_observation_check
serial_observation_check-All serial =
    let (forth, back) = first_absent-none observation_text serial_observation_anchors serial in
    elim (Option-cases (first_absent observation_text serial_observation_anchors serial)) [
      | inl e ↦ (λ _. forth e, λ _. rw (e, serial_observation_check) refl)
      | inr (a, e) ↦ (
        λ h. let never = rw (e, serial_observation_check) at h in cc,
        λ h. let never = back h in cc,
      )
    ]

none_failing :
    (a b : ContractCheck)
    → (first_failing_check (a ∷ b ∷ []) ≡ none) ↔ ((a.is_ok ≡ true) × (b.is_ok ≡ true))
unfolding first_failing_check
none_failing a b = ground arith

-- The proof passes exactly where the kernel's heartbeat case has the anchors in their order, without
-- overlap, and the serial driver has each of its observations.
pub execution_proof_result-HasBranch :
    (sources : ExecutionSources)
    → Passes (execution_proof_result sources) ↔ (
        HasBranch sources.kernel
        × All (λ a. occurs (observation_text a) sources.serial ≡ true) serial_observation_anchors)
unfolding execution_proof_result failure_result
execution_proof_result-HasBranch sources =
    let kernel = heartbeat_execution_check-HasBranch sources.kernel in
    let serial = serial_observation_check-All sources.serial in
    let checks =
      none_failing (heartbeat_execution_check sources.kernel)
        (serial_observation_check sources.serial) in
    elim (Option-cases (
      first_failing_check (
        heartbeat_execution_check sources.kernel ∷ serial_observation_check sources.serial ∷ []))) [
          | inl e ↦ (
            λ _. (kernel.0 (checks.0 e).0, serial.0 (checks.0 e).1),
            λ _. rw (e, execution_proof_result) refl,
          )
          | inr (c, e) ↦ (
            λ h. absurd (fail-ne-pass (rw (e, execution_proof_result) at h)),
            λ (branch, seen). let never = checks.1 (kernel.1 branch, serial.1 seen) in cc,
          )
        ]

-- Where a branch that was extracted fails, the field that the check names is the anchor behind which
-- the order breaks: the anchors before it stand in order in the branch, and with it they do not.
pub ordered_branch_check-names :
    (branch source : Text)
    → (ordered_branch_check branch source).is_ok ≡ false
    → (before : List OrderedAnchor) × (anchor : OrderedAnchor) × (after : List OrderedAnchor)
      × (heartbeat_execution_anchors ≡ before ++ (anchor ∷ after))
      × ((ordered_branch_check branch source).contract_field ≡ anchor.name)
      × InOrder (map anchor_text before) branch
      × (InOrder (map anchor_text (before ++ (anchor ∷ []))) branch → ⊥)
unfolding ordered_branch_check execution_anchor_failure
ordered_branch_check-names branch source h =
    elim (Option-cases (first_missing anchor_text heartbeat_execution_anchors branch)) [
      | inl e ↦ let never = rw (e, ordered_branch_check) at h in cc
      | inr (a, e) ↦
          let (before, after, q, ordered, broken) =
            first_missing-some anchor_text heartbeat_execution_anchors branch a e in
          (before, a, after, q, rw (e, ordered_branch_check) refl, ordered, broken)
    ]
