-- ===== src/TrapPath/Validate/Verdict.antt =====
-- When the trap path validator passes.
use kozo.Base.{
  some-injective, ◌≡◌, ◌↔◌, refl, sym, ◌∙◌, String, true, false, List, [], ◌∷◌, map, Option, none,
  some, Option-cases, inl, inr, All, arith,
}
use kozo.Base.Text.{Text}
use kozo.Source.{occurs, first_missing, first_absent}
use kozo.Source.Order.{InOrder, first_missing-InOrder, first_absent-none}
use kozo.TrapPath.{
  RuntimePathAnchor, anchor_text, heartbeat_request_anchors, nop_request_anchors,
  status_request_anchors, bridge_helper_anchors, no_payload_bridge_helper_anchors,
  nop_return_validation_anchors, status_return_validation_anchors, core_service_entry_anchors,
  nop_forbidden_snippets, status_forbidden_snippets,
}
use kozo.TrapPath.Anchors.{
  ordered_anchor_result, required_anchor_result, forbidden_snippet_result, first_result,
}
use kozo.TrapPath.Function.{extract_rust_function_block}
use kozo.TrapPath.Validate.{
  has_local_stub, has_stub_marker, has_extern_decl, validate_extern_contract, with_block,
  validate_live_heartbeat_block, validate_live_nop_block, validate_live_status_block,
  validate_bridge_helper_block, validate_no_payload_bridge_helper_block,
  validate_nop_return_status_block, validate_status_return_status_block,
  validate_core_service_entry_block, trap_path_checks, validate_trap_path,
}
use kozo.TrapPath.Validate.Fails.{first_result-none, or_pass-none, checks_fail}
use kozo.Validator.{ValidationResult, Passes}

-- What is asked of a block: its needles in order, all of them somewhere, none of them anywhere.
abbrev pub Ordered : List RuntimePathAnchor → Text → Type 0
Ordered anchors block = InOrder (map anchor_text anchors) block

abbrev pub HasAll : List RuntimePathAnchor → Text → Type 0
HasAll anchors block = All (λ a. occurs (anchor_text a) block ≡ true) anchors

abbrev pub HasNone : List RuntimePathAnchor → Text → Type 0
HasNone snippets block = All (λ a. occurs (anchor_text a) block ≡ false) snippets

-- The source has that function, and its block the property.
abbrev pub HasBlock : Text → String → (Text → Type 0) → Type 0
HasBlock source name P =
    (block : Text) × (extract_rust_function_block source name ≡ some block) × P block

Ordered-iff :
    (block source : Text) (anchors : List RuntimePathAnchor)
    → (ordered_anchor_result block source anchors ≡ none) ↔ Ordered anchors block
unfolding ordered_anchor_result
Ordered-iff block source anchors =
    let (forth, back) = first_missing-InOrder anchor_text anchors block in
    elim (Option-cases (first_missing anchor_text anchors block)) [
      | inl e ↦ (λ _. forth e, λ _. rw (e, ordered_anchor_result) refl)
      | inr (a, e) ↦
          (λ h. let never = rw (e, ordered_anchor_result) at h in cc, λ h. let never = back h in cc)
    ]

required_iff :
    (block source : Text) (anchors : List RuntimePathAnchor)
    → (required_anchor_result block source anchors ≡ none) ↔ HasAll anchors block
unfolding required_anchor_result
required_iff block source anchors =
    let (forth, back) = first_absent-none anchor_text anchors block in
    elim (Option-cases (first_absent anchor_text anchors block)) [
      | inl e ↦ (λ _. forth e, λ _. rw (e, required_anchor_result) refl)
      | inr (a, e) ↦ (
        λ h. let never = rw (e, required_anchor_result) at h in cc,
        λ h. let never = back h in cc,
      )
    ]

forbidden_iff :
    (block : Text) (snippets : List RuntimePathAnchor)
    → (forbidden_snippet_result block snippets ≡ none) ↔ HasNone snippets block
unfolding forbidden_snippet_result
forbidden_iff block [] = (λ _. tt, λ _. refl)
forbidden_iff block (s ∷ snippets) = ground (arith, forbidden_iff block snippets)

-- Two checks of one block.
both_iff :
    (a b : Option ValidationResult) → (first_result (a ∷ b ∷ []) ≡ none) ↔ ((a ≡ none) × (b ≡ none))
both_iff a b =
    let (forth, back) = first_result-none (a ∷ b ∷ []) in
    (λ h. ((forth h).0, ((forth h).1).0), λ (x, y). back (x, (y, tt)))

with_block_iff :
    (source : Text) (name : String) (missing : ValidationResult)
    (check : Text → Option ValidationResult) (P : Text → Type 0)
    → ((block : Text) → (check block ≡ none) ↔ P block)
    → (with_block source name missing check ≡ none) ↔ HasBlock source name P
with_block_iff source name missing check P f =
    elim (Option-cases (extract_rust_function_block source name)) [
      | inl e ↦ (
        λ h. let never = rw (e, with_block) at h in cc,
        λ (block, q, _). let never = sym e ∙ q in cc,
      )
      | inr (block, e) ↦ (
        λ h. (block, e, (f block).0 (rw (e, with_block) at h)),
        λ (other, q, p).
            let same : other ≡ block = some-injective other block (sym q ∙ e) in
            rw (e, with_block) ((f block).1 (rw same at p)),
      )
    ]

extern_iff :
    (source : Text)
    → (validate_extern_contract source ≡ none) ↔ (
        (has_local_stub source ≡ false)
        × (has_stub_marker source ≡ false)
        × (has_extern_decl source ≡ true))
unfolding validate_extern_contract
extern_iff source = ground arith

abbrev BareAndOrdered : List RuntimePathAnchor → List RuntimePathAnchor → Text → Type 0
BareAndOrdered snippets anchors block = HasNone snippets block × Ordered anchors block

BareAndOrdered-iff :
    (source : Text) (snippets anchors : List RuntimePathAnchor) (block : Text)
    → (first_result (
          forbidden_snippet_result block snippets ∷ ordered_anchor_result block source anchors ∷ [])
        ≡ none)
      ↔ BareAndOrdered snippets anchors block
BareAndOrdered-iff source snippets anchors block =
    let (forth, back) =
      both_iff (forbidden_snippet_result block snippets)
        (ordered_anchor_result block source anchors) in
    let bare = forbidden_iff block snippets in
    let ordered = Ordered-iff block source anchors in
    (λ h. (bare.0 (forth h).0, ordered.0 (forth h).1), λ (a, b). back (bare.1 a, ordered.1 b))

abbrev BareAndComplete : List RuntimePathAnchor → List RuntimePathAnchor → Text → Type 0
BareAndComplete snippets anchors block = HasNone snippets block × HasAll anchors block

BareAndComplete-iff :
    (source : Text) (snippets anchors : List RuntimePathAnchor) (block : Text)
    → (first_result (
          forbidden_snippet_result block snippets
          ∷ required_anchor_result block source anchors
          ∷ [])
        ≡ none)
      ↔ BareAndComplete snippets anchors block
BareAndComplete-iff source snippets anchors block =
    let (forth, back) =
      both_iff (forbidden_snippet_result block snippets)
        (required_anchor_result block source anchors) in
    let bare = forbidden_iff block snippets in
    let complete = required_iff block source anchors in
    (λ h. (bare.0 (forth h).0, complete.0 (forth h).1), λ (a, b). back (bare.1 a, complete.1 b))

-- The service declares the extern bridge and no stub; its helpers, its validations and its requests
-- have their anchors, the requests and the entry in order, and the ones without a payload no payload.
abbrev pub IsLive : Text → Type 0
IsLive source =
    ((has_local_stub source ≡ false)
      × (has_stub_marker source ≡ false)
      × (has_extern_decl source ≡ true))
    × HasBlock source "invoke_heartbeat_bridge" (HasAll bridge_helper_anchors)
    × HasBlock source "invoke_no_payload_bridge" (λ block.
      HasNone nop_forbidden_snippets block × HasAll no_payload_bridge_helper_anchors block)
    × HasBlock source "validate_nop_return_status" (HasAll nop_return_validation_anchors)
    × HasBlock source "validate_status_return_status" (HasAll status_return_validation_anchors)
    × HasBlock source "nop_request"
        (λ block. HasNone nop_forbidden_snippets block × Ordered nop_request_anchors block)
    × HasBlock source "status_request"
        (λ block. HasNone status_forbidden_snippets block × Ordered status_request_anchors block)
    × HasBlock source "heartbeat_request" (Ordered heartbeat_request_anchors)
    × HasBlock source "core_service_entry" (Ordered core_service_entry_anchors)

checks_iff : (source : Text) → All (λ r. r ≡ none) (trap_path_checks source) ↔ IsLive source
unfolding validate_live_heartbeat_block validate_live_nop_block validate_live_status_block
    validate_bridge_helper_block validate_no_payload_bridge_helper_block
    validate_nop_return_status_block validate_status_return_status_block
    validate_core_service_entry_block
checks_iff source =
    let extern_ = extern_iff source in
    let bridge =
      with_block_iff source "invoke_heartbeat_bridge" _ _ _
        (λ b. required_iff b source bridge_helper_anchors) in
    let bare_bridge =
      with_block_iff source "invoke_no_payload_bridge" _ _ _
        (BareAndComplete-iff source nop_forbidden_snippets no_payload_bridge_helper_anchors) in
    let nop_return =
      with_block_iff source "validate_nop_return_status" _ _ _
        (λ b. required_iff b source nop_return_validation_anchors) in
    let status_return =
      with_block_iff source "validate_status_return_status" _ _ _
        (λ b. required_iff b source status_return_validation_anchors) in
    let nop_block =
      with_block_iff source "nop_request" _ _ _
        (BareAndOrdered-iff source nop_forbidden_snippets nop_request_anchors) in
    let status_block =
      with_block_iff source "status_request" _ _ _
        (BareAndOrdered-iff source status_forbidden_snippets status_request_anchors) in
    let heartbeat =
      with_block_iff source "heartbeat_request" _ _ _
        (λ b. Ordered-iff b source heartbeat_request_anchors) in
    let entry =
      with_block_iff source "core_service_entry" _ _ _
        (λ b. Ordered-iff b source core_service_entry_anchors) in
    (
      λ (a, (b, (c, (d, (e, (f, (g, (h, (i, _))))))))). (
        extern_.0 a,
        bridge.0 b,
        bare_bridge.0 c,
        nop_return.0 d,
        status_return.0 e,
        nop_block.0 f,
        status_block.0 g,
        heartbeat.0 h,
        entry.0 i,
      ),
      λ (a, b, c, d, e, f, g, h, i). (
        extern_.1 a,
        (
          bridge.1 b,
          (
            bare_bridge.1 c,
            (
              nop_return.1 d,
              (
                status_return.1 e,
                (nop_block.1 f, (status_block.1 g, (heartbeat.1 h, (entry.1 i, tt)))),
              ),
            ),
          ),
        ),
      ),
    )

-- The validator passes exactly the sources that are live: no stub and no marker of one, the extern
-- declaration, and each of the eight functions with a closed body that has what is asked of it.
pub validate_trap_path-IsLive : (source : Text) → Passes (validate_trap_path source) ↔ IsLive source
unfolding validate_trap_path
validate_trap_path-IsLive source =
    let (live, checked) = checks_iff source in
    let (forth, back) = or_pass-none (trap_path_checks source) _ (checks_fail source) refl in
    (λ h. live (forth h), λ h. back (checked h))
