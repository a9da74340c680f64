-- ===== src/Plan/Evidence/Verdict.antt =====
-- What the evidence validator passes.
use kozo.Base.{
  ◌∙◌, String, Bool, true, List, [], ◌∷◌, All, none, ◌≡◌, ◌≢◌, refl, ◌↔◌, inl, inr, arith, ◌==◌,
  string_equality, eq_iff, Bool-cases, Option-cases,
}
use kozo.Json.{Json, null, bool, int, str, arr, obj}
use kozo.Plan.{Bundle}
use kozo.Plan.Evidence.{find_missing, after_root, no_root, at_root, validate}
use kozo.Validator.{Passes, fail-ne-pass}

module _ (is_file : String → String → Bool) where
  -- The root is a text that is not empty, and each path under it is a file.
  abbrev pub IsBacked : Json → List String → Type 0
  IsBacked root_dir paths =
      (root : String) × (root_dir ≡ str root)
      × (root ≢ "")
      × All (λ path. is_file root path ≡ true) paths

  find_missing_iff :
      (root : String) (paths : List String)
      → (find_missing is_file root paths ≡ none) ↔ All (λ path. is_file root path ≡ true) paths
  unfolding find_missing
  find_missing_iff root [] = (λ _. tt, λ _. refl)
  find_missing_iff root (path ∷ paths) = ground (arith, find_missing_iff root paths)

  after_root_iff :
      (root : String) (paths : List String)
      → Passes (after_root is_file root paths) ↔ All (λ path. is_file root path ≡ true) paths
  unfolding after_root
  after_root_iff root paths =
      let loop = find_missing_iff root paths in
      elim (Option-cases (find_missing is_file root paths)) [
        | inl e ↦ rw (e, after_root) (λ _. loop.0 e, λ _. refl)
        | inr (path, e) ↦ rw (e, after_root) (λ h. absurd (fail-ne-pass h), λ h. cc (loop.1 h))
      ]

  no_root-fails : Passes (no_root is_file) → ⊥
  unfolding no_root
  no_root-fails h = fail-ne-pass h

  at_root_iff :
      (root_dir : Json) (paths : List String)
      → Passes (at_root is_file root_dir paths) ↔ IsBacked root_dir paths
  unfolding at_root
  at_root_iff null paths = (λ h. absurd (no_root-fails h), λ (r, e, n, a). cc)
  at_root_iff (bool b) paths = (λ h. absurd (no_root-fails h), λ (r, e, n, a). cc)
  at_root_iff (int i) paths = (λ h. absurd (no_root-fails h), λ (r, e, n, a). cc)
  at_root_iff (arr xs) paths = (λ h. absurd (no_root-fails h), λ (r, e, n, a). cc)
  at_root_iff (obj fs) paths = (λ h. absurd (no_root-fails h), λ (r, e, n, a). cc)
  at_root_iff (str root) paths =
      let inner = after_root_iff root paths in
      elim (Bool-cases (root == "")) [
        | inl e ↦ rw e (
          λ h. absurd (no_root-fails h),
          λ (r, d, n, a). absurd (n (let same : r ≡ root = cc in same ∙ (eq_iff root "").0 e)),
        )
        | inr e ↦ rw e (
          λ h. (root, refl, (λ empty. ground (arith, e, eq_iff root "")), inner.0 h),
          λ (r, d, n, a). inner.1 (let same : r ≡ root = cc in rw (← same) a),
        )
      ]

  -- The validator passes exactly when the bundle names its root by a text that is not empty and
  -- every evidence file is a file under it.
  pub validate-IsBacked :
      (b : Bundle) → Passes (validate is_file b) ↔ IsBacked b.root_dir b.evidence_files
  unfolding validate
  validate-IsBacked b = at_root_iff b.root_dir b.evidence_files
