-- ===== src/Plan/Evidence.antt =====
-- harness/validators_impl/evidence.py. The file system is a parameter: `is_file root path` says
-- whether `Path(root) / path` is a file.
pub mod Verdict
use Prim.Native.String.{◌++◌ as ◌<>◌}
use kozo.Base.{
  String, Bool, not, ◌==◌, string_equality, if◌then◌else◌, List, [], ◌∷◌, Option, none, some,
}
use kozo.Json.{Json, str}
use kozo.Plan.{Bundle}
use kozo.Registry.Codes.{evidence_file_missing, ok as ok_code}
use kozo.Validator.{ValidationResult, pass_, fail}

module _ (is_file : String → String → Bool) where
  unfoldable pub find_missing : String → List String → Option String
  find_missing root [] = none
  find_missing root (path ∷ paths) =
      if not (is_file root path) then some path else find_missing root paths

  after_root : String → List String → ValidationResult
  after_root root paths = elim (find_missing root paths) [
    | some path ↦
        fail evidence_file_missing ("Evidence file " <> (path <> " is missing on disk"))
          "Regenerate or remove stale evidence paths before verification"
    | none ↦ pass_ ok_code "Evidence file references resolve on disk"
  ]

  no_root : ValidationResult
  no_root =
      fail evidence_file_missing "Validation bundle does not declare root_dir"
        "Pass the repository root into the aggregator bundle"

  -- `not isinstance(root_dir, str) or not root_dir` is the first branch and the catch-all
  at_root : Json → List String → ValidationResult
  unfolding after_root no_root
  at_root (str root) paths = if root == "" then no_root else after_root root paths
  at_root _ paths = no_root

  -- `EvidenceValidator.validate`
  unfoldable pub validate : Bundle → ValidationResult
  unfolding at_root
  validate bundle = at_root bundle.root_dir bundle.evidence_files
