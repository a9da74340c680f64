-- ===== src/Plan/Scope.antt =====
-- harness/validators_impl/step_scope.py
pub mod Verdict
pub mod Allowed
use Prim.Native.String.{◌++◌ as ◌<>◌}
use kozo.Base.{
  String, Bool, ◌&&◌, ◌||◌, not, any, null, contains, ◌==◌, string_equality, if◌then◌else◌, List,
  [], ◌∷◌, ◌++◌, Option, none, some,
}
use kozo.Base.Int.{ℤ, int_equality}
use kozo.Base.Text.{codes, starts_with, ends_with}
use kozo.Base.Format.{show_int}
use kozo.Plan.{Step, Todo, Runtime, Bundle}
use kozo.Registry.Codes.{
  step_scope_empty_done_step, step_scope_outside_task_scope, step_scope_unplanned_file,
  ok as ok_code,
}
use kozo.Validator.{ValidationResult, pass_, fail}

-- `_matches_scope`: 47 is the slash
unfoldable pub matches_scope : String → String → Bool
matches_scope path scope =
    if ends_with 47 (codes scope)
    then starts_with (codes scope) (codes path)
    else path == scope || starts_with (codes scope ++ (47 ∷ [])) (codes path)

-- `{path for step in steps for path in step["files_expected"]}`
unfoldable pub all_expected : List Step → List String
all_expected [] = []
all_expected (step ∷ steps) = step.files_expected ++ all_expected steps

-- The files of the first step with this id.
unfoldable pub expected_of : ℤ → List Step → List String
expected_of id [] = []
expected_of id (step ∷ steps) = if step.id == id then step.files_expected else expected_of id steps

-- `_allowed_files`
unfoldable pub allowed_files : Todo → Runtime → List String
allowed_files todo runtime =
    if runtime.plan_status == "complete"
    then all_expected todo.steps
    else expected_of runtime.current_step_id todo.steps

-- the first loop
unfoldable pub find_empty_done : List Step → Option Step
find_empty_done [] = none
find_empty_done (step ∷ steps) =
    if step.status == "done" && null step.files_expected then some step else find_empty_done steps

-- the second loop
unfoldable pub find_outside : List String → List String → Option String
find_outside scopes [] = none
find_outside scopes (path ∷ paths) =
    if not (any (matches_scope path) scopes) then some path else find_outside scopes paths

-- the third loop
unfoldable pub find_unplanned : List String → List String → Option String
find_unplanned allowed [] = none
find_unplanned allowed (path ∷ paths) =
    if not (contains allowed path) then some path else find_unplanned allowed paths

after_scope : Bundle → Option String → ValidationResult
after_scope bundle (some path) =
    fail step_scope_unplanned_file
      ("Changed file " <> (path <> " is not declared in the active plan scope"))
      "Add the file to a planned step or revert the out-of-scope edit"
after_scope bundle none = pass_ ok_code "Changed files stay within the declared step scope"

after_steps : Bundle → Option String → ValidationResult
unfolding after_scope
after_steps bundle (some path) =
    fail step_scope_outside_task_scope
      ("Changed file " <> (path <> " falls outside todo.file_scope"))
      "Restrict edits to files declared in tasks/todo.json"
after_steps bundle none =
    after_scope bundle
      (find_unplanned (allowed_files bundle.todo bundle.runtime) bundle.changed_files)

after_start : Bundle → Option Step → ValidationResult
unfolding after_steps
after_start bundle (some step) =
    fail step_scope_empty_done_step
      ("Done step " <> (show_int step.id <> " must declare at least one expected file"))
      "Populate files_expected for every completed step"
after_start bundle none =
    after_steps bundle (find_outside bundle.todo.file_scope bundle.changed_files)

-- `StepScopeValidator.validate`
unfoldable pub validate : Bundle → ValidationResult
unfolding after_start
validate bundle = after_start bundle (find_empty_done bundle.todo.steps)
