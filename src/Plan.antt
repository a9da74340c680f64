-- ===== src/Plan.antt =====
-- The task documents that the plan validators read: tasks/todo.json and tasks/runtime.json in the
-- shape that schemas/todo.schema.json and schemas/runtime.schema.json declare, with the changed
-- files of the bundle. A key that the schemas require is a field. The aggregator runs the validators
-- also after the schema check failed, and on a document without such a key they raise KeyError, which
-- is not modelled: what is said of them is for documents of this shape.
pub mod Lifecycle
pub mod Refs
pub mod Narrative
pub mod Evidence
pub mod Scope
use kozo.Base.{String, Option, List, Bool}
use kozo.Base.Int.{ℤ}
use kozo.Json.{Json}

pub record Step : Type 0 where
  pub id : ℤ
  pub title : String
  pub status : String
  pub kind : String
  pub files_expected : List String
  pub verification_refs : List String

pub record TestRun : Type 0 where
  pub tool : String
  pub command : String
  pub status : String

pub record Verification : Type 0 where
  pub tests_run : List TestRun
  pub logs : List String
  pub diffs : List String
  pub invariants : List String
  pub expected_behavior : List String
  pub actual_behavior : List String

pub record Todo : Type 0 where
  pub plan_status : String
  pub preconditions : List String
  pub file_scope : List String
  pub steps : List Step
  pub verification : Verification
  pub explanation_summary : Json
  pub subagents : Option Json

pub record Runtime : Type 0 where
  pub task_id : String
  pub task_title : String
  pub plan_status : String
  pub current_step_id : ℤ
  pub replan_required : Bool
  pub halted : Bool
  pub updated_at : String
  pub subagents : Option Json

pub record Bundle : Type 0 where
  pub todo : Todo
  pub runtime : Runtime
  pub changed_files : List String
  pub evidence_files : List String
  pub root_dir : Json
