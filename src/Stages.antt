-- ===== src/Stages.antt =====
-- harness/runtime_progression_stages.py: the contract on the stages of the runtime. Its validator is
-- in the children.
pub mod Required
pub mod Structure
pub mod Cycle
pub mod Graph
pub mod Owners
pub mod Validate
use kozo.Base.{String, List, map}
use kozo.Base.Int.{ℤ}
use kozo.Base.Dict.{put_all}

pub record StageState : Type 0 where
  pub path : String
  pub halt_contract : String
  pub progression_contract : String
  pub progression_entry_contract : String
  pub terminal_behavior : String

pub record Stage : Type 0 where
  pub stage_id : ℤ
  pub stage_name : String
  pub description : String
  pub status : String
  pub required_prerequisites : List String
  pub required_evidence : List String
  pub required_contracts : List String
  pub required_validators : List String
  pub allowed_next_stages : List String
  pub forbidden_shortcuts : List String

pub record Transition : Type 0 where
  pub from_stage : String
  pub to_stage : String
  pub owner_contract : String

-- The version is the constant 0 of the schema.
pub record StagesContract : Type 0 where
  pub version : ℤ
  pub architecture : String
  pub current_state : StageState
  pub stages : List Stage
  pub transitions : List Transition
  pub transition_requirements : List String
  pub forbidden_global_shortcuts : List String
  pub non_goals : List String

-- `stage_names` on the contract's stages
abbrev pub stage_names : List Stage → List String
stage_names = map (λ (s : Stage). s.stage_name)
