-- ===== src/Stages/Structure/Total.antt =====
-- The structural checks answer on every contract: the lookup of the required evidence comes after
-- the check on the names.
use kozo.Base.{◌≡◌, refl, String, Bool, true, contains, List, [], ◌∷◌, none, All, string_equality}
use kozo.Base.Dict.{IsDistinct, get-contains}
use kozo.Issue.{first_check_of}
use kozo.Issue.Laws.{or_else-none, then_check-none, Answers, step-Answers, first_check_of-Answers}
use kozo.Result.{ok, ok-injective}
use kozo.Stages.{Stage, StagesContract, stage_names}
use kozo.Stages.Required.{required_stage_evidence, required_stage_names}
use kozo.Stages.Structure.{
  required_stage_evidence_issue, stage_issue, stage_content_issue, before_content, structural_issue,
}
use kozo.Stages.Structure.Facts.{
  AreRequired, AreNumbered, required_stage_issue-AreRequired, duplicate_stage_issue-IsDistinct,
  stage_id_issue-AreNumbered,
}

-- The names of the stages: distinct, known, and numbered in their order.
abbrev pub AreNamed : List Stage → Type 0
AreNamed stages = IsDistinct (stage_names stages) × AreRequired stages × AreNumbered 0 stages

module _ (is_file : String → Bool) where
  before_content-AreNamed :
      (contract : StagesContract)
      → before_content is_file contract ≡ none
      → AreNamed contract.stages
  before_content-AreNamed contract h =
      let after_duplicates = ((or_else-none _ _).0 ((or_else-none _ _).0 h).1).1 in
      let (duplicates, rest) = (or_else-none _ _).0 after_duplicates in
      let (required, ids) = (or_else-none _ _).0 rest in
      (
        duplicate_stage_issue-IsDistinct contract.stages duplicates,
        required_stage_issue-AreRequired contract.stages required,
        stage_id_issue-AreNumbered contract.stages ((or_else-none _ _).0 ids).0,
      )

  evidence-Answers :
      (stage : Stage)
      → contains required_stage_names stage.stage_name ≡ true
      → Answers (required_stage_evidence_issue stage)
  unfolding required_stage_evidence_issue
  evidence-Answers stage h =
      let (evidence, found) = get-contains required_stage_evidence stage.stage_name h in
      rw (found, required_stage_evidence_issue) (_, refl)

  stage_issue-Answers :
      (stage : Stage)
      → contains required_stage_names stage.stage_name ≡ true
      → Answers (stage_issue is_file stage)
  unfolding stage_issue
  stage_issue-Answers stage h =
      let (found, answer) = evidence-Answers stage h in rw answer (_, refl)

  stages-Answer :
      (stages : List Stage) → AreRequired stages → All (λ s. Answers (stage_issue is_file s)) stages
  stages-Answer [] h = tt
  stages-Answer (s ∷ stages) h = (stage_issue-Answers s h.0, stages-Answer stages h.1)

  pub structural_issue-Answers :
      (contract : StagesContract) → Answers (structural_issue is_file contract)
  unfolding structural_issue stage_content_issue
  structural_issue-Answers contract =
      step-Answers (ok (before_content is_file contract)) _ (_, refl)
        (λ h.
          let (_, known, _) = before_content-AreNamed contract (ok-injective _ _ h) in
          step-Answers (first_check_of (stage_issue is_file) contract.stages) _
            (first_check_of-Answers (stage_issue is_file) contract.stages
              (stages-Answer contract.stages known))
            (λ _. (_, refl)))

  pub structural_issue-AreNamed :
      (contract : StagesContract)
      → structural_issue is_file contract ≡ ok none
      → AreNamed contract.stages
  unfolding structural_issue
  structural_issue-AreNamed contract h =
      before_content-AreNamed contract ((then_check-none _ _).0 h).0
