-- ===== src/Authorization/Progress.antt =====
-- authorization/progress.py: the stage events of the pipeline.
use zonegate_backend.Prelude.{String}

pub data Stage : Type 0 where
  identity : Stage
  plan : Stage
  validate : Stage
  evidence : Stage
  context : Stage
  policy : Stage

pub data StageStatus : Type 0 where
  started : StageStatus
  done : StageStatus
  skipped : StageStatus
  failed : StageStatus

unfoldable pub stage_label : Stage → String
stage_label Stage.identity = "Checking enrolment and device binding"
stage_label Stage.plan = "Agent choosing which evidence to collect"
stage_label Stage.validate = "Validating the plan against workflow policy"
stage_label Stage.evidence = "Collecting network evidence from the carrier"
stage_label Stage.context = "Agent assessing risk from the evidence"
stage_label Stage.policy = "Deterministic policy engine deciding"

pub record StageEvent : Type 0 where
  pub stage : Stage
  pub status : StageStatus
  pub label : String
  pub detail : String
