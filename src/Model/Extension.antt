-- ===== src/Model/Extension.antt =====
-- models.py: extension manifests, outputs and runs.
use jenkins_service.Prelude.{ℕ, String, Option, none, List, []}
use jenkins_service.Model.Json.{Json, Fields}
use jenkins_service.Model.Review.{AiReviewLog}

-- `cpus` in thousandths
pub record ExtensionManifest : Type 0 where
  pub schema_version : String
  pub id : String
  pub image : String
  pub compatible_contracts : List String
  pub actions : List String
  pub input_schema : String
  pub output_schema : String
  pub github_actions : List String
  pub required_secrets : List String
  pub network : String
  pub timeout_seconds : ℕ
  pub memory_mb : ℕ
  pub cpus : ℕ

pub record ExtensionOutput : Type 0 where
  pub findings : List Json
  pub requested_github_actions : List Fields
  pub review_log : Option AiReviewLog

-- `ExtensionOutput()`
abbrev pub empty_output : ExtensionOutput
empty_output = record { findings = []; requested_github_actions = []; review_log = none }

pub data RunStatus : Type 0 where
  running succeeded failed skipped : RunStatus

pub record ExtensionRun : Type 0 where
  pub id : String
  pub extension_id : String
  pub image_digest : String
  pub action : String
  pub target : String
  pub idempotency_key : String
  pub status : RunStatus
  pub output : Option ExtensionOutput
  pub created_at : ℕ
  pub completed_at : Option ℕ
