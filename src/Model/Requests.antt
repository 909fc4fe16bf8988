-- ===== src/Model/Requests.antt =====
-- models.py: the requests of the service's operations and their short answer.
use jenkins_service.Prelude.{ℕ, String, Bool, Option}
use jenkins_service.Model.Json.{Fields}
use jenkins_service.Model.Review.{ReviewPolicy}
use jenkins_service.Model.Pipeline.{PipelineResult}

pub record TriggerRequest : Type 0 where
  pub repository_id : String
  pub commit_sha : String
  pub base_sha : Option String
  pub branch : Option String
  pub pull_request : Option ℕ

pub record BuildCompletion : Type 0 where
  pub callback_id : String
  pub timestamp : ℕ
  pub build_id : String
  pub result : PipelineResult
  pub review : ReviewPolicy
  pub diff : Option String

pub record ExtensionActionRequest : Type 0 where
  pub extension_id : String
  pub action : String
  pub repository_id : String
  pub build_id : Option String
  pub inputs : Fields
  pub idempotency_key : String

pub record OperationAccepted : Type 0 where
  pub accepted : Bool
  pub id : String
  pub detail : String
