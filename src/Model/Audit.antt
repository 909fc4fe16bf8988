-- ===== src/Model/Audit.antt =====
-- models.py: webhook deliveries and audit records.
use jenkins_service.Prelude.{ℕ, String, Bool, Option}
use jenkins_service.Model.Json.{Fields}

pub record WebhookDelivery : Type 0 where
  pub delivery_id : String
  pub event : String
  pub repository : String
  pub accepted : Bool
  pub reason : Option String
  pub received_at : ℕ

pub data AuditOutcome : Type 0 where
  accepted rejected succeeded failed : AuditOutcome

pub record AuditRecord : Type 0 where
  pub id : String
  pub actor : String
  pub action : String
  pub target : String
  pub request_id : String
  pub outcome : AuditOutcome
  pub detail : Fields
  pub created_at : ℕ
