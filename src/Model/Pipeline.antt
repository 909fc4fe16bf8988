-- ===== src/Model/Pipeline.antt =====
-- models.py: queue items, pipeline results and builds.
use jenkins_service.Prelude.{ℕ, String, Bool, true, false, Option, List}
use jenkins_service.Model.Review.{ReviewPolicy, AiReviewLog}

pub data QueueState : Type 0 where
  queued started reused cancelled failed : QueueState

pub record QueueItem : Type 0 where
  pub id : String
  pub repository_id : String
  pub build_id : Option String
  pub jenkins_queue_id : Option ℕ
  pub state : QueueState
  pub commit_sha : String
  pub base_sha : Option String
  pub branch : Option String
  pub pull_request : Option ℕ
  pub created_at : ℕ

pub data CheckStatus : Type 0 where
  passed failed warning skipped : CheckStatus

-- durations in microseconds
pub record CheckResult : Type 0 where
  pub id : String
  pub name : String
  pub status : CheckStatus
  pub required : Bool
  pub exit_code : Option ℕ
  pub duration : ℕ
  pub reports : List String

pub record Artifact : Type 0 where
  pub name : String
  pub path : String
  pub sha256 : String
  pub size : ℕ
  pub download_url : Option String

pub data Status : Type 0 where
  queued running passed failed cancelled : Status

pub record PipelineResult : Type 0 where
  pub repository : String
  pub commit_sha : String
  pub trusted_sha : Option String
  pub base_sha : Option String
  pub build_id : Option String
  pub pull_request : Option ℕ
  pub status : Status
  pub started_at : Option ℕ
  pub completed_at : Option ℕ
  pub checks : List CheckResult
  pub artifacts : List Artifact
  pub extension_runs : List String

pub record Build : Type 0 where
  pub id : String
  pub repository_id : String
  pub jenkins_job : String
  pub queue_item_id : Option String
  pub jenkins_queue_id : Option ℕ
  pub jenkins_build_number : Option ℕ
  pub branch : Option String
  pub reused_from_build_id : Option String
  pub review_policy : Option ReviewPolicy
  pub ai_review_log : Option AiReviewLog
  pub result : PipelineResult
  pub created_at : ℕ
  pub updated_at : ℕ

-- `status in {"queued", "running"}`
abbrev pub is_active : Status → Bool
is_active Status.queued = true
is_active Status.running = true
is_active _ = false

-- `status in {"passed", "failed", "cancelled"}`
abbrev pub is_terminal : Status → Bool
is_terminal Status.passed = true
is_terminal Status.failed = true
is_terminal Status.cancelled = true
is_terminal _ = false

-- `status == "passed"`
abbrev pub is_passed : Status → Bool
is_passed Status.passed = true
is_passed _ = false

-- "cancelled" if status == "cancelled" else "failed" if status == "failed" else "started"
abbrev pub queue_state_of : Status → QueueState
queue_state_of Status.cancelled = QueueState.cancelled
queue_state_of Status.failed = QueueState.failed
queue_state_of _ = QueueState.started
