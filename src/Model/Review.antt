-- ===== src/Model/Review.antt =====
-- models.py: the review policy and the log of an AI review.
use jenkins_service.Prelude.{ℕ, String, Bool, true, Option, List, [], ◌∷◌}
use jenkins_service.Model.Json.{Json}

pub record ReviewPolicy : Type 0 where
  pub enabled : Bool
  pub pull_requests_only : Bool
  pub critical_severities : List String
  pub max_diff_bytes : ℕ

-- `ReviewPolicy()`
abbrev pub default_policy : ReviewPolicy
default_policy = record {
  enabled = true;
  pull_requests_only = true;
  critical_severities = "critical" ∷ [];
  max_diff_bytes = 200000;
}

pub data ActionKind : Type 0 where
  github_pull_request_review github_commit_status : ActionKind

pub data ActionStatus : Type 0 where
  performed not_performed failed : ActionStatus

pub record AiReviewAction : Type 0 where
  pub action : ActionKind
  pub status : ActionStatus
  pub detail : String
  pub response_id : Option String

pub data ReviewOutcome : Type 0 where
  passed failed skipped : ReviewOutcome

pub record AiReviewLog : Type 0 where
  pub build_id : String
  pub review_run_id : String
  pub repository : String
  pub pull_request : Option ℕ
  pub base_sha : Option String
  pub head_sha : String
  pub model : String
  pub prompt_version : String
  pub outcome : ReviewOutcome
  pub summary : String
  pub findings : List Json
  pub actions : List AiReviewAction
  pub failure_reason : Option String
  pub started_at : ℕ
  pub completed_at : ℕ
