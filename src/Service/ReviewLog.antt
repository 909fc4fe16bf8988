-- ===== src/Service/ReviewLog.antt =====
-- service.py: `_attach_review_log`, which files the log of a review with its run and its build.
pub mod Once
use jenkins_service.Prelude.{
  ℕ, zero, suc, ◌+◌, ◌-◌, String, ◌+++◌, Bool, true, false, not, ◌&&◌, Option, none, some, List, [],
  ◌∷◌, ◌++◌, ◌==◌, keep, if◌then◌else◌,
}
use jenkins_service.Exec.{pure, ◌>>=◌, ◌>>◌}
use jenkins_service.Model.Repository.{or_else}
use jenkins_service.Model.Review.{ReviewOutcome, AiReviewLog}
use jenkins_service.Model.Pipeline.{
  Status, CheckStatus, CheckResult, Artifact, PipelineResult, Build,
}
use jenkins_service.Model.Extension.{ExtensionOutput, empty_output, ExtensionRun}
use jenkins_service.Store
use jenkins_service.Store.{Store}
use jenkins_service.Service.World.{Outside, World, Action, on_store, now}

abbrev pub ai_review_artifact_path : String
ai_review_artifact_path = "artifacts/ai-review.json"

abbrev pub with_log : AiReviewLog → ExtensionOutput → ExtensionOutput
with_log log output = elim output.review_log [
  | none ↦ record output { review_log = some log }
  | some old ↦ output
]

-- the run with the log, unless its output has one
unfoldable pub logged_run : ExtensionRun → AiReviewLog → ExtensionRun
logged_run run log = record run { output = some (with_log log (or_else run.output empty_output)) }

abbrev pub check_status : ReviewOutcome → CheckStatus
check_status ReviewOutcome.passed = CheckStatus.passed
check_status ReviewOutcome.failed = CheckStatus.failed
check_status ReviewOutcome.skipped = CheckStatus.skipped

abbrev pub exit_code : ReviewOutcome → Option ℕ
exit_code ReviewOutcome.passed = some 0
exit_code ReviewOutcome.failed = some 1
exit_code ReviewOutcome.skipped = none

abbrev pub is_failed : ReviewOutcome → Bool
is_failed ReviewOutcome.failed = true
is_failed _ = false

-- the check of a log; `-` stops at 0, as `max(0.0, ...)` does
abbrev pub review_check : AiReviewLog → Bool → CheckResult
review_check log required = record {
  id = "ai-review";
  name = "AI code review";
  status = check_status log.outcome;
  required = required;
  exit_code = exit_code log.outcome;
  duration = log.completed_at - log.started_at;
  reports = ai_review_artifact_path ∷ [];
}

module _ (o : Outside) where
  abbrev pub review_artifact : String → AiReviewLog → Artifact
  review_artifact build_id log = record {
    name = "ai-review.json";
    path = ai_review_artifact_path;
    sha256 = o.log_digest log;
    size = o.log_size log;
    download_url = elim o.public_base_url [
      | none ↦ none
      | some base ↦
          some (base +++ ("/api/v1/builds/" +++ (build_id +++ "/artifacts/ai-review.json")))
    ];
  }

  -- the build with the log, its artifact, its run and its check, each once
  unfoldable pub logged_build : Build → ExtensionRun → AiReviewLog → Bool → ℕ → Build
  logged_build build run log required updated = record build {
    ai_review_log = some log;
    updated_at = updated;
    result = record build.result {
      artifacts =
          keep (λ item. not (item.path == ai_review_artifact_path)) build.result.artifacts
          ++ review_artifact build.id log ∷ [];
      extension_runs =
          keep (λ item. not (item == run.id)) build.result.extension_runs ++ run.id ∷ [];
      checks =
          keep (λ item. not (item.id == "ai-review")) build.result.checks
          ++ review_check log required ∷ [];
      status = if required && is_failed log.outcome then Status.failed else build.result.status;
    };
  }

  unfoldable pub attach_review_log : ExtensionRun → AiReviewLog → Bool → Action Unit
  unfolding Store.save_extension_run Store.get_build Store.save_build
  attach_review_log run log required = do
    on_store (Store.save_extension_run (logged_run run log))
    build ← on_store (Store.get_build log.build_id)
    updated ← now o
    on_store (Store.save_build (logged_build build run log required updated))
    pure tt
