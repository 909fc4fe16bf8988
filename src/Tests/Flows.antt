-- ===== src/Tests/Flows.antt =====
-- service.py: reviews, reuse, registration and refresh.
use jenkins_service.Prelude.{◌≡◌, refl, is_some, true, false, none, some, [], ◌∷◌}
use jenkins_service.Dict.{lookup}
use jenkins_service.Model.Review.{ReviewOutcome, AiReviewLog}
use jenkins_service.Model.Requests.{BuildCompletion}
use jenkins_service.Model.Extension.{ExtensionRun}
use jenkins_service.Store
use jenkins_service.Service.World.{World}
use jenkins_service.Service.ReviewLog.{logged_build}
use jenkins_service.Service.ReviewLog.Once.{StandsOnce, logged_build-twice}
use jenkins_service.Service.AiReview.Process.{process_ai_review}
use jenkins_service.Service.AiReview.Calls.{process_ai_review-skips}
use jenkins_service.Service.Trigger.{reusable_native_build}
use jenkins_service.Service.Trigger.Reuse.{Reuses, reusable_native_build-Reuses}
use jenkins_service.Service.Repositories.{register_repository}
use jenkins_service.Service.Repositories.Registers.{Registers, register_repository-Registers}
use jenkins_service.Service.Refresh.{refresh_build}
use jenkins_service.Service.Refresh.Kept.{Refreshed}
use jenkins_service.Service.Refresh.Steps.{refresh_build-Refreshed}
use jenkins_service.Service.Refresh.{cancel_pipeline}
use jenkins_service.Service.Refresh.Cancel.{Cancels, cancel_pipeline-Cancels}
use jenkins_service.Service.AiReview.Process.{process_ai_review_with_retry}
use jenkins_service.Service.AiReview.Retries.{Retried, process_ai_review_with_retry-Retried}
use jenkins_service.Fixtures.{
  operator, create, sha, build, completion, run_of, store, outside, world,
}

-- a completion of a pull request
abbrev pulled : BuildCompletion
pulled = record completion { result = record completion.result { pull_request = some 3 } }

abbrev run : ExtensionRun
run = record (run_of "run-1") { idempotency_key = "ai-review:digest" }

abbrev reviewed_world : World
reviewed_world = record world {
  store = record store {
    extension_runs = ("run-1", run) ∷ [];
    extension_keys = ("ai-review:digest", "run-1") ∷ [];
  };
}

process_ai_review-skips_example :
    (process_ai_review outside operator completion none reviewed_world).1.calls ≡ []
process_ai_review-skips_example =
    process_ai_review-skips outside operator completion none reviewed_world refl

abbrev log : AiReviewLog
log = record {
  build_id = "b1";
  review_run_id = "run-1";
  repository = "example/project";
  pull_request = some 3;
  base_sha = some sha;
  head_sha = sha;
  model = "model";
  prompt_version = "v1";
  outcome = ReviewOutcome.failed;
  summary = "one finding";
  findings = [];
  actions = [];
  failure_reason = none;
  started_at = 5;
  completed_at = 8;
}

logged_build-twice_example :
    let filed = logged_build outside (logged_build outside build run log true 10) run log true 11 in
    (filed ≡ logged_build outside build run log true 11)
    × StandsOnce outside build run log true filed
logged_build-twice_example = logged_build-twice outside build run log log true 10 11 refl

reusable_native_build-Reuses_example :
    Reuses "r1" sha sha store (reusable_native_build "r1" sha sha store)
reusable_native_build-Reuses_example = reusable_native_build-Reuses "r1" sha sha store

fresh : is_some (lookup "fresh" world.store.repositories) ≡ false
unfolding lookup
fresh = refl

register_repository-Registers_example :
    Registers outside operator create world (register_repository outside operator create world)
register_repository-Registers_example =
    register_repository-Registers outside operator create world fresh

stored : lookup "b1" world.store.builds ≡ some build
unfolding lookup
stored = refl

refresh_build-Refreshed_example : Refreshed build (refresh_build outside build world)
refresh_build-Refreshed_example = refresh_build-Refreshed outside build world stored

cancel_pipeline-Cancels_example :
    Cancels outside operator build (cancel_pipeline outside operator "b1" world)
cancel_pipeline-Cancels_example = cancel_pipeline-Cancels outside operator build world stored

process_ai_review_with_retry-Retried_example :
    Retried outside operator pulled none
      (process_ai_review_with_retry outside operator pulled none 3 world)
process_ai_review_with_retry-Retried_example =
    process_ai_review_with_retry-Retried outside operator pulled none 2 world
