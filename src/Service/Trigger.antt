-- ===== src/Service/Trigger.antt =====
-- service.py: `trigger_pipeline`, the reuse of a native build and `retry_pipeline`.
pub mod Reuse
use jenkins_service.Prelude.{
  ℕ, zero, suc, ◌+◌, String, ◌+++◌, Bool, true, false, not, ◌&&◌, Option, none, some, List, [], ◌∷◌,
  ◌==◌, keep, is_some, find_first, same_lower, if◌then◌else◌, ◌/◌,
}
use jenkins_service.Exec.{
  Exec, Error, upstream, diff_error, value_error, Result, ok, err, pure, raise, ensure, ◌>>=◌, ◌>>◌,
}
use jenkins_service.Model.Json.{Json, str, num, null, Fields, field, end}
use jenkins_service.Model.Scope.{Principal}
use jenkins_service.Model.Repository.{Repository, full_name, or_else}
use jenkins_service.Model.Review.{ReviewPolicy, default_policy}
use jenkins_service.Model.Pipeline.{Status, is_passed, QueueState, QueueItem, PipelineResult, Build}
use jenkins_service.Model.Audit.{AuditOutcome}
use jenkins_service.Model.Requests.{TriggerRequest, BuildCompletion}
use jenkins_service.Clients.Jobs.{managed_job_path}
use jenkins_service.Store
use jenkins_service.Store.{Store}
use jenkins_service.Service.World.{
  Outside, World, Action, Call, ensure_job_call, trigger_call, pull_request_diff_call, on_store,
  query, ask, tell, draw_id, now, audit,
}
use jenkins_service.Service.Status.{publish_ci_status}
use jenkins_service.Service.Repositories.{rebind_legacy_job}
use jenkins_service.Service.ReviewLog.{ai_review_artifact_path}
use jenkins_service.Service.AiReview.Logs.{message}
use jenkins_service.Service.AiReview.Process.{process_ai_review}

-- a passed native build of the repository, of the same commit and the same trusted commit
unfoldable pub is_reusable : String → String → String → Build → Bool
is_reusable repository_id commit_sha trusted_sha build =
    build.repository_id == repository_id
    && same_lower build.result.commit_sha commit_sha
    && same_lower (or_else build.result.trusted_sha "") trusted_sha
    && not (is_some build.result.pull_request)
    && is_passed build.result.status
    && not (is_some build.reused_from_build_id)

unfoldable pub reusable_native_build : String → String → String → Store → Option Build
unfolding Store.list_builds
reusable_native_build repository_id commit_sha trusted_sha s =
    find_first (is_reusable repository_id commit_sha trusted_sha) (Store.list_builds s)

-- `null` for `None` in the detail of an audit record
abbrev pub number_or_null : Option ℕ → Json
number_or_null none = null
number_or_null (some n) = num n

-- the result of the reused build, for the build that reuses it
unfoldable pub reused_result : TriggerRequest → Build → String → PipelineResult
reused_result payload source build_id = record source.result {
  build_id = some build_id;
  base_sha = payload.base_sha;
  pull_request = payload.pull_request;
  status = Status.passed;
  checks = keep (λ item. not (item.id == "ai-review")) source.result.checks;
  artifacts = keep (λ item. not (item.path == ai_review_artifact_path)) source.result.artifacts;
  extension_runs = [];
}

unfoldable pub reused_build :
    Repository → TriggerRequest → String → Build → String → String → ℕ → ℕ → Build
reused_build repository payload branch source id queue_id created updated = record {
  id = id;
  repository_id = repository.id;
  jenkins_job = source.jenkins_job;
  queue_item_id = some queue_id;
  jenkins_queue_id = none;
  jenkins_build_number = source.jenkins_build_number;
  branch = some branch;
  reused_from_build_id = some source.id;
  review_policy = some (or_else source.review_policy default_policy);
  ai_review_log = none;
  result = reused_result payload source id;
  created_at = created;
  updated_at = updated;
}

abbrev pub queue_of :
    Repository → TriggerRequest → String → String → String → QueueState → Option ℕ → ℕ → QueueItem
queue_of repository payload branch id build_id state jenkins_queue_id created = record {
  id = id;
  repository_id = repository.id;
  build_id = some build_id;
  jenkins_queue_id = jenkins_queue_id;
  state = state;
  commit_sha = payload.commit_sha;
  base_sha = payload.base_sha;
  branch = some branch;
  pull_request = payload.pull_request;
  created_at = created;
}

unfoldable pub queued_result : Repository → TriggerRequest → String → PipelineResult
queued_result repository payload build_id = record {
  repository = full_name repository;
  commit_sha = payload.commit_sha;
  trusted_sha = none;
  base_sha = payload.base_sha;
  build_id = some build_id;
  pull_request = payload.pull_request;
  status = Status.queued;
  started_at = none;
  completed_at = none;
  checks = [];
  artifacts = [];
  extension_runs = [];
}

-- the build that a request may reuse: only one for a pull request with a base may
unfoldable pub source_of : String → TriggerRequest → Store → Option Build
unfolding reusable_native_build
source_of repository_id payload s = elim payload.pull_request [
  | none ↦ none
  | some number ↦ elim payload.base_sha [
    | none ↦ none
    | some base ↦ reusable_native_build repository_id payload.commit_sha base s
  ]
]

-- `payload.branch or repository.default_branch`
abbrev pub branch_or_default : Option String → Repository → String
branch_or_default none repository = repository.default_branch
branch_or_default (some branch) repository =
    if branch == "" then repository.default_branch else branch

module _ (o : Outside) (principal : Principal) where
  -- `(diff, review_error)` behind the call for the diff
  abbrev pub diff_or_error : Result String → Action (Option String × Option String)
  diff_or_error (ok diff) = pure (some diff, none)
  diff_or_error (err (upstream m)) = pure (none, some m)
  diff_or_error (err (diff_error m)) = pure (none, some m)
  diff_or_error (err (value_error m)) = pure (none, some m)
  diff_or_error (err e) = raise e

  abbrev pub fetch_diff :
      String → TriggerRequest → ReviewPolicy → Action (Option String × Option String)
  fetch_diff name payload policy = elim payload.pull_request [
    | none ↦ pure (none, none)
    | some number ↦ elim payload.base_sha [
      | none ↦ pure (none, none)
      | some base ↦ λ w.
          let call =
            pull_request_diff_call name number base payload.commit_sha policy.max_diff_bytes in
          let (r, w') = ask call (λ calls. ok (o.diff_answer calls call)) w in
          elim r [ ok answer ↦ diff_or_error answer w' | err e ↦ (err e, w') ]
    ]
  ]

  unfoldable pub reuse_native_result :
      Repository → TriggerRequest → String → Build → Action QueueItem
  unfolding Store.save_queue_item Store.save_build
  reuse_native_result repository payload branch source = do
    id ← draw_id o
    created ← now o
    updated ← now o
    queue_id ← draw_id o
    queued ← now o
    let build = reused_build repository payload branch source id queue_id created updated
    let queue = queue_of repository payload branch queue_id id QueueState.reused none queued
    on_store (Store.save_queue_item queue)
    on_store (Store.save_build build)
    published ←
        publish_ci_status o principal (full_name repository) payload.commit_sha
          "jenkinsservice/native-ci" "success"
          "Native Jenkins validation reused from an exact-SHA passed build" id
    ensure published (upstream "reused native CI status publication failed")
    audit o principal "reuse_pipeline" (full_name repository) AuditOutcome.succeeded (
        field "source_build" (str source.id) (
          field "build" (str id) (
            field "branch" (str branch)
              (field "pull_request" (number_or_null payload.pull_request) end))))
    let policy = or_else source.review_policy default_policy
    answer ← fetch_diff (full_name repository) payload policy
    stamp ← now o
    let completion : BuildCompletion = record {
      callback_id = "reused:" +++ id;
      timestamp = stamp / 1000000;
      build_id = id;
      result = build.result;
      review = policy;
      diff = answer.0;
    }
    process_ai_review o principal completion answer.1
    pure queue

  -- a run of the pipeline in Jenkins
  unfoldable pub start_pipeline : Repository → TriggerRequest → String → Action QueueItem
  unfolding rebind_legacy_job Store.save_queue_item Store.save_build
  start_pipeline repository payload branch = do
    tell o (
        ensure_job_call repository.owner repository.name repository.default_branch (some branch)
          payload.pull_request)
    rebind_legacy_job o repository
    id ← draw_id o
    created ← now o
    updated ← now o
    let job =
        managed_job_path o.branch_digest o.decimal repository.owner repository.name branch
          payload.pull_request
    let call =
        trigger_call repository.owner repository.name payload.commit_sha payload.pull_request
          payload.base_sha id branch
    number ← ask call (λ calls. o.number_answer calls call)
    queue_id ← draw_id o
    queued ← now o
    let queue =
        queue_of repository payload branch queue_id id QueueState.queued (some number) queued
    on_store (Store.save_queue_item queue)
    on_store (
        Store.save_build (record {
          id = id;
          repository_id = repository.id;
          jenkins_job = job;
          queue_item_id = some queue_id;
          jenkins_queue_id = some number;
          jenkins_build_number = none;
          branch = some branch;
          reused_from_build_id = none;
          review_policy = none;
          ai_review_log = none;
          result = queued_result repository payload id;
          created_at = created;
          updated_at = updated;
        }))
    publish_ci_status o principal (full_name repository) payload.commit_sha
        "jenkinsservice/native-ci" "pending" "Native Jenkins validation is queued" id
    audit o principal "trigger_pipeline" (full_name repository) AuditOutcome.succeeded (
        field "queue" (str queue_id)
          (field "build" (str id) (field "branch" (str branch) (field "job" (str job) end))))
    pure queue

  unfoldable pub trigger_pipeline : TriggerRequest → Action QueueItem
  unfolding Store.get_repository
  trigger_pipeline payload = do
    repository ← on_store (Store.get_repository payload.repository_id)
    let branch = branch_or_default payload.branch repository
    source ← query (source_of repository.id payload)
    elim source [
      | some build ↦ reuse_native_result repository payload branch build
      | none ↦ start_pipeline repository payload branch
    ]

  unfoldable pub retry_pipeline : String → Action QueueItem
  unfolding Store.get_build
  retry_pipeline build_id = do
    build ← on_store (Store.get_build build_id)
    let payload : TriggerRequest = record {
      repository_id = build.repository_id;
      commit_sha = build.result.commit_sha;
      base_sha = build.result.base_sha;
      branch = build.branch;
      pull_request = build.result.pull_request;
    }
    queue ← trigger_pipeline payload
    audit o principal "retry_pipeline" build_id AuditOutcome.succeeded
        (field "queue" (str queue.id) end)
    pure queue
