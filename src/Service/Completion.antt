-- ===== src/Service/Completion.antt =====
-- service.py: `complete_build`, the callback with which a finished pipeline reports its result.
pub mod Parts
pub mod Effects
pub mod Replay
use jenkins_service.Prelude.{
  ℕ, String, ◌+++◌, ◌≡◌, refl, Bool, true, false, not, ◌&&◌, Option, none, some, List, [], ◌∷◌,
  ◌==◌, any, opt_eq, nat_eq, same_lower, if◌then◌else◌,
}
use jenkins_service.Exec.{
  Exec, Error, value_error, upstream, not_found, Result, ok, err, pure, raise, ensure, resume,
  ◌>>=◌, ◌>>◌,
}
use jenkins_service.Model.Json.{str, field, end}
use jenkins_service.Model.Scope.{Principal}
use jenkins_service.Model.Repository.{or_else}
use jenkins_service.Model.Pipeline.{
  Status, is_terminal, is_passed, queue_state_of, QueueState, QueueItem, PipelineResult, Build,
}
use jenkins_service.Model.Audit.{AuditOutcome, WebhookDelivery}
use jenkins_service.Model.Requests.{BuildCompletion}
use jenkins_service.Store
use jenkins_service.Store.{Store}
use jenkins_service.Service.World.{Outside, World, Action, on_store, query, now, audit}
use jenkins_service.Service.Status.{publish_ci_status}

-- the text of a status
abbrev pub status_text : Status → String
status_text Status.queued = "queued"
status_text Status.running = "running"
status_text Status.passed = "passed"
status_text Status.failed = "failed"
status_text Status.cancelled = "cancelled"

-- `try: ... except NotFoundError: return` around the query, and the write of the queue's state
abbrev pub write_queue_state : QueueState → Result QueueItem → Action Unit
write_queue_state state (ok queue) =
    on_store (Store.save_queue_item (record queue { state = state })) >>= λ _. pure tt
write_queue_state state (err (not_found message)) = pure tt
write_queue_state state (err e) = raise e

-- `_set_queue_state`
unfoldable pub set_queue_state : Build → QueueState → Action Unit
unfolding Store.get_queue_item Store.save_queue_item
set_queue_state build state w = elim build.queue_item_id [
  | none ↦ (ok tt, w)
  | some id ↦ write_queue_state state (Store.get_queue_item id w.store).0 w
]

-- the completion names the queued build, up to the case of its texts
unfoldable pub is_same_identity : PipelineResult → Build → Bool
is_same_identity result build =
    opt_eq ◌==◌ result.build_id (some build.id)
    && same_lower result.repository build.result.repository
    && same_lower result.commit_sha build.result.commit_sha
    && same_lower (or_else result.base_sha "") (or_else build.result.base_sha "")
    && opt_eq nat_eq result.pull_request build.result.pull_request

abbrev pub delivery_id : BuildCompletion → String
delivery_id completion = "build-completion:" +++ completion.callback_id

abbrev pub delivery_of : BuildCompletion → ℕ → WebhookDelivery
delivery_of completion received = record {
  delivery_id = delivery_id completion;
  event = "build_completion";
  repository = completion.result.repository;
  accepted = true;
  reason = none;
  received_at = received;
}

-- the build with the reported result
abbrev pub completed : Build → BuildCompletion → ℕ → Build
completed build completion updated = record build {
  result = completion.result;
  review_policy = some completion.review;
  updated_at = updated;
}

-- `any(item.delivery_id == delivery.delivery_id for item in await self.store.list_webhooks())`
unfoldable pub is_recorded : String → Store → Bool
unfolding Store.list_webhooks
is_recorded id s = any (λ item. item.delivery_id == id) (Store.list_webhooks s)

module _ (o : Outside) (principal : Principal) (completion : BuildCompletion) where
  -- the writes behind a published status
  unfoldable pub record_completion : Build → WebhookDelivery → Action Bool
  unfolding Store.record_webhook_once
  record_completion build delivery = do
    inserted ← on_store (Store.record_webhook_once delivery)
    if inserted
        then (do
          set_queue_state build (queue_state_of completion.result.status)
          audit o principal "build_completion" build.id AuditOutcome.succeeded (
              field "status" (str (status_text completion.result.status))
                (field "callback_id" (str completion.callback_id) end))
          pure true)
        else pure false

  -- the save and the publication of a result that is new
  unfoldable pub apply_completion : Build → WebhookDelivery → Action Bool
  unfolding Store.save_build
  apply_completion build delivery = do
    updated ← now o
    let build' = completed build completion updated
    on_store (Store.save_build build')
    published ←
        publish_ci_status o principal completion.result.repository completion.result.commit_sha
          "jenkinsservice/native-ci"
          (if is_passed completion.result.status then "success" else "failure")
          (if is_passed completion.result.status
            then "Native Jenkins validation passed"
            else "Native Jenkins validation " +++ status_text completion.result.status)
          build.id
    ensure published (upstream "native CI status publication failed after bounded retries")
    record_completion build' delivery

  unfoldable pub complete_build : Action Bool
  unfolding Store.get_build
  complete_build = do
    build ← on_store (Store.get_build completion.build_id)
    ensure (is_same_identity completion.result build)
        (value_error "build completion identity does not match the queued build")
    ensure (is_terminal completion.result.status)
        (value_error "build completion must contain a terminal result")
    received ← now o
    known ← query (is_recorded (delivery_id completion))
    if known then pure false else apply_completion build (delivery_of completion received)
