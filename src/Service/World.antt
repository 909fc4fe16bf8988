-- ===== src/Service/World.antt =====
-- What a method of `JenkinsService` works on: the store, and the calls that it has made to Jenkins,
-- GitHub, the review broker and the extension runner, oldest first. What those answer is given by
-- the record `Outside`, as a function of all calls made before, so an answer may change with time.
use jenkins_service.Prelude.{ℕ, ◌+◌, String, Bool, Option, List, [], ◌∷◌, ◌++◌}
use jenkins_service.Exec.{Exec, Error, Result, ok, ◌>>=◌}
use jenkins_service.Model.Json.{Json, Fields}
use jenkins_service.Model.Scope.{Principal}
use jenkins_service.Model.Review.{AiReviewLog}
use jenkins_service.Model.Pipeline.{PipelineResult}
use jenkins_service.Model.Extension.{ExtensionManifest, ExtensionOutput}
use jenkins_service.Model.Audit.{AuditOutcome}
use jenkins_service.Review.Finding.{ReviewResult}
use jenkins_service.Store
use jenkins_service.Store.{Store}

-- the arguments of `GitHubClient.set_status`
pub record StatusCall : Type 0 where
  pub repository : String
  pub sha : String
  pub context : String
  pub state : String
  pub description : String
  pub target_url : Option String

-- a comment of `GitHubClient.create_review`
pub record Comment : Type 0 where
  pub path : String
  pub line : ℕ
  pub side : String
  pub body : String

pub data Call : Type 0 where
  ensure_job_call : String → String → String → Option String → Option ℕ → Call
  delete_job_call : String → String → Call
  scan_call : String → String → String → Call
  trigger_call : String → String → String → Option ℕ → Option String → String → String → Call
  cancel_queue_call : ℕ → Call
  cancel_call : String → ℕ → Call
  queue_status_call : ℕ → Call
  build_status_call : String → ℕ → Call
  pipeline_result_call : String → ℕ → ℕ → Call
  progressive_log_call : String → ℕ → ℕ → Call
  set_status_call : StatusCall → Call
  create_review_call : String → ℕ → String → String → List Comment → Call
  pull_request_diff_call : String → ℕ → String → String → ℕ → Call
  execute_action_call : String → String → Fields → List String → Call
  broker_review : String → ℕ → String → String → String → Call
  run_extension : ExtensionManifest → String → Fields → Call
  sleep : ℕ → Call

-- `JenkinsClient.queue_status`: whether it is cancelled, and the number of the executable
pub record QueueStatus : Type 0 where
  pub cancelled : Bool
  pub number : Option ℕ

-- `JenkinsClient.build_status`, with its timestamp in milliseconds
pub record BuildState : Type 0 where
  pub timestamp : Option ℕ
  pub building : Bool
  pub result : Option String

-- `BrokerReview`
pub record BrokerReview : Type 0 where
  pub model : String
  pub prompt_version : String
  pub blocking : Bool
  pub review : ReviewResult

-- The clients and what the standard library draws or computes; the settings of the service.
pub record Outside : Type 0 where
  -- `datetime.fromtimestamp(timestamp / 1000)` of milliseconds, in microseconds: it raises where the
  -- time is beyond the calendar
  pub from_timestamp : ℕ → Result ℕ
  -- the n-th value drawn by `uuid4()`, and by `now_utc()`
  pub uuid : ℕ → String
  pub clock : ℕ → ℕ
  -- what a call answers after the calls listed
  pub unit_answer : List Call → Call → Result (Unit {0})
  pub number_answer : List Call → Call → Result ℕ
  pub queue_answer : List Call → ℕ → Result (Option QueueStatus)
  pub state_answer : List Call → String → ℕ → Result (Option BuildState)
  pub result_answer : List Call → String → ℕ → ℕ → Result (Option String)
  pub log_answer : List Call → String → ℕ → ℕ → Result (String × ℕ × Bool)
  pub review_answer : List Call → Call → Result (Option Json)
  pub diff_answer : List Call → Call → Result String
  pub broker_answer : List Call → Call → Result BrokerReview
  pub output_answer : List Call → Call → Result ExtensionOutput
  -- `PipelineResult.model_validate_json`
  pub parse_result : String → Option PipelineResult
  -- `hashlib.sha256(branch.encode()).hexdigest()[:16]`
  pub branch_digest : String → String
  -- `hashlib.sha256(text.encode()).hexdigest()`, and the digest and length of a log's JSON text
  pub sha256 : List ℕ → String
  pub log_digest : AiReviewLog → String
  pub log_size : AiReviewLog → ℕ
  pub decimal : ℕ → String
  -- `str` of the `id` that GitHub gives a review, and `type(error).__name__`
  pub json_text : Json → String
  pub error_name : Error → String
  pub redact : String → String
  -- the settings
  pub github_allowlist : List String
  pub max_artifact_bytes : ℕ
  pub public_base_url : Option String
  pub openai_model : String
  pub review_prompt_version : String
  pub has_review_broker : Bool
  pub request_id : String

pub record World : Type 0 where
  pub store : Store
  pub calls : List Call
  pub ids : ℕ
  pub times : ℕ

-- A method call on the world.
abbrev pub Action : Type 0 → Type 0
Action = Exec World

-- A call of the store.
abbrev pub on_store : {A : Type 0} → Exec Store A → Action A
on_store m w = let (r, s) = m w.store in (r, record w { store = s })

-- A query of the store.
abbrev pub query : {A : Type 0} → (Store → A) → Action A
query f w = (ok (f w.store), w)

-- A call of a client: it is recorded, and answered.
abbrev pub ask : {A : Type 0} → Call → (List Call → Result A) → Action A
ask call answer w = (answer w.calls, record w { calls = w.calls ++ call ∷ [] })

module _ (o : Outside) where
  -- `uuid4()`
  abbrev pub draw_id : Action String
  draw_id w = (ok (o.uuid w.ids), record w { ids = w.ids + 1 })

  -- `now_utc()`
  abbrev pub now : Action ℕ
  now w = (ok (o.clock w.times), record w { times = w.times + 1 })

  -- a client's call with no result that the service uses
  abbrev pub tell : Call → Action Unit
  tell call = ask call (λ calls. o.unit_answer calls call)

  -- `_audit`
  unfoldable pub audit : Principal → String → String → AuditOutcome → Fields → Action Unit
  unfolding Store.record_audit
  audit principal action target outcome detail = do
    id ← draw_id
    created ← now
    on_store (
        Store.record_audit (record {
          id = id;
          actor = principal.token_id;
          action = action;
          target = target;
          request_id = o.request_id;
          outcome = outcome;
          detail = detail;
          created_at = created;
        }))

-- `asyncio.sleep`, in milliseconds
abbrev pub pause : ℕ → Action Unit
pause ms w = (ok tt, record w { calls = w.calls ++ sleep ms ∷ [] })
