-- ===== src/Service/AiReview/Process.antt =====
-- `process_ai_review`, which reviews a pull request once for each identity, and its retries.
use jenkins_service.Prelude.{
  ℕ, zero, suc, ◌+◌, ◌*◌, ◌^◌, String, Bool, true, false, not, ◌&&◌, ◌||◌, Option, none, some, [],
  ◌∷◌, ◌==◌, map, is_some, codes, string_take, length, ltb, if◌then◌else◌,
}
use jenkins_service.Exec.{
  Error, upstream, diff_error, value_error, Result, ok, err, pure, raise, lift, ensure, try_catch,
  ◌>>=◌, ◌>>◌,
}
use jenkins_service.Model.Json.{Json, str, num, bool, null, Fields, field, end}
use jenkins_service.Model.Scope.{Principal}
use jenkins_service.Model.Review.{AiReviewLog}
use jenkins_service.Model.Extension.{ExtensionOutput, empty_output, RunStatus, ExtensionRun}
use jenkins_service.Model.Audit.{AuditOutcome}
use jenkins_service.Model.Requests.{BuildCompletion}
use jenkins_service.Review.Finding.{ReviewResult}
use jenkins_service.Review.Diff.{parse_unified_diff, validate_result}
use jenkins_service.Store
use jenkins_service.Store.{Store}
use jenkins_service.Service.World.{
  Outside, Action, create_review_call, broker_review, on_store, query, ask, draw_id, now, pause,
  audit,
}
use jenkins_service.Service.Status.{publish_ci_status}
use jenkins_service.Service.ReviewLog.{attach_review_log}
use jenkins_service.Service.AiReview.Logs.{
  message, utf8_length, idempotency_key, new_run, skip_reason, skipped_log, failed_log,
  reviewed_log, comment_of, finding_json, is_blocking, was_blocking,
}

-- `policy.enabled and result.pull_request is not None`
abbrev pub is_reviewed : BuildCompletion → Bool
is_reviewed completion = completion.review.enabled && is_some completion.result.pull_request

-- the log that a run's output holds
abbrev pub log_in : ExtensionRun → Option AiReviewLog
log_in run = elim run.output [ none ↦ none | some output ↦ output.review_log ]

abbrev pub is_running : RunStatus → Bool
is_running RunStatus.running = true
is_running _ = false

-- the status that an earlier run stands for
abbrev pub repeated_state : RunStatus → Bool → String
repeated_state RunStatus.running blocking = "pending"
repeated_state RunStatus.failed blocking = "failure"
repeated_state _ blocking = if blocking then "failure" else "success"

-- `prerequisite_error or "AI review prerequisites are unavailable"`
abbrev pub missing : Option String → String
missing none = "AI review prerequisites are unavailable"
missing (some reason) = if reason == "" then "AI review prerequisites are unavailable" else reason

-- the errors that `process_ai_review` turns into a failed review
abbrev pub is_review_error : Error → Bool
is_review_error (upstream m) = true
is_review_error (diff_error m) = true
is_review_error (value_error m) = true
is_review_error _ = false

-- `review_response.get("id")`, in JSON and as the text of a log
abbrev pub review_id : Option Json → Json
review_id none = null
review_id (some id) = id

module _ (o : Outside) where
  abbrev pub response_text : Option Json → Option String
  response_text none = none
  response_text (some null) = none
  response_text (some id) = some (o.json_text id)

  -- `record_background_failure`
  unfoldable pub record_background_failure :
      Principal → String → String → Error → (Fields → Fields) → Action Unit
  unfolding audit
  record_background_failure principal action target e detail =
      audit o principal action target AuditOutcome.failed (
        detail (
          field "error_type" (str (o.error_name e))
            (field "reason" (str (string_take 2000 (o.redact (message e)))) end)))

module _ (o : Outside) (principal : Principal) (completion : BuildCompletion) where
  -- the AI-review status of the commit
  abbrev pub publish : String → String → Action Bool
  publish state description =
      publish_ci_status o principal completion.result.repository completion.result.commit_sha
        "jenkinsservice/ai-review" state description completion.build_id

  abbrev pub key : String
  key = idempotency_key o completion.result

  -- the body of `record_failure`, for a run that started at the time given
  unfoldable pub record_failure : ExtensionRun → ℕ → String → Action Unit
  record_failure run started reason = do
    let safe_reason = string_take 2000 (o.redact reason)
    published ← publish "failure" "AI review did not complete"
    completed ← now o
    let run' = record run {
      output = some empty_output;
      status = RunStatus.failed;
      completed_at = some completed;
    }
    attach_review_log o run' (failed_log o completion run' safe_reason published started completed)
        true
    audit o principal "ai_review" run.target AuditOutcome.failed
        (field "reason" (str safe_reason) (field "idempotency_key" (str key) end))

  -- a completion that is not reviewed
  unfoldable pub skip_review : ExtensionRun → ℕ → Action Unit
  skip_review run started = do
    completed ← now o
    let run' = record run {
      output = some empty_output;
      status = RunStatus.skipped;
      completed_at = some completed;
    }
    attach_review_log o run' (skipped_log o completion run' started completed) false
    audit o principal "ai_review" run.target AuditOutcome.succeeded (
        field "outcome" (str "skipped") (
          field "reason" (str (skip_reason completion.review))
            (field "idempotency_key" (str key) end)))

  -- the output of a review that GitHub has accepted
  abbrev pub review_output : ReviewResult → Bool → Json → ExtensionOutput
  review_output review blocking id = record {
    findings = map finding_json review.findings;
    requested_github_actions =
        field "blocking" (bool blocking)
          (field "review_id" id (field "summary" (str review.summary) end))
        ∷ [];
    review_log = none;
  }

  -- what follows an accepted review: the final status, the log and the audit record
  unfoldable pub conclude : ExtensionRun → ℕ → ReviewResult → Option Json → Action Unit
  conclude run started review response = do
    let blocking = is_blocking completion.review review
    published ← publish (if blocking then "failure" else "success") (
        if blocking
        then "Critical AI review finding requires changes"
        else "AI review found no critical issues")
    completed ← now o
    let run' = record run {
      output = some (review_output review blocking (review_id response));
      status = if published then RunStatus.succeeded else RunStatus.failed;
      completed_at = some completed;
    }
    attach_review_log o run'
        (reviewed_log o completion run' review (response_text o response) blocking published started
          completed)
        true
    audit o principal "ai_review" run.target
        (if published then AuditOutcome.succeeded else AuditOutcome.failed)
        (field "outcome" (str (if blocking || not published then "failed" else "passed")) (
          field "findings" (num (length review.findings)) (
            field "blocking" (bool blocking)
              (field "review_id" (review_id response) (field "idempotency_key" (str key) end)))))

  -- the body of the `try`: the diff, the broker's review, its validation and its publication
  unfoldable pub review_diff : ExtensionRun → ℕ → ℕ → String → String → Action Unit
  review_diff run started pull_request base diff = do
    ensure (not (ltb completion.review.max_diff_bytes (utf8_length (codes diff))))
        (diff_error "trusted review diff exceeds configured byte limit")
    parsed ← lift (parse_unified_diff (codes diff))
    let call =
        broker_review completion.result.repository pull_request base completion.result.commit_sha
          diff
    broker ← ask call (λ calls. o.broker_answer calls call)
    ensure (broker.model == o.openai_model && broker.prompt_version == o.review_prompt_version)
        (value_error "review broker identity does not match configured model/prompt")
    lift (validate_result broker.review.findings parsed)
    let review =
        create_review_call completion.result.repository pull_request completion.result.commit_sha
          broker.review.summary (map comment_of broker.review.findings)
    response ← ask review (λ calls. o.review_answer calls review)
    conclude run started broker.review response

  abbrev pub or_failure : ExtensionRun → ℕ → Error → Action Unit
  or_failure run started e =
      if is_review_error e then record_failure run started (message e) else raise e

  -- the base and the diff, where the prerequisites of a review are there
  abbrev pub prerequisites : Option String → Option (String × String)
  prerequisites (some reason) = none
  prerequisites none = elim completion.result.base_sha [
    | none ↦ none
    | some base ↦ elim completion.diff [
      | none ↦ none
      | some diff ↦ if o.has_review_broker then some (base, diff) else none
    ]
  ]

  -- a pull request that is reviewed
  abbrev pub review_pull_request : ExtensionRun → ℕ → Option String → ℕ → Action Unit
  review_pull_request run started prerequisite_error pull_request = do
    publish "pending" "Critical-only AI review is running"
    elim (prerequisites prerequisite_error) [
      | none ↦ record_failure run started (missing prerequisite_error)
      | some (base, diff) ↦
          try_catch (review_diff run started pull_request base diff) (or_failure run started)
    ]

  -- the part of `process_ai_review` behind the choice of a run
  unfoldable pub carry_out : ExtensionRun → ℕ → Option String → Action Unit
  carry_out run started prerequisite_error =
      if not completion.review.enabled
      then skip_review run started
      else elim completion.result.pull_request [
        | none ↦ skip_review run started
        | some number ↦ review_pull_request run started prerequisite_error number
      ]

  -- `previous_log.model_copy(update={"build_id": completion.build_id})`
  abbrev pub attach_previous : ExtensionRun → Action Unit
  attach_previous run = elim (log_in run) [
    | none ↦ pure tt
    | some log ↦
        attach_review_log o run (record log { build_id = completion.build_id })
          (is_reviewed completion)
  ]

  -- the key has a run
  unfoldable pub repeat : ExtensionRun → Option String → Action Unit
  repeat run prerequisite_error = do
    attach_previous run
    if is_reviewed completion
        then (do
          publish (repeated_state run.status (was_blocking run.output))
              "Deduplicated critical-only AI review"
          pure tt)
        else if is_running run.status
        then carry_out run run.created_at prerequisite_error
        else pure tt

  -- the key has no run: one is stored, unless another was stored meanwhile
  unfoldable pub begin : Option String → Action Unit
  unfolding Store.save_extension_run
  begin prerequisite_error = do
    started ← now o
    id ← draw_id o
    created ← now o
    stored ← on_store (Store.save_extension_run (new_run o completion.result id created))
    if stored.id == id
        then carry_out stored started prerequisite_error
        else if not (is_running stored.status) || is_some (log_in stored)
        then pure tt
        else carry_out stored stored.created_at prerequisite_error

  unfoldable pub process_ai_review : Option String → Action Unit
  unfolding Store.get_extension_run_by_key
  process_ai_review prerequisite_error = do
    previous ← query (Store.get_extension_run_by_key key)
    elim previous [ none ↦ begin prerequisite_error | some run ↦ repeat run prerequisite_error ]

  -- what an attempt leads to, and the attempts left of the loop
  abbrev pub settle_review : ℕ → ℕ → (Option Error → Action Bool) → Result (Unit {0}) → Action Bool
  settle_review attempts attempt again (ok _) = pure true
  settle_review attempts attempt again (err e) = do
    if ltb (attempt + 1) attempts then pause (250 * 2 ^ attempt) else pure tt
    again (some e)

  unfoldable pub review_attempts : Option String → ℕ → ℕ → ℕ → Option Error → Action Bool
  review_attempts prerequisite_error attempts zero attempt none = pure false
  review_attempts prerequisite_error attempts zero attempt (some e) = do
    record_background_failure o principal "ai_review_background" completion.build_id e
        (field "attempts" (num attempts))
    pure false
  review_attempts prerequisite_error attempts (suc left) attempt last = λ w.
      let (r, w') = process_ai_review prerequisite_error w in
      settle_review attempts attempt
        (review_attempts prerequisite_error attempts left (suc attempt)) r w'

  unfoldable pub process_ai_review_with_retry : Option String → ℕ → Action Bool
  unfolding review_attempts
  process_ai_review_with_retry prerequisite_error attempts =
      review_attempts prerequisite_error attempts attempts 0 none
