-- ===== src/Service/AiReview/Logs.antt =====
-- The runs, logs and texts of `process_ai_review`.
use jenkins_service.Prelude.{
  ℕ, suc, ◌+◌, String, ◌+++◌, Bool, true, false, zero, not, ◌&&◌, ◌||◌, Option, none, some, List,
  [], ◌∷◌, ◌++◌, ◌==◌, map, any, codes, lower, string_take, length, ltb, if◌then◌else◌,
}
use jenkins_service.Exec.{
  Error, conflict, not_found, value_error, diff_error, upstream, key_error, transport,
  runtime_error,
}
use jenkins_service.Model.Json.{
  Json, null, neg, real, arr, nil, cons, str, num, bool, obj, field, end, get,
}
use jenkins_service.Model.Repository.{or_else}
use jenkins_service.Model.Review.{
  ReviewPolicy, ActionKind, ActionStatus, AiReviewAction, ReviewOutcome, AiReviewLog,
}
use jenkins_service.Model.Pipeline.{PipelineResult}
use jenkins_service.Model.Extension.{ExtensionOutput, RunStatus, ExtensionRun}
use jenkins_service.Model.Requests.{BuildCompletion}
use jenkins_service.Review.Finding.{Severity, severity_value, ReviewFinding, ReviewResult}
use jenkins_service.Service.World.{Outside, Comment}

-- `str(exc)`
abbrev pub message : Error → String
message (conflict m) = m
message (not_found m) = m
message (value_error m) = m
message (diff_error m) = m
message (upstream m) = m
message (key_error m) = m
message (transport m) = m
message (runtime_error m) = m

-- `"|".join(parts)`
abbrev pub join : List (List ℕ) → List ℕ
join [] = []
join (part ∷ []) = part
join (part ∷ next ∷ parts) = part ++ b'|' ∷ join (next ∷ parts)

-- `len(text.encode("utf-8"))`
unfoldable pub utf8_length : List ℕ → ℕ
utf8_length [] = 0
utf8_length (c ∷ s) =
    (if ltb c 0x80 then 1 else if ltb c 0x800 then 2 else if ltb c 0x10000 then 3 else 4)
    + utf8_length s

-- `item.model_dump(mode="json")`
abbrev pub finding_json : ReviewFinding → Json
finding_json f = obj (
    field "severity" (str (severity_value f.severity)) (
      field "title" (str f.title)
        (field "body" (str f.body) (field "path" (str f.path) (field "line" (num f.line) end)))))

abbrev pub skip_reason : ReviewPolicy → String
skip_reason policy =
    if not policy.enabled
    then "AI review was disabled by the trusted pipeline policy."
    else "AI review applies only to pull-request builds."

module _ (o : Outside) where
  -- `str(result.pull_request or "not-a-pull-request")`
  abbrev pub pull_request_text : Option ℕ → String
  pull_request_text (some (suc n)) = o.decimal (suc n)
  pull_request_text _ = "not-a-pull-request"

  -- what a review is identified by
  unfoldable pub identity : PipelineResult → List ℕ
  identity result = join (
      lower result.repository
      ∷ codes (pull_request_text result.pull_request)
      ∷ lower (or_else result.base_sha "")
      ∷ lower result.commit_sha
      ∷ codes o.openai_model
      ∷ codes o.review_prompt_version
      ∷ [])

  abbrev pub idempotency_key : PipelineResult → String
  idempotency_key result = "ai-review:" +++ o.sha256 (identity result)

  abbrev pub new_run : PipelineResult → String → ℕ → ExtensionRun
  new_run result id created = record {
    id = id;
    extension_id = "openai-review";
    image_digest = o.openai_model;
    action = o.review_prompt_version;
    target = elim result.pull_request [
      | some n ↦ result.repository +++ ("#" +++ o.decimal n)
      | none ↦ result.repository +++ ("@" +++ result.commit_sha)
    ];
    idempotency_key = idempotency_key result;
    status = RunStatus.running;
    output = none;
    created_at = created;
    completed_at = none;
  }

  -- the fields that every log of a completion shares
  abbrev pub log_of :
      BuildCompletion
      → ExtensionRun
      → ReviewOutcome
      → String
      → List Json
      → List AiReviewAction
      → Option String
      → ℕ
      → ℕ
      → AiReviewLog
  log_of completion run outcome summary findings actions reason started completed = record {
    build_id = completion.build_id;
    review_run_id = run.id;
    repository = completion.result.repository;
    pull_request = completion.result.pull_request;
    base_sha = completion.result.base_sha;
    head_sha = completion.result.commit_sha;
    model = o.openai_model;
    prompt_version = o.review_prompt_version;
    outcome = outcome;
    summary = summary;
    findings = findings;
    actions = actions;
    failure_reason = reason;
    started_at = started;
    completed_at = completed;
  }

  abbrev pub action_of : ActionKind → ActionStatus → String → Option String → AiReviewAction
  action_of kind status detail response = record {
    action = kind;
    status = status;
    detail = detail;
    response_id = response;
  }

  abbrev pub skipped_log : BuildCompletion → ExtensionRun → ℕ → ℕ → AiReviewLog
  skipped_log completion run started completed =
      log_of completion run ReviewOutcome.skipped
        (skip_reason completion.review +++ " No GitHub review or AI-review status was published.")
        []
        (action_of ActionKind.github_pull_request_review ActionStatus.not_performed
            (skip_reason completion.review) none
          ∷ action_of ActionKind.github_commit_status ActionStatus.not_performed
              "A skipped review is not represented as a successful commit status." none
          ∷ [])
        none started completed

  abbrev pub failed_log : BuildCompletion → ExtensionRun → String → Bool → ℕ → ℕ → AiReviewLog
  failed_log completion run reason published started completed =
      log_of completion run ReviewOutcome.failed
        "AI review did not complete, so no GitHub pull-request review was published." []
        (action_of ActionKind.github_pull_request_review ActionStatus.not_performed
            "No validated AI review result was available to publish." none
          ∷ action_of ActionKind.github_commit_status
              (if published then ActionStatus.performed else ActionStatus.failed)
              (if published
                then "Published the failed AI-review status."
                else "Failed to publish the failed AI-review status.")
              none
          ∷ [])
        (some reason) started completed

  abbrev pub count_text : ReviewResult → String
  count_text review = o.decimal (length review.findings)

  abbrev pub action_summary : ReviewResult → Bool → Bool → String
  action_summary review blocking published =
      ("Published one GitHub review with " +++ (count_text review +++ " inline comment(s). "))
      +++ ((if blocking
            then "The final AI-review status requires changes."
            else "The final AI-review status passed.")
          +++ (if published then "" else " The final commit status could not be published."))

  abbrev pub reviewed_log :
      BuildCompletion
      → ExtensionRun
      → ReviewResult
      → Option String
      → Bool
      → Bool
      → ℕ
      → ℕ
      → AiReviewLog
  reviewed_log completion run review response blocking published started completed =
      log_of completion run
        (if blocking || not published then ReviewOutcome.failed else ReviewOutcome.passed)
        (string_take 4000
          (review.summary +++ ("\n\nActions: " +++ action_summary review blocking published)))
        (map finding_json review.findings)
        (action_of ActionKind.github_pull_request_review ActionStatus.performed
            ("Published the review summary and "
              +++ (count_text review +++ " validated inline comment(s)."))
            response
          ∷ action_of ActionKind.github_commit_status
              (if published then ActionStatus.performed else ActionStatus.failed)
              (if blocking && published
                then "Published a blocking failure status."
                else if published
                then "Published a successful status."
                else "Failed to publish the final AI-review status.")
              none
          ∷ [])
        (if published then none else some "GitHub AI-review status publication failed") started
        completed

-- `finding.severity.value.upper()`
abbrev pub severity_upper : Severity → String
severity_upper Severity.critical = "CRITICAL"
severity_upper Severity.high = "HIGH"
severity_upper Severity.medium = "MEDIUM"
severity_upper Severity.low = "LOW"

abbrev pub comment_of : ReviewFinding → Comment
comment_of f = record {
  path = f.path;
  line = f.line;
  side = "RIGHT";
  body = "**" +++ (severity_upper f.severity +++ (": " +++ (f.title +++ ("**\n\n" +++ f.body))));
}

-- `finding.severity.value in policy.critical_severities` for some finding
unfoldable pub is_blocking : ReviewPolicy → ReviewResult → Bool
is_blocking policy review =
    any (λ f. any (λ severity. severity == severity_value f.severity) policy.critical_severities)
      review.findings

-- `bool(value)` of JSON, of which 0, an empty text, an empty list and an empty object are false
abbrev pub is_true : Option Json → Bool
is_true none = false
is_true (some null) = false
is_true (some (bool b)) = b
is_true (some (num zero)) = false
is_true (some (num (suc n))) = true
is_true (some (neg n)) = true
is_true (some (real s)) = not (s == "0.0" || s == "-0.0")
is_true (some (str s)) = not (s == "")
is_true (some (arr nil)) = false
is_true (some (arr (cons item items))) = true
is_true (some (obj end)) = false
is_true (some (obj (field key value fields))) = true

-- the `blocking` mark that an earlier run left in its output
unfoldable pub was_blocking : Option ExtensionOutput → Bool
unfolding get
was_blocking none = false
was_blocking (some output) = elim output.requested_github_actions [
  | [] ↦ false
  | action ∷ actions ↦ is_true (get "blocking" action)
]
