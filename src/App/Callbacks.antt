-- ===== src/App/Callbacks.antt =====
-- app.py: the two callbacks, `github_webhook` and `build_completion`, with their background tasks,
-- and `verify_webhook_signature` of security.py.
pub mod Guard
pub mod Signed
use jenkins_service.Prelude.{
  ℕ, ◌-◌, ◌+◌, String, ◌+++◌, Bool, true, false, not, ◌&&◌, ◌||◌, Option, none, some, List, [], ◌∷◌,
  ◌++◌, ◌==◌, all, leb, ltb, length, codes, starts_with, if◌then◌else◌,
}
use jenkins_service.Exec.{
  Exec, Error, conflict, not_found, value_error, diff_error, upstream, key_error, transport,
  runtime_error, Result, ok, err, pure, raise, lift, try_catch, ◌>>=◌, ◌>>◌,
}
use jenkins_service.Model.Json.{Json, obj, str, Fields, field, end, get, as_object, as_string}
use jenkins_service.Model.Scope.{Scope, Principal}
use jenkins_service.Model.Repository.{or_else}
use jenkins_service.Model.Audit.{WebhookDelivery}
use jenkins_service.Model.Pipeline.{PipelineResult}
use jenkins_service.Model.Requests.{BuildCompletion}
use jenkins_service.Service.World.{Outside, World, Action}
use jenkins_service.Service.AiReview.Process.{
  record_background_failure, process_ai_review_with_retry,
}
use jenkins_service.Service.Completion.{complete_build}
use jenkins_service.Webhook.{
  filled, repository_full_name, github_principal, process_github_webhook, dispatch_github_webhook,
}

pub record Callback : Type 0 where
  -- the body as it comes, and the headers with its signature, its delivery and its event
  pub chunks : List (List ℕ)
  pub signature : Option String
  pub delivery : Option String
  pub event : Option String

-- what `json.loads` makes of bytes
pub data Loaded : Type 0 where
  not_json not_text : Loaded
  loaded : Json → Loaded

-- the settings, and the functions of the libraries: a secret is `none` where its file is missing
pub record Callbacks : Type 0 where
  pub max_webhook_bytes : ℕ
  pub webhook_secret : Option String
  pub callback_secret : Option String
  pub max_age_seconds : ℕ
  -- `hmac.new(secret, body, sha256).hexdigest()`
  pub hmac : String → List ℕ → String
  pub load_json : List ℕ → Loaded
  -- `BuildCompletion.model_validate_json`
  pub load_completion : List ℕ → Option BuildCompletion

-- what a callback leaves to be done in the background
pub data Task : Type 0 where
  no_task : Task
  dispatch : String → Fields → String → Task
  review_later : BuildCompletion → Task

pub data Reply : Type 0 where
  refused : ℕ → String → Reply
  -- whether it is a duplicate, its id, and what is left to do
  received : Bool → String → Task → Reply

-- the body up to a limit
unfoldable pub read_limited : ℕ → List ℕ → List (List ℕ) → Option (List ℕ)
read_limited max_bytes body [] = some body
read_limited max_bytes body (chunk ∷ chunks) =
    let rest = read_limited max_bytes (body ++ chunk) chunks in
    if leb (length (body ++ chunk)) max_bytes then rest else none

-- `hmac.compare_digest` of texts, which takes ASCII only
abbrev pub compare_digest : String → String → Result Bool
compare_digest expected s =
    if all (λ c. ltb c 128) (codes s) then ok (expected == s) else err (runtime_error "TypeError")

module _ (hmac : String → List ℕ → String) where
  unfoldable pub verify_webhook_signature : String → List ℕ → Option String → Result Bool
  verify_webhook_signature secret body none = ok false
  verify_webhook_signature secret body (some s) =
      if s == "" || not (starts_with (codes s) (codes "sha256="))
      then ok false
      else compare_digest ("sha256=" +++ hmac secret body) s

-- `_read` of a body: beyond its limit it is refused
abbrev pub with_body : String → Option (List ℕ) → (List ℕ → Action Reply) → Action Reply
with_body detail none next = pure (refused 413 detail)
with_body detail (some body) next = next body

abbrev pub if_signed : String → Action Reply → Bool → Action Reply
if_signed detail next true = next
if_signed detail next false = pure (refused 401 detail)

module _ (c : Callbacks) where
  -- the tests of the secret and of the signature
  abbrev pub signed :
      String → String → Option String → Option String → List ℕ → Action Reply → Action Reply
  signed unconfigured invalid none signature body next = pure (refused 503 unconfigured)
  signed unconfigured invalid (some secret) signature body next =
      lift (verify_webhook_signature c.hmac secret body signature) >>= if_signed invalid next

module _ (o : Outside) (c : Callbacks) where
  -- the answer for a delivery that is recorded
  abbrev pub answer_delivery : String → String → Fields → WebhookDelivery × Bool → Action Reply
  answer_delivery delivery_id event payload (delivery, false) =
      pure (received true delivery_id no_task)
  answer_delivery delivery_id event payload (delivery, true) =
      if delivery.accepted
      then pure (received false delivery_id (dispatch event payload delivery_id))
      else pure (refused 403 (or_else delivery.reason "null"))

  abbrev pub take_object : String → String → Option Fields → Action Reply
  take_object delivery_id event none = pure (refused 400 "webhook JSON must be an object")
  take_object delivery_id event (some payload) =
      process_github_webhook o delivery_id event payload
      >>= answer_delivery delivery_id event payload

  abbrev pub take_payload : String → String → Loaded → Action Reply
  take_payload delivery_id event not_json = pure (refused 400 "invalid JSON payload")
  take_payload delivery_id event not_text = raise (value_error "UnicodeDecodeError")
  take_payload delivery_id event (loaded value) =
      take_object delivery_id event (as_object (some value))

  abbrev pub take_delivery : Option String → Option String → List ℕ → Action Reply
  take_delivery (some delivery_id) (some event) body =
      take_payload delivery_id event (c.load_json body)
  take_delivery _ _ body = pure (refused 400 "missing GitHub delivery headers")

  unfoldable pub github_webhook : Callback → Action Reply
  unfolding read_limited verify_webhook_signature process_github_webhook
  github_webhook request =
      with_body "webhook payload too large" (read_limited c.max_webhook_bytes [] request.chunks)
        (λ body.
          signed c "webhook secret is not configured" "invalid webhook signature" c.webhook_secret
            request.signature body
            (take_delivery (filled request.delivery) (filled request.event) body))

  abbrev pub callback_principal : Principal
  callback_principal = record { token_id = "jenkins-callback"; scopes = Scope.operate ∷ [] }

  -- `except (NotFoundError, ValueError) as exc`
  abbrev pub or_bad_request : Error → Action Reply
  or_bad_request (not_found message) = pure (refused 400 message)
  or_bad_request (value_error message) = pure (refused 400 message)
  or_bad_request (diff_error message) = pure (refused 400 message)
  or_bad_request e = raise e

  -- the review of a native build is carried out at once, that of a pull request later
  abbrev pub review_completion : BuildCompletion → Bool → Option ℕ → Action Reply
  review_completion completion inserted (some pull_request) =
      pure (received (not inserted) completion.callback_id (review_later completion))
  review_completion completion inserted none = do
    recorded ← process_ai_review_with_retry o callback_principal completion none 3
    if recorded
        then pure (received (not inserted) completion.callback_id no_task)
        else pure (refused 503 "AI review audit recording failed; retry the completion callback")

  -- what follows `complete_build`
  abbrev pub after_completion : BuildCompletion → Result Bool → Action Reply
  after_completion completion (ok inserted) =
      review_completion completion inserted completion.result.pull_request
  after_completion completion (err e) = or_bad_request e

  unfoldable pub accept_completion : BuildCompletion → Action Reply
  unfolding complete_build process_ai_review_with_retry
  accept_completion completion w =
      let (r, w') = complete_build o callback_principal completion w in
      after_completion completion r w'

  -- `abs(seconds - timestamp) > max_age`
  abbrev pub is_expired : ℕ → BuildCompletion → Bool
  is_expired seconds completion =
      ltb c.max_age_seconds ((seconds - completion.timestamp) + (completion.timestamp - seconds))

  abbrev pub take_completion : ℕ → Option BuildCompletion → Action Reply
  take_completion seconds none = pure (refused 422 "invalid completion payload")
  take_completion seconds (some completion) =
      if is_expired seconds completion
      then pure (refused 401 "expired completion payload")
      else accept_completion completion

  -- at the second given
  unfoldable pub build_completion : ℕ → Callback → Action Reply
  unfolding read_limited verify_webhook_signature accept_completion
  build_completion seconds request =
      with_body "completion payload too large" (read_limited c.max_webhook_bytes [] request.chunks)
        (λ body.
          signed c "completion secret is not configured" "invalid completion signature"
            c.callback_secret request.signature body
            (take_completion seconds (c.load_completion body)))

  -- `payload.get("repository")` with its name, or `unknown`
  abbrev pub name_of : Option Fields → String
  name_of none = "unknown"
  name_of (some repository) = or_else (as_string (get "full_name" repository)) "unknown"

  -- the background tasks
  unfoldable pub run_task : Task → Action Unit
  unfolding record_background_failure dispatch_github_webhook process_ai_review_with_retry get
      as_object as_string
  run_task no_task = pure tt
  run_task (dispatch event payload delivery_id) =
      try_catch (dispatch_github_webhook o event payload) (λ e.
        record_background_failure o github_principal "github_webhook_dispatch" delivery_id e
          (λ fields.
            field "event" (str event)
              (field "repository" (str (name_of (as_object (get "repository" payload)))) fields)))
  run_task (review_later completion) =
      process_ai_review_with_retry o callback_principal completion none 3 >>= λ _. pure tt
