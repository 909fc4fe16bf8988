-- ===== src/Tests/App.antt =====
-- app.py and webhook.py: the middleware, the callbacks and the dispatch on small requests.
use jenkins_service.Prelude.{
  String, ◌≡◌, refl, ◌⊎◌, true, false, none, some, List, [], ◌∷◌, lower, to_lower, same_lower,
  split,
}
use jenkins_service.Exec.{ok}
use jenkins_service.Dict.{lookup, insert}
use jenkins_service.Model.Json.{str, obj, Fields, field, end, get, as_object, as_string}
use jenkins_service.Model.Scope.{Scope}
use jenkins_service.Model.Repository.{Repository}
use jenkins_service.Model.Branch.{
  validate_branch_name, matches_branch, is_unsafe_branch, is_branch_char,
}
use jenkins_service.Service.World.{World}
use jenkins_service.Clients.GitHub.{is_sha}
use jenkins_service.Security.Limiter.{SlidingWindowLimiter, allow, bucket, expire}
use jenkins_service.Security.Tokens.{Entry, authenticate, last_match}
use jenkins_service.App.Gate.{
  Incoming, Settings, admitted, security_middleware, is_foreign, is_exempt, bearer_token,
  partition_space, Means, security_middleware-Means,
}
use jenkins_service.App.Callbacks.{
  Callback, Callbacks, loaded, received, dispatch, github_webhook, read_limited,
  verify_webhook_signature,
}
use jenkins_service.App.Callbacks.Signed.{IsRefused, IsDelivered, github_webhook-IsDelivered}
use jenkins_service.Webhook.{
  dispatch_github_webhook, repository_full_name, request_of, push_branch, commit_sha,
  without_prefix, process_github_webhook,
}
use jenkins_service.Webhook.Triggers.{IsDispatched, dispatch_github_webhook-IsDispatched}
use jenkins_service.Service.Repositories.{repository_allowed}
use jenkins_service.Fixtures.{outside, world, sha, completion, store}

abbrev settings : Settings
settings = record { allowed_origins = []; require_https = true; trust_proxy_headers = true }

abbrev entries : List Entry
entries = record { token_id = "t1"; scopes = Scope.operate ∷ []; digest = "secret" } ∷ []

abbrev limiter : SlidingWindowLimiter
limiter = record { limit = 1; window = 60; requests = [] }

abbrev incoming : Incoming
incoming = record {
  path = "/api/v1/builds";
  scheme = "http";
  origin = none;
  forwarded_proto = some "https";
  authorization = some "Bearer secret";
}

security_middleware-Means_example :
    Means
      (λ token. token)
      settings
      (some entries)
      incoming
      5
      limiter
      (security_middleware (λ token. token) settings (some entries) incoming 5 limiter)
security_middleware-Means_example =
    security_middleware-Means (λ token. token) settings (some entries) incoming 5 limiter

-- The request goes on as the principal of its token, and counts.
request_goes_on :
    security_middleware (λ token. token) settings (some entries) incoming 5 limiter ≡ (
      admitted (some (record { token_id = "t1"; scopes = Scope.operate ∷ [] })),
      record limiter { requests = ("t1", 5 ∷ []) ∷ [] },
    )
unfolding security_middleware is_foreign is_exempt bearer_token partition_space authenticate
    last_match allow bucket expire lookup insert same_lower lower to_lower
request_goes_on = refl

abbrev push : Fields
push =
    field "repository" (obj (field "full_name" (str "example/project") end))
      (field "after" (str sha) (field "ref" (str "refs/heads/main") end))

abbrev callbacks : Callbacks
callbacks = record {
  max_webhook_bytes = 3;
  webhook_secret = some "hook";
  callback_secret = some "call";
  max_age_seconds = 300;
  hmac = λ secret body. secret;
  load_json = λ body. loaded (obj push);
  load_completion = λ body. some completion;
}

abbrev signed_by : String → Callback
signed_by signature = record {
  chunks = (1 ∷ 2 ∷ []) ∷ (3 ∷ []) ∷ [];
  signature = some signature;
  delivery = some "d1";
  event = some "push";
}

github_webhook-IsDelivered_example :
    IsRefused outside callbacks
      (signed_by "sha256=hook")
      world
      (github_webhook outside callbacks (signed_by "sha256=hook") world)
    ⊎ IsDelivered outside callbacks (signed_by "sha256=hook") world
github_webhook-IsDelivered_example =
    github_webhook-IsDelivered outside callbacks (signed_by "sha256=hook") world

-- A signed delivery of an allowed repository is left to be dispatched.
delivery_is_taken :
    (github_webhook outside callbacks (signed_by "sha256=hook") world).0
    ≡ ok (received false "d1" (dispatch "push" push "d1"))
unfolding github_webhook read_limited verify_webhook_signature process_github_webhook
    repository_full_name repository_allowed get as_object as_string lookup lower to_lower
delivery_is_taken = refl

abbrev registered : Repository
registered = record {
  owner = "Example";
  name = "Project";
  default_branch = "main";
  enabled = true;
  id = "r1";
  created_at = 1;
  updated_at = 1;
}

abbrev registry : World
registry = record world { store = record store { repositories = ("r1", registered) ∷ [] } }

dispatch_github_webhook-IsDispatched_example :
    ((dispatch_github_webhook outside "push" push registry).1 ≡ registry)
    ⊎ IsDispatched outside "push" push registry
dispatch_github_webhook-IsDispatched_example =
    dispatch_github_webhook-IsDispatched outside "push" push registry

-- The push is a request for its commit on its branch.
push_is_read :
    request_of "r1" "push" push
    ≡ ok (
        some (record {
          repository_id = "r1";
          commit_sha = sha;
          base_sha = none;
          branch = some "main";
          pull_request = none;
        }))
unfolding request_of commit_sha push_branch without_prefix is_sha validate_branch_name
    matches_branch is_unsafe_branch is_branch_char get as_string split
push_is_read = refl
