-- ===== src/Webhook.antt =====
-- webhook.py: what a GitHub delivery is recorded as, and what it triggers.
pub mod Triggers
use jenkins_service.Prelude.{
  ℕ, zero, suc, String, ◌+++◌, Bool, true, false, not, ◌&&◌, Option, none, some, List, [], ◌∷◌,
  ◌==◌, find_first, is_some, nat_eq, same_lower, if◌then◌else◌,
}
use Prim.Native.Char.{code}
use jenkins_service.Exec.{Exec, Result, ok, err, runtime_error, pure, raise, lift, ◌>>=◌, ◌>>◌}
use jenkins_service.Model.Json.{Json, str, arr, obj, Fields, get, as_object, as_string, as_natural}
use jenkins_service.Model.Scope.{Scope, Principal}
use jenkins_service.Model.Branch.{validate_branch_name}
use jenkins_service.Model.Repository.{Repository, full_name, or_else}
use jenkins_service.Model.Audit.{WebhookDelivery}
use jenkins_service.Model.Requests.{TriggerRequest}
use jenkins_service.Clients.GitHub.{is_sha}
use jenkins_service.Store
use jenkins_service.Service.World.{Outside, World, Action, on_store, query, now}
use jenkins_service.Service.Repositories.{repository_allowed}
use jenkins_service.Service.Trigger.{trigger_pipeline}

-- `value if isinstance(value, str) and value else None`
abbrev pub filled : Option String → Option String
filled none = none
filled (some s) = if s == "" then none else some s

-- `payload.get("repository")` where it is an object, and its name
unfoldable pub repository_full_name : Fields → Option String
unfolding get as_object as_string
repository_full_name payload = elim (as_object (get "repository" payload)) [
  | none ↦ none
  | some repository ↦ filled (as_string (get "full_name" repository))
]

-- a text that is a commit
abbrev pub checked_sha : Option String → Option String
checked_sha none = none
checked_sha (some s) = if is_sha s then some s else none

unfoldable pub commit_sha : Option Json → Option String
unfolding as_string
commit_sha value = checked_sha (as_string value)

-- a branch name that is accepted
abbrev pub accepted_branch : Result String → Option String
accepted_branch (ok branch) = some branch
accepted_branch (err e) = none

abbrev pub checked_branch : Option String → Option String
checked_branch none = none
checked_branch (some s) = accepted_branch (validate_branch_name s)

unfoldable pub branch_name : Option Json → Option String
unfolding as_string
branch_name value = checked_branch (as_string value)

-- `s.removeprefix(prefix)` of a text that starts with it
unfoldable pub without_prefix : String → String → Option String
without_prefix String.[] s = some s
without_prefix (String.◌∷◌ c p) String.[] = none
without_prefix (String.◌∷◌ c p) (String.◌∷◌ d s) =
    if nat_eq (code c) (code d) then without_prefix p s else none

abbrev pub branch_of_ref : Option String → Option String
branch_of_ref none = none
branch_of_ref (some ref) = checked_branch (without_prefix "refs/heads/" ref)

unfoldable pub push_branch : Option Json → Option String
unfolding as_string without_prefix
push_branch value = branch_of_ref (as_string value)

abbrev pub zero_sha : String
zero_sha = "0000000000000000000000000000000000000000"

-- what is triggered for a push, of its commit and branch
abbrev pub push_request : String → Option String → Option String → Option TriggerRequest
push_request repository_id (some sha) (some branch) =
    if sha == zero_sha
    then none
    else some (record {
      repository_id = repository_id;
      commit_sha = sha;
      base_sha = none;
      branch = some branch;
      pull_request = none;
    })
push_request repository_id _ _ = none

-- what is triggered for a pull request, of its head, base, branch and number
abbrev pub pull_request_of :
    String → Option String → Option String → Option String → Option ℕ → Option TriggerRequest
pull_request_of repository_id (some sha) (some base) (some branch) (some (suc n)) = some (record {
  repository_id = repository_id;
  commit_sha = sha;
  base_sha = some base;
  branch = some branch;
  pull_request = some (suc n);
})
pull_request_of repository_id _ _ _ _ = none

-- its head and base, where they are objects
abbrev pub sides_request : String → Fields → Option Fields → Option Fields → Option TriggerRequest
sides_request repository_id value (some head) (some base) =
    pull_request_of repository_id (commit_sha (get "sha" head)) (commit_sha (get "sha" base))
      (branch_name (get "ref" head)) (as_natural (get "number" value))
sides_request repository_id value _ _ = none

abbrev pub pull_request_trigger : String → Option Fields → Option TriggerRequest
pull_request_trigger repository_id none = none
pull_request_trigger repository_id (some value) =
    sides_request repository_id value (as_object (get "head" value)) (as_object (get "base" value))

-- `payload.get("action") in {...}`: a list or an object has no hash
abbrev pub is_reviewed_action : Option Json → Result Bool
is_reviewed_action (some (arr items)) = err (runtime_error "TypeError")
is_reviewed_action (some (obj fields)) = err (runtime_error "TypeError")
is_reviewed_action (some (str action)) = ok (
    is_some (
      find_first (λ a. a == action)
        ("opened" ∷ "reopened" ∷ "synchronize" ∷ "ready_for_review" ∷ [])))
is_reviewed_action _ = ok false

-- what an event of a registered repository triggers
unfoldable pub request_of : String → String → Fields → Result (Option TriggerRequest)
unfolding commit_sha push_branch branch_name get as_object as_natural
request_of repository_id event payload =
    if event == "push"
    then ok (
        push_request repository_id (commit_sha (get "after" payload))
          (push_branch (get "ref" payload)))
    else if event == "pull_request"
    then (elim (is_reviewed_action (get "action" payload)) [
      | err e ↦ err e
      | ok false ↦ ok none
      | ok true ↦ ok (pull_request_trigger repository_id (as_object (get "pull_request" payload)))
    ])
    else ok none

-- `item.full_name.lower() == full_name.lower() and item.enabled`
abbrev pub is_dispatched : String → Repository → Bool
is_dispatched name item = same_lower (full_name item) name && item.enabled

abbrev pub github_principal : Principal
github_principal = record { token_id = "github-webhook"; scopes = Scope.operate ∷ [] }

module _ (o : Outside) where
  abbrev pub reason_of : Option String → Bool → Option String
  reason_of name true = none
  reason_of none false = some "malformed repository metadata"
  reason_of (some name) false = some "repository outside configured allowlist"

  abbrev pub is_allowed : Option String → Bool
  is_allowed none = false
  is_allowed (some name) = repository_allowed o name

  unfoldable pub process_github_webhook : String → String → Fields → Action (WebhookDelivery × Bool)
  unfolding repository_full_name Store.record_webhook_once
  process_github_webhook delivery_id event payload = do
    let name = repository_full_name payload
    received ← now o
    let delivery : WebhookDelivery = record {
      delivery_id = delivery_id;
      event = event;
      repository = or_else name "unknown";
      accepted = is_allowed name;
      reason = reason_of name (is_allowed name);
      received_at = received;
    }
    inserted ← on_store (Store.record_webhook_once delivery)
    pure (delivery, inserted)

  -- the trigger, if there is one
  abbrev pub trigger_for : Option TriggerRequest → Action Unit
  trigger_for none = pure tt
  trigger_for (some request) = trigger_pipeline o github_principal request >>= λ _. pure tt

  abbrev pub dispatch_to : String → Fields → Option Repository → Action Unit
  dispatch_to event payload none = pure tt
  dispatch_to event payload (some repository) =
      lift (request_of repository.id event payload) >>= trigger_for

  abbrev pub dispatch_named : String → Fields → Option String → Action Unit
  dispatch_named event payload none = pure tt
  dispatch_named event payload (some name) =
      query (λ s. find_first (is_dispatched name) (Store.list_repositories s))
      >>= dispatch_to event payload

  unfoldable pub dispatch_github_webhook : String → Fields → Action Unit
  unfolding repository_full_name request_of
  dispatch_github_webhook event payload =
      dispatch_named event payload (repository_full_name payload)
