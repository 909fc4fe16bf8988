-- ===== src/Webhook/Triggers.antt =====
-- webhook.py: what `dispatch_github_webhook` triggers.
use jenkins_service.Prelude.{
  ℕ, zero, suc, String, ◌≡◌, refl, ◌⊎◌, inl, inr, Bool, true, false, Option, none, some, ◌==◌,
  eq_iff, find_first, find_first_sound, lower, codes, Bool-cases, Option-cases, same_lower_iff,
  arith,
}
use mathlib.Core.List.{Mem}
use mathlib.Core.List.Perm
use jenkins_service.Exec.{Result, ok, err, ◌>>=◌, pure, lift}
use jenkins_service.Dict.{values}
use jenkins_service.Sorting.{sort_by-perm}
use jenkins_service.Model.Json.{Json, Fields, get, as_object, as_string, as_natural}
use jenkins_service.Model.Branch.{validate_branch_name, matches_branch, is_unsafe_branch}
use jenkins_service.Model.Repository.{Repository, full_name}
use jenkins_service.Model.Requests.{TriggerRequest}
use jenkins_service.Clients.GitHub.{is_sha}
use jenkins_service.Store
use jenkins_service.Store.{Store, by_name}
use jenkins_service.Service.World.{Outside, World}
use jenkins_service.Service.Trigger.{trigger_pipeline}
use jenkins_service.Service.Trigger.Reuse.{find_first_mem}
use jenkins_service.Webhook.{
  repository_full_name, checked_sha, commit_sha, checked_branch, branch_name, without_prefix,
  branch_of_ref, push_branch, zero_sha, push_request, pull_request_of, sides_request,
  pull_request_trigger, is_reviewed_action, request_of, is_dispatched, github_principal,
  trigger_for, dispatch_github_webhook,
}

-- a predicate of the value, where there is one
abbrev pub Given {ℓ} : {A : Type 0} → (A → Type ℓ) → Option A → Type ℓ
Given P none = Unit
Given P (some a) = P a

abbrev pub IsSha : String → Type 0
IsSha s = is_sha s ≡ true

abbrev pub IsBranch : String → Type 0
IsBranch s = validate_branch_name s ≡ ok s

-- a request for the head of a pushed branch
pub record IsPush (request : TriggerRequest) : Type 0 where
  pub is_present : (request.commit_sha == zero_sha) ≡ false
  pub no_base : request.base_sha ≡ none
  pub no_pull_request : request.pull_request ≡ none

-- a request for a pull request with a base
pub record IsPullRequest (request : TriggerRequest) : Type 0 where
  pub base : String
  pub has_base : request.base_sha ≡ some base
  pub is_base : IsSha base
  pub number : ℕ
  pub has_number : request.pull_request ≡ some (suc number)

pub record IsRequest (repository_id event : String) (request : TriggerRequest) : Type 0 where
  pub repository : request.repository_id ≡ repository_id
  pub commit : IsSha request.commit_sha
  pub branch : String
  pub has_branch : request.branch ≡ some branch
  pub is_branch : IsBranch branch
  pub kind :
      ((event ≡ "push") × IsPush request) ⊎ ((event ≡ "pull_request") × IsPullRequest request)

checked_sha-IsSha : (value : Option String) → Given IsSha (checked_sha value)
checked_sha-IsSha none = tt
checked_sha-IsSha (some s) = elim (Bool-cases (is_sha s)) [
  | inl sha ↦ rw sha sha
  | inr other ↦ rw other tt
]

commit_sha-IsSha : (value : Option Json) → Given IsSha (commit_sha value)
unfolding commit_sha
commit_sha-IsSha value = checked_sha-IsSha (as_string value)

checked_branch-IsBranch : (value : Option String) → Given IsBranch (checked_branch value)
unfolding validate_branch_name
checked_branch-IsBranch none = tt
checked_branch-IsBranch (some s) = elim (Bool-cases (matches_branch (codes s))) [
  | inr other ↦ rw other tt
  | inl matched ↦ elim (Bool-cases (is_unsafe_branch (codes s))) [
    | inl unsafe ↦ rw (matched, unsafe) tt
    | inr safe ↦ rw (matched, safe) (rw (matched, safe) refl)
  ]
]

branch_name-IsBranch : (value : Option Json) → Given IsBranch (branch_name value)
unfolding branch_name
branch_name-IsBranch value = checked_branch-IsBranch (as_string value)

branch_of_ref-IsBranch : (ref : Option String) → Given IsBranch (branch_of_ref ref)
branch_of_ref-IsBranch none = tt
branch_of_ref-IsBranch (some ref) = checked_branch-IsBranch (without_prefix "refs/heads/" ref)

push_branch-IsBranch : (value : Option Json) → Given IsBranch (push_branch value)
unfolding push_branch
push_branch-IsBranch value = branch_of_ref-IsBranch (as_string value)

push_request-IsRequest :
    (repository_id : String) (sha branch : Option String)
    → Given IsSha sha
    → Given IsBranch branch
    → Given (IsRequest repository_id "push") (push_request repository_id sha branch)
push_request-IsRequest repository_id none branch hs hb = tt
push_request-IsRequest repository_id (some s) none hs hb = tt
push_request-IsRequest repository_id (some s) (some b) hs hb = elim (Bool-cases (s == zero_sha)) [
  | inl absent ↦ rw absent tt
  | inr present ↦ rw present (record {
    repository = refl;
    commit = hs;
    branch = b;
    has_branch = refl;
    is_branch = hb;
    kind = inl (refl, record { is_present = present; no_base = refl; no_pull_request = refl });
  })
]

pull_request_of-IsRequest :
    (repository_id : String) (sha base branch : Option String) (number : Option ℕ)
    → Given IsSha sha
    → Given IsSha base
    → Given IsBranch branch
    → Given
        (IsRequest repository_id "pull_request")
        (pull_request_of repository_id sha base branch number)
pull_request_of-IsRequest repository_id (some s) (some b) (some r) (some (suc n)) hs hb hr =
    record {
      repository = refl;
      commit = hs;
      branch = r;
      has_branch = refl;
      is_branch = hr;
      kind =
          inr (
            refl,
            record { base = b; has_base = refl; is_base = hb; number = n; has_number = refl },
          );
    }
pull_request_of-IsRequest repository_id none base branch number hs hb hr = tt
pull_request_of-IsRequest repository_id (some s) none branch number hs hb hr = tt
pull_request_of-IsRequest repository_id (some s) (some b) none number hs hb hr = tt
pull_request_of-IsRequest repository_id (some s) (some b) (some r) none hs hb hr = tt
pull_request_of-IsRequest repository_id (some s) (some b) (some r) (some zero) hs hb hr = tt

sides_request-IsRequest :
    (repository_id : String) (value : Fields) (head base : Option Fields)
    → Given (IsRequest repository_id "pull_request") (sides_request repository_id value head base)
sides_request-IsRequest repository_id value none base = tt
sides_request-IsRequest repository_id value (some head) none = tt
sides_request-IsRequest repository_id value (some head) (some base) =
    pull_request_of-IsRequest repository_id (commit_sha (get "sha" head))
      (commit_sha (get "sha" base)) (branch_name (get "ref" head)) (as_natural (get "number" value))
      (commit_sha-IsSha (get "sha" head)) (commit_sha-IsSha (get "sha" base))
      (branch_name-IsBranch (get "ref" head))

pull_request_trigger-IsRequest :
    (repository_id : String) (value : Option Fields)
    → Given (IsRequest repository_id "pull_request") (pull_request_trigger repository_id value)
pull_request_trigger-IsRequest repository_id none = tt
pull_request_trigger-IsRequest repository_id (some value) =
    sides_request-IsRequest repository_id value (as_object (get "head" value))
      (as_object (get "base" value))

-- what is triggered, where the payload can be read
abbrev pub Requests : String → String → Result (Option TriggerRequest) → Type 0
Requests repository_id event (err e) = Unit
Requests repository_id event (ok request) = Given (IsRequest repository_id event) request

request_of-Requests :
    (repository_id event : String) (payload : Fields)
    → Requests repository_id event (request_of repository_id event payload)
unfolding request_of
request_of-Requests repository_id event payload = elim (Bool-cases (event == "push")) [
  | inl push ↦
      rw (push, (eq_iff event "push").0 push)
        (push_request-IsRequest repository_id (commit_sha (get "after" payload))
          (push_branch (get "ref" payload)) (commit_sha-IsSha (get "after" payload))
          (push_branch-IsBranch (get "ref" payload)))
  | inr other ↦ elim (Bool-cases (event == "pull_request")) [
    | inr neither ↦ rw (other, neither) tt
    | inl pull_request ↦
        rw (other, pull_request, (eq_iff event "pull_request").0 pull_request)
          (reviewed (is_reviewed_action (get "action" payload)))
  ]
]
  where
    reviewed :
        (r : Result Bool)
        → Requests repository_id "pull_request" (elim r [
          | err e ↦ err e
          | ok false ↦ ok none
          | ok true ↦
              ok (pull_request_trigger repository_id (as_object (get "pull_request" payload)))
        ])
    reviewed (err e) = tt
    reviewed (ok false) = tt
    reviewed (ok true) =
        pull_request_trigger-IsRequest repository_id (as_object (get "pull_request" payload))

module _ (o : Outside) where
  -- a trigger on behalf of GitHub, for a registered and enabled repository of the payload's name
  pub record IsDispatched (event : String) (payload : Fields) (w : World) : Type 0 where
    pub name : String
    pub named : repository_full_name payload ≡ some name
    pub repository : Repository
    pub registered : Mem repository (values w.store.repositories)
    pub same_name : lower (full_name repository) ≡ lower name
    pub enabled : repository.enabled ≡ true
    pub request : TriggerRequest
    pub is_request : IsRequest repository.id event request
    pub triggered :
        dispatch_github_webhook o event payload w
        ≡ (trigger_pipeline o github_principal request >>= λ _. pure tt) w

  module _ (event : String) (payload : Fields) (w : World) (name : String)
      (named : repository_full_name payload ≡ some name) (repository : Repository)
      (found : find_first (is_dispatched name) (Store.list_repositories w.store)
        ≡ some repository) where
    dispatched :
        (r : Result (Option TriggerRequest))
        → Requests repository.id event r
        → dispatch_github_webhook o event payload w ≡ (lift r >>= trigger_for o) w
        → ((dispatch_github_webhook o event payload w).1 ≡ w) ⊎ IsDispatched event payload w
    unfolding Store.list_repositories
    dispatched (err e) h same = inl (rw same refl)
    dispatched (ok none) h same = inl (rw same refl)
    dispatched (ok (some request)) h same =
        let passes =
          find_first_sound (is_dispatched name) (Store.list_repositories w.store) found in
        inr (record {
          name = name;
          named = named;
          repository = repository;
          registered =
              (Perm.mem_iff (sort_by-perm by_name (values w.store.repositories))).0
                (find_first_mem (is_dispatched name) (Store.list_repositories w.store) found);
          same_name = (same_lower_iff (full_name repository) name).0 (ground (arith, passes));
          enabled = ground (arith, passes);
          request = request;
          is_request = h;
          triggered = same;
        })

  -- A delivery that is dispatched either changes nothing and calls nobody, or it triggers one
  -- pipeline, of a registered and enabled repository that has the payload's name up to case: for a
  -- push of a commit to a branch with an accepted name, or for a pull request with its base.
  pub dispatch_github_webhook-IsDispatched :
      (event : String) (payload : Fields) (w : World)
      → ((dispatch_github_webhook o event payload w).1 ≡ w) ⊎ IsDispatched event payload w
  unfolding dispatch_github_webhook Store.list_repositories
  dispatch_github_webhook-IsDispatched event payload w =
      elim (Option-cases (repository_full_name payload)) [
        | inl unnamed ↦ inl (rw unnamed refl)
        | inr (name, named) ↦
            elim (Option-cases
              (find_first (is_dispatched name) (Store.list_repositories w.store))) [
                | inl unknown ↦ inl (rw (named, unknown) refl)
                | inr (repository, found) ↦
                    dispatched event payload w name named repository found
                      (request_of repository.id event payload)
                      (request_of-Requests repository.id event payload) (rw (named, found) refl)
              ]
      ]
