-- ===== src/Clients/GitHub.antt =====
-- clients.py: `GitHubClient`. Its headers are left out, but for what a diff is asked for with.
pub mod Diff
pub mod Paths
pub mod Posts
use jenkins_service.Prelude.{
  ℕ, zero, suc, ◌+◌, String, ◌+++◌, Bool, true, false, not, ◌&&◌, ◌||◌, Option, none, some, List,
  [], ◌∷◌, ◌++◌, ◌==◌, codes, string_take, between, all, any, length, nat_eq, same_lower,
  if◌then◌else◌,
}
use jenkins_service.Exec.{
  Exec, Error, Result, ok, err, transport, runtime_error, key_error, value_error, upstream, pure,
  raise, lift, ensure, try_catch, ◌>>=◌, ◌>>◌,
}
use jenkins_service.Model.Json.{
  Json, null, bool, num, neg, real, str, arr, obj, Items, nil, cons, Fields, field, end, get,
  as_object, as_string,
}
use jenkins_service.Clients.Http.{
  Body, no_body, json, Request, Response, Event, Network, Remote, request, raise_for_status,
  json_of, or_upstream, or_upstream_value, read_bounded, check_declared,
}
use jenkins_service.Service.World.{StatusCall, Comment}

pub record GitHubClient : Type 0 where
  pub api_url : String

-- `re.fullmatch(r"[a-fA-F0-9]{40}", text)`
abbrev pub is_hex : ℕ → Bool
is_hex c = between b'a' b'f' c || between b'A' b'F' c || between b'0' b'9' c

unfoldable pub is_sha : String → Bool
is_sha s = nat_eq (length (codes s)) 40 && all is_hex (codes s)

-- `except (httpx.HTTPError, KeyError, TypeError, ValueError)`
abbrev pub or_unavailable : {A : Type 0} → String → Error → Remote A
or_unavailable message (transport m) = raise (upstream message)
or_unavailable message (key_error m) = raise (upstream message)
or_unavailable message (runtime_error m) = raise (upstream message)
or_unavailable message (value_error m) = raise (upstream message)
or_unavailable message e = raise e

-- `value[key]` of JSON: a `KeyError` or, where it is no object, a `TypeError`
unfoldable pub at : String → Json → Result Json
unfolding as_object get
at key value = elim (as_object (some value)) [
  | none ↦ err (runtime_error "TypeError")
  | some fields ↦ elim (get key fields) [ none ↦ err (key_error key) | some v ↦ ok v ]
]

-- `isinstance(target, int) and target >= 1`, with its text in a path; `True` is an `int`
abbrev pub positive_text : (ℕ → String) → Option Json → Option String
positive_text decimal (some (num (suc n))) = some (decimal (suc n))
positive_text decimal (some (bool true)) = some "True"
positive_text decimal _ = none

-- `isinstance(target, str) and re.fullmatch(..., target)`
abbrev pub sha_text : Option Json → Option String
sha_text (some (str s)) = if is_sha s then some s else none
sha_text _ = none

-- the path of an action
unfoldable pub action_path : (ℕ → String) → String → String → Fields → Result String
unfolding get is_sha
action_path decimal repository action payload =
    if action == "review_comment"
    then (elim (positive_text decimal (get "pull_number" payload)) [
      | none ↦ err (value_error "review_comment requires a positive pull_number")
      | some target ↦ ok ("/repos/" +++ (repository +++ ("/pulls/" +++ (target +++ "/comments"))))
    ])
    else if action == "issue_comment"
    then (elim (positive_text decimal (get "issue_number" payload)) [
      | none ↦ err (value_error "issue_comment requires a positive issue_number")
      | some target ↦ ok ("/repos/" +++ (repository +++ ("/issues/" +++ (target +++ "/comments"))))
    ])
    else if action == "check_run"
    then ok ("/repos/" +++ (repository +++ "/check-runs"))
    else (elim (sha_text (get "sha" payload)) [
      | none ↦ err (value_error "status requires a 40-character commit SHA")
      | some target ↦ ok ("/repos/" +++ (repository +++ ("/statuses/" +++ target)))
    ])

abbrev pub allowed_actions : List String
allowed_actions = "review_comment" ∷ "issue_comment" ∷ "check_run" ∷ "status" ∷ []

-- `action in actions`
abbrev pub is_among : String → List String → Bool
is_among action actions = any (λ a. a == action) actions

abbrev pub comment_items : List Comment → Items
comment_items [] = nil
comment_items (c ∷ comments) =
    cons
      (obj (
        field "path" (str c.path)
          (field "line" (num c.line) (field "side" (str c.side) (field "body" (str c.body) end)))))
      (comment_items comments)

-- `if target_url: body["target_url"] = target_url`
abbrev pub with_target : Option String → Fields → Fields
with_target none fields = fields
with_target (some url) fields = if url == "" then fields else field "target_url" (str url) fields

-- `payload["base"]["sha"], payload["head"]["sha"]`
abbrev pub identity_of : Json → Result (Json × Json)
identity_of payload = elim (at "base" payload) [
  | err e ↦ err e
  | ok base ↦ elim (at "sha" base) [
    | err e ↦ err e
    | ok base_sha ↦ elim (at "head" payload) [
      | err e ↦ err e
      | ok head ↦ elim (at "sha" head) [ err e ↦ err e | ok head_sha ↦ ok (base_sha, head_sha) ]
    ]
  ]
]

-- two texts that are the commits expected, in any case
abbrev pub is_identity : String → String → Json × Json → Bool
is_identity base_sha head_sha (str base, str head) =
    same_lower base base_sha && same_lower head head_sha
is_identity base_sha head_sha _ = false

abbrev pub diff_limit : String
diff_limit = "GitHub pull request diff exceeds configured byte limit"

-- the body of a status
abbrev pub status_json : StatusCall → Json
status_json call = obj (
    field "state" (str call.state) (
      field "context" (str call.context) (
        field "description" (str (string_take 140 call.description))
          (with_target call.target_url end))))

module _ (net : Network) (github : GitHubClient) where
  abbrev pub post_json : String → Json → Request
  post_json path value = record {
    method = "POST";
    url = github.api_url +++ path;
    params = [];
    headers = [];
    body = json value;
  }

  -- a request that is posted, whose error status raises an `UpstreamError`; the error of the
  -- request itself is not caught
  unfoldable pub publish : String → Json → String → Remote Json
  unfolding request raise_for_status json_of
  publish path value message = do
    response ← request net (post_json path value)
    try_catch (raise_for_status response) (or_upstream message)
    json_of net response

  unfoldable pub set_status : StatusCall → Remote Json
  unfolding publish
  set_status call = do
    ensure (is_among call.state ("pending" ∷ "success" ∷ "failure" ∷ "error" ∷ []))
        (value_error ("unsupported GitHub status state: " +++ call.state))
    publish ("/repos/" +++ (call.repository +++ ("/statuses/" +++ call.sha))) (status_json call)
        ("GitHub status publication failed: " +++ call.context)

  unfoldable pub create_review : String → ℕ → String → String → List Comment → Remote Json
  unfolding publish
  create_review repository zero commit_sha body comments =
      raise (value_error "pull_number must be positive")
  create_review repository (suc n) commit_sha body comments =
      publish ("/repos/" +++ (repository +++ ("/pulls/" +++ (net.decimal (suc n) +++ "/reviews"))))
        (obj (
          field "commit_id" (str commit_sha) (
            field "event" (str "COMMENT")
              (field "body" (str body) (field "comments" (arr (comment_items comments)) end)))))
        "GitHub batched review publication failed"

  abbrev pub pull_path : String → ℕ → String
  pull_path repository pull_number =
      "/repos/" +++ (repository +++ ("/pulls/" +++ net.decimal pull_number))

  abbrev pub pull_request : String → ℕ → List (String × String) → Request
  pull_request repository pull_number headers = record {
    method = "GET";
    url = github.api_url +++ pull_path repository pull_number;
    params = [];
    headers = headers;
    body = no_body;
  }

  -- `verify_identity`
  unfoldable pub verify_identity : String → ℕ → String → String → Remote Unit
  unfolding request raise_for_status json_of at
  verify_identity repository pull_number base_sha head_sha = do
    response ← request net (pull_request repository pull_number [])
    actual ←
        try_catch
          (do raise_for_status response; payload ← json_of net response; lift (identity_of payload))
          (or_unavailable "GitHub pull request identity is unavailable")
    ensure (is_identity base_sha head_sha actual)
        (upstream "GitHub pull request changed while preparing its review")

  -- the bytes of the diff; `except UpstreamError: raise` leaves that error as it is
  unfoldable pub read_diff : String → ℕ → ℕ → Remote (List ℕ)
  unfolding request raise_for_status check_declared read_bounded
  read_diff repository pull_number max_bytes =
      try_catch
        (do
          response ←
              request net (
                pull_request repository pull_number
                  (("Accept", "application/vnd.github.diff") ∷ []))
          raise_for_status response
          check_declared net diff_limit max_bytes response
          read_bounded diff_limit max_bytes [] response.chunks)
        (or_upstream_value "GitHub pull request diff is unavailable")

  unfoldable pub pull_request_diff : String → ℕ → String → String → ℕ → Remote String
  unfolding verify_identity read_diff
  pull_request_diff repository pull_number base_sha head_sha max_bytes = do
    ensure (not (nat_eq pull_number 0)) (value_error "pull_number must be positive")
    ensure (not (nat_eq max_bytes 0)) (value_error "max_bytes must be positive")
    verify_identity repository pull_number base_sha head_sha
    content ← read_diff repository pull_number max_bytes
    verify_identity repository pull_number base_sha head_sha
    elim (net.decode content) [
      | none ↦ raise (upstream "GitHub pull request diff is not UTF-8")
      | some diff ↦ pure diff
    ]

  -- a value that a `ValueError` asks for
  abbrev pub required : String → Option Fields → Result Fields
  required message none = err (value_error message)
  required message (some fields) = ok fields

  unfoldable pub execute_action : String → String → Fields → List String → Remote Json
  unfolding publish action_path get as_object
  execute_action repository action payload allowed = do
    ensure (is_among action allowed_actions && is_among action allowed)
        (value_error ("GitHub action is not allowed: " +++ action))
    path ← lift (action_path net.decimal repository action payload)
    body ← lift (required (action +++ " requires an object body") (as_object (get "body" payload)))
    publish path (obj body) ("GitHub action failed: " +++ action)
