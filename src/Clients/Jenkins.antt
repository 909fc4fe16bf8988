-- ===== src/Clients/Jenkins.antt =====
-- clients.py: `JenkinsClient`, its items and requests.
pub mod Folder
pub mod Quoting
pub mod Operations
use jenkins_service.Prelude.{
  ℕ, zero, suc, ◌+◌, ◌*◌, ◌^◌, String, ◌+++◌, Bool, true, false, not, Option, none, some, List, [],
  ◌∷◌, ◌++◌, ◌==◌, map, codes, split, nat_eq, ltb, length, if◌then◌else◌,
}
use jenkins_service.Exec.{
  Exec, lift, Error, Result, ok, err, upstream, value_error, key_error, runtime_error, pure, raise,
  try_catch, ◌>>=◌, ◌>>◌,
}
use jenkins_service.Model.Json.{Json, str, obj, get, as_object, as_string, Fields}
use jenkins_service.Clients.Http.{
  Body, no_body, text, Request, Response, Event, Network, Remote, request, wait, raise_for_status,
  json_of, is_success, body_of, or_upstream,
}

pub record JenkinsClient : Type 0 where
  pub base_url : String
  pub github_web_url : String
  pub reconcile_delay : ℕ

-- `_reconcile_pause`
unfoldable pub reconcile_pause : JenkinsClient → ℕ → Remote Unit
unfolding wait
reconcile_pause jenkins attempt =
    if ltb 0 jenkins.reconcile_delay then wait (jenkins.reconcile_delay * 2 ^ attempt) else pure tt

-- `"/job/".join(parts)`
abbrev pub join_job : List String → String
join_job [] = ""
join_job (part ∷ []) = part
join_job (part ∷ next ∷ parts) = part +++ ("/job/" +++ join_job (next ∷ parts))

module _ (net : Network) where
  unfoldable pub job_path : String → String
  unfolding split
  job_path job = join_job (map net.quote (split b'/' (codes job)))

  -- `value[key]` of a crumb: a text
  abbrev pub crumb_field : String → Fields → Result String
  crumb_field key fields = elim (get key fields) [
    | none ↦ err (key_error key)
    | some value ↦ elim (as_string (some value)) [
      | none ↦ err (runtime_error "TypeError")
      | some s ↦ ok s
    ]
  ]

  -- what the response to a request for an item says of its class
  unfoldable pub class_of : String → Response → Result (Option String)
  unfolding body_of as_object as_string get
  class_of path response =
      if nat_eq response.status_code 404
      then ok none
      else if not (is_success response)
      then err (upstream ("Jenkins item state is unavailable: " +++ path))
      else elim (net.read_json (body_of response.chunks)) [
        | none ↦ err (upstream ("Jenkins item state is unavailable: " +++ path))
        | some value ↦ elim (as_object (some value)) [
          | none ↦ err (upstream ("Jenkins item state is unavailable: " +++ path))
          | some fields ↦ elim (as_string (get "_class" fields)) [
            | none ↦ err (upstream ("Jenkins item has no class metadata: " +++ path))
            | some name ↦
                if name == ""
                then err (upstream ("Jenkins item has no class metadata: " +++ path))
                else ok (some name)
          ]
        ]
      ]

  module _ (jenkins : JenkinsClient) where
    abbrev pub crumb_request : Request
    crumb_request = record {
      method = "GET";
      url = jenkins.base_url +++ "/crumbIssuer/api/json";
      params = [];
      headers = [];
      body = no_body;
    }

    -- the header made of a crumb
    abbrev pub crumb_headers : Json → Remote (List (String × String))
    crumb_headers value past = elim (as_object (some value)) [
      | none ↦ (err (runtime_error "TypeError"), past)
      | some fields ↦ elim (crumb_field "crumbRequestField" fields) [
        | err e ↦ (err e, past)
        | ok name ↦ elim (crumb_field "crumb" fields) [
          | err e ↦ (err e, past)
          | ok crumb ↦ (ok ((name, crumb) ∷ []), past)
        ]
      ]
    ]

    -- `_crumb`
    unfoldable pub crumb : Remote (List (String × String))
    unfolding request raise_for_status json_of get as_object as_string
    crumb = do
      response ← request net crumb_request
      if nat_eq response.status_code 404
          then pure []
          else (do raise_for_status response; value ← json_of net response; crumb_headers value)

    abbrev pub post_request :
        String → List (String × String) → List (String × String) → Body → Request
    post_request path params headers body = record {
      method = "POST";
      url = jenkins.base_url +++ path;
      params = params;
      headers = headers;
      body = body;
    }

    -- `_post`
    unfoldable pub post : String → List (String × String) → Remote Response
    unfolding crumb
    post path params =
        try_catch
          (do
            headers ← crumb
            response ← request net (post_request path params headers no_body)
            raise_for_status response
            pure response)
          (or_upstream ("Jenkins request failed: " +++ path))

    abbrev pub item_request : String → Request
    item_request path = record {
      method = "GET";
      url = jenkins.base_url +++ ("/job/" +++ (job_path path +++ "/api/json"));
      params = ("tree", "_class") ∷ [];
      headers = [];
      body = no_body;
    }

    -- `_item`
    unfoldable pub item : String → Remote Response
    item path = request net (item_request path)

    -- `_item_class`
    unfoldable pub item_class : String → Remote (Option String)
    unfolding item class_of
    item_class path = do response ← item path; lift (class_of path response)

    -- `_create_item`
    unfoldable pub create_item : String → String → String → Remote Unit
    unfolding crumb request raise_for_status
    create_item parent name xml = do
      headers ← crumb
      response ← request net (
          post_request ("/job/" +++ (job_path parent +++ "/createItem")) (("name", name) ∷ [])
            (headers ++ ("Content-Type", "application/xml") ∷ []) (text xml))
      raise_for_status response
