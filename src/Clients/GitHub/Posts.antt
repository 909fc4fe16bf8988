-- ===== src/Clients/GitHub/Posts.antt =====
-- clients.py: what `GitHubClient` posts, and how a post ends.
use jenkins_service.Prelude.{
  ℕ, String, ◌+++◌, ◌≡◌, refl, true, false, Option, none, some, List, [], ◌∷◌, ◌++◌, Bool-cases,
  Option-cases, inl, inr, ◌⊎◌,
}
use jenkins_service.Exec.{Result-cases, Error, Result, ok, err, transport, upstream, value_error}
use jenkins_service.Model.Json.{Json, Fields, obj, get, as_object}
use jenkins_service.Clients.Http.{
  Response, Event, sent, Network, request, is_success, raise_for_status, json_of, body_of,
}
use jenkins_service.Clients.GitHub.{
  GitHubClient, post_json, publish, set_status, execute_action, action_path, allowed_actions,
  is_among, status_json,
}
use jenkins_service.Clients.GitHub.Paths.{Leads, Leads-action_path, action_path-Leads}
use jenkins_service.Service.World.{StatusCall}

-- how a post ends by its answer: without one the transport's error stands, an error status is an
-- `UpstreamError`, and of a success the JSON is given
abbrev pub Posted : (List ℕ → Option Json) → String → Option Response → Result Json → Type 0
Posted read message none r = r ≡ err (transport "request failed")
Posted read message (some response) r =
    ((is_success response ≡ false) × (r ≡ err (upstream message)))
    ⊎ ((is_success response ≡ true)
        × (((read (body_of response.chunks) ≡ none)
              × (r ≡ err (value_error "response is not JSON")))
            ⊎ ((value : Json) × (read (body_of response.chunks) ≡ some value) × (r ≡ ok value))))

abbrev pub status_path : StatusCall → String
status_path call = "/repos/" +++ (call.repository +++ ("/statuses/" +++ call.sha))

module _ (net : Network) (github : GitHubClient) where
  abbrev pub answer_of : String → Json → List Event → Option Response
  answer_of path value past = net.answer past (post_json net github path value)

  publish-Posted :
      (path message : String) (value : Json) (past : List Event)
      → Posted net.read_json message
          (answer_of path value past)
          (publish net github path value message past).0
        × ((publish net github path value message past).1
            ≡ past ++ sent (post_json net github path value) ∷ [])
  unfolding publish request raise_for_status json_of
  publish-Posted path message value past = elim (Option-cases (answer_of path value past)) [
    | inl none_given ↦ rw none_given (refl, refl)
    | inr (response, given) ↦ elim (Bool-cases (is_success response)) [
      | inr error ↦ rw (given, error) (inl (refl, refl), refl)
      | inl success ↦ elim (Option-cases (net.read_json (body_of response.chunks))) [
        | inl no_json ↦ rw (given, success, no_json) (inr (refl, inl (refl, refl)), refl)
        | inr (answer, e) ↦ rw (given, success, e) (inr (refl, inr (answer, refl, refl)), refl)
      ]
    ]
  ]

  -- how a call of `set_status` ends: in a `ValueError` and without a request where the state is
  -- unknown, and else with the one request for the status, as a post ends
  pub set_status-Posted :
      (call : StatusCall) (past : List Event)
      → ((is_among call.state ("pending" ∷ "success" ∷ "failure" ∷ "error" ∷ []) ≡ false)
          × (set_status net github call past
              ≡ (err (value_error ("unsupported GitHub status state: " +++ call.state)), past)))
        ⊎ ((is_among call.state ("pending" ∷ "success" ∷ "failure" ∷ "error" ∷ []) ≡ true)
            × Posted net.read_json
                ("GitHub status publication failed: " +++ call.context)
                (answer_of (status_path call) (status_json call) past)
                (set_status net github call past).0
            × ((set_status net github call past).1
                ≡ past ++ sent (post_json net github (status_path call) (status_json call)) ∷ []))
  unfolding set_status
  set_status-Posted call past =
      elim (Bool-cases (is_among call.state ("pending" ∷ "success" ∷ "failure" ∷ "error" ∷ []))) [
        | inr unknown ↦ inl (unknown, rw unknown refl)
        | inl known ↦
            let post =
              publish-Posted (status_path call)
                ("GitHub status publication failed: " +++ call.context) (status_json call) past in
            inr (known, rw known post.0, rw known post.1)
      ]

  -- why an action is refused: it is not one of those the client knows or of those allowed, its
  -- payload leads to no path, or it has no object as its body
  abbrev pub Refused : String → String → Fields → List String → Type 0
  Refused repository action payload allowed =
      (is_among action ("review_comment" ∷ "issue_comment" ∷ "check_run" ∷ "status" ∷ []) ≡ false)
      ⊎ (is_among action allowed ≡ false)
      ⊎ (¬ ((path : String) × Leads net.decimal repository payload action path))
      ⊎ (as_object (get "body" payload) ≡ none)

  -- An action is refused in an error that no request was made for, or it is one of those the client
  -- knows and of those allowed, its payload leads to a path and has an object as its body, and the
  -- one request posts that body to that path and ends as a post does.
  pub execute_action-Posted :
      (repository action : String) (payload : Fields) (allowed : List String) (past : List Event)
      → ((e : Error) × Refused repository action payload allowed
          × (execute_action net github repository action payload allowed past ≡ (err e, past)))
        ⊎ ((is_among action allowed ≡ true)
            × (path : String) × Leads net.decimal repository payload action path
            × (body : Fields) × (as_object (get "body" payload) ≡ some body)
            × Posted net.read_json
                ("GitHub action failed: " +++ action)
                (answer_of path (obj body) past)
                (execute_action net github repository action payload allowed past).0
            × ((execute_action net github repository action payload allowed past).1
                ≡ past ++ sent (post_json net github path (obj body)) ∷ []))
  unfolding execute_action
  execute_action-Posted repository action payload allowed past =
      elim (Bool-cases (is_among action allowed_actions)) [
        | inr unknown ↦ inl (
          value_error ("GitHub action is not allowed: " +++ action),
          inl unknown,
          rw unknown refl,
        )
        | inl known ↦ elim (Bool-cases (is_among action allowed)) [
          | inr refused ↦ inl (
            value_error ("GitHub action is not allowed: " +++ action),
            inr (inl refused),
            rw (known, refused) refl,
          )
          | inl granted ↦ elim (Result-cases (action_path net.decimal repository action payload)) [
            | inr (e, bad) ↦ inl (e, inr (inr (inl (no_path e bad))), rw (known, granted, bad) refl)
            | inl (path, good) ↦ elim (Option-cases (as_object (get "body" payload))) [
              | inl no_body ↦ inl (
                value_error (action +++ " requires an object body"),
                inr (inr (inr no_body)),
                rw (known, granted, good, no_body) refl,
              )
              | inr (body, e) ↦
                  let post =
                    publish-Posted path ("GitHub action failed: " +++ action) (obj body) past in
                  inr (
                    granted,
                    path,
                    action_path-Leads net.decimal repository payload action path known good,
                    body,
                    e,
                    rw (known, granted, good, e) post.0,
                    rw (known, granted, good, e) post.1,
                  )
            ]
          ]
        ]
      ]
    where
      no_path :
          (e : Error)
          → action_path net.decimal repository action payload ≡ err e
          → ¬ ((path : String) × Leads net.decimal repository payload action path)
      no_path e bad (path, leads) =
          absurd (cc (bad, Leads-action_path net.decimal repository payload action path leads))
