-- ===== src/Clients/GitHub/Diff.antt =====
-- What a diff of a pull request is, where there is one.
use jenkins_service.Prelude.{
  ℕ, ◌≤◌, String, ◌≡◌, refl, true, not, Option, none, some, List, [], ◌∷◌, ◌++◌, length, leb,
  nat_eq, Bool-cases, inl, inr, arith,
}
use jenkins_service.Exec.{
  Error, conflict, not_found, value_error, diff_error, key_error, transport, runtime_error, Result,
  ok, err, upstream, pure, raise, resume, handle_with, lift, ensure, try_catch, ◌>>=◌,
}
use jenkins_service.Model.Json.{Json}
use jenkins_service.Clients.Http.{
  Request, Response, Event, sent, Network, Remote, request, raise_for_status, json_of, body_of,
  is_success, read_bounded, check_declared, or_upstream_value,
}
use jenkins_service.Clients.Posts.{Ends, bind-Ends}
use jenkins_service.Clients.GitHub.{
  GitHubClient, identity_of, is_identity, pull_request, verify_identity, read_diff,
  pull_request_diff, or_unavailable, diff_limit,
}

-- what a bounded reading gives
read_bounded-Ends :
    (message : String) (max_bytes : ℕ) (content : List ℕ) (chunks : List (List ℕ))
    (past : List Event)
    → length content ≤ max_bytes
    → Ends
        (λ bytes p. length bytes ≤ max_bytes)
        (read_bounded message max_bytes content chunks past)
unfolding read_bounded
read_bounded-Ends message max_bytes content [] past h = h
read_bounded-Ends message max_bytes content (chunk ∷ chunks) past h =
    elim (Bool-cases (leb (length (content ++ chunk)) max_bytes)) [
      | inl small ↦ rw small (
          read_bounded-Ends message max_bytes (content ++ chunk) chunks past
            (ground (arith, small)))
      | inr large ↦ rw large tt
    ]

-- A handler that always raises: what ends well ends as the body does.
raising-Ends :
    {A : Type 0} (P : A → List Event → Type 0) (m : Remote A) (h : Error → Remote A)
    (past : List Event)
    → Ends P (m past)
    → ((e : Error) (v : List Event) → Ends P (h e v))
    → Ends P (try_catch m h past)
raising-Ends {A} P m h past hm hh = handled (m past).0 (m past).1 hm
  where
    handled : (r : Result A) (v : List Event) → Ends P (r, v) → Ends P (handle_with h r v)
    handled (ok a) v ends = ends
    handled (err e) v ends = hh e v

upstream_value-Ends :
    {A : Type 0} (P : A → List Event → Type 0) (message : String) (e : Error) (v : List Event)
    → Ends P (or_upstream_value {A = A} message e v)
upstream_value-Ends P message (conflict m) v = tt
upstream_value-Ends P message (not_found m) v = tt
upstream_value-Ends P message (value_error m) v = tt
upstream_value-Ends P message (diff_error m) v = tt
upstream_value-Ends P message (upstream m) v = tt
upstream_value-Ends P message (key_error m) v = tt
upstream_value-Ends P message (transport m) v = tt
upstream_value-Ends P message (runtime_error m) v = tt

unavailable-Ends :
    {A : Type 0} (P : A → List Event → Type 0) (message : String) (e : Error) (v : List Event)
    → Ends P (or_unavailable {A = A} message e v)
unavailable-Ends P message (conflict m) v = tt
unavailable-Ends P message (not_found m) v = tt
unavailable-Ends P message (value_error m) v = tt
unavailable-Ends P message (diff_error m) v = tt
unavailable-Ends P message (upstream m) v = tt
unavailable-Ends P message (key_error m) v = tt
unavailable-Ends P message (transport m) v = tt
unavailable-Ends P message (runtime_error m) v = tt

-- The response names the commits.
pub record Names (net : Network) (response : Response) (actual : Json × Json) : Type 0 where
  pub payload : Json
  pub read : net.read_json (body_of response.chunks) ≡ some payload
  pub named : identity_of payload ≡ ok actual

-- the reading of a response for a pull request
named-Ends :
    (net : Network) (response : Response) (past : List Event)
    → Ends
        (λ actual p. (p ≡ past) × Names net response actual)
        ((raise_for_status response >>= λ _.
            json_of net response >>= λ payload. lift (identity_of payload))
          past)
unfolding raise_for_status json_of
named-Ends net response past = elim (Bool-cases (is_success response)) [
  | inr failed ↦ rw failed tt
  | inl fine ↦ rw fine (by_json (net.read_json (body_of response.chunks)) refl)
]
  where
    by_identity :
        (payload : Json)
        → net.read_json (body_of response.chunks) ≡ some payload
        → (r : Result (Json × Json)) → identity_of payload ≡ r
        → Ends (λ actual p. (p ≡ past) × Names net response actual) (r, past)
    by_identity payload e (ok actual) named =
        (refl, record { payload = payload; read = e; named = named })
    by_identity payload e (err e') named = tt

    by_json :
        (j : Option Json)
        → net.read_json (body_of response.chunks) ≡ j
        → Ends
            (λ actual p. (p ≡ past) × Names net response actual)
            (((elim j as (λ j. Remote Json) [
              | none ↦ raise (value_error "response is not JSON")
              | some value ↦ pure value
            ])
                >>= λ payload. lift (identity_of payload))
              past)
    by_json none e = tt
    by_json (some payload) e = by_identity payload e (identity_of payload) refl

module _ (net : Network) (github : GitHubClient) (repository : String) (pull_number : ℕ)
    (base_sha head_sha : String) where
  abbrev identity_request : Request
  identity_request = pull_request net github repository pull_number []

  -- The last request asked for the pull request, and its answer named the commits expected.
  pub record IsVerified (past : List Event) : Type 0 where
    pub before : List Event
    pub splits : past ≡ before ++ sent identity_request ∷ []
    pub response : Response
    pub answered : net.answer before identity_request ≡ some response
    pub actual : Json × Json
    pub names : Names net response actual
    pub same : is_identity base_sha head_sha actual ≡ true

  verify_identity-IsVerified :
      (past : List Event)
      → Ends
          (λ u p. IsVerified p)
          (verify_identity net github repository pull_number base_sha head_sha past)
  unfolding verify_identity request
  verify_identity-IsVerified past = by_answer (net.answer past identity_request) refl
    where
      after : List Event
      after = past ++ sent identity_request ∷ []

      checked :
          (response : Response)
          → net.answer past identity_request ≡ some response
          → (r : Result (Json × Json)) (p : List Event)
          → Ends (λ actual p. (p ≡ after) × Names net response actual) (r, p)
          → Ends
              (λ u p. IsVerified p)
              (resume
                (λ actual.
                  ensure
                    (is_identity base_sha head_sha actual)
                    (upstream "GitHub pull request changed while preparing its review"))
                r
                p)
      checked response e (err e') p h = tt
      checked response e (ok actual) p h =
          elim (Bool-cases (is_identity base_sha head_sha actual)) [
            | inr other ↦ rw other tt
            | inl same ↦ rw same (record {
              before = past;
              splits = h.0;
              response = response;
              answered = e;
              actual = actual;
              names = h.1;
              same = same;
            })
          ]

      by_answer :
          (a : Option Response)
          → net.answer past identity_request ≡ a
          → Ends
              (λ u p. IsVerified p)
              (verify_identity net github repository pull_number base_sha head_sha past)
      by_answer none e = rw e tt
      by_answer (some response) e =
          let m : Remote (Json × Json) = raise_for_status response >>= λ _.
          json_of net response >>= λ payload. lift (identity_of payload) in
          let h : Error → Remote (Json × Json) =
            or_unavailable "GitHub pull request identity is unavailable" in
          let (r, p) = try_catch m h after in
          rw e (
            checked response e r p (
              raising-Ends (λ actual p. (p ≡ after) × Names net response actual) m h after
                (named-Ends net response after) (unavailable-Ends _ _)))

  -- the limit on the bytes of a diff
  read_diff-Ends :
      (max_bytes : ℕ) (past : List Event)
      → Ends
          (λ content p. length content ≤ max_bytes)
          (read_diff net github repository pull_number max_bytes past)
  unfolding read_diff
  read_diff-Ends max_bytes past =
      raising-Ends P
        (request net with_accept >>= λ response. raise_for_status response >>= λ _.
          check_declared net diff_limit max_bytes response >>= λ _.
          read_bounded diff_limit max_bytes [] response.chunks)
        (or_upstream_value "GitHub pull request diff is unavailable") past
        (bind-Ends P (request net with_accept) _ past (λ response v.
          bind-Ends P (raise_for_status response) _ v (λ _ v'.
            bind-Ends P (check_declared net diff_limit max_bytes response)
              (λ _. read_bounded diff_limit max_bytes [] response.chunks) v'
              (λ _ v''.
                read_bounded-Ends diff_limit max_bytes [] response.chunks v'' (omega arith)))))
        (upstream_value-Ends P _)
    where
      P : List ℕ → List Event → Type 0
      P content p = length content ≤ max_bytes

      with_accept : Request
      with_accept =
          pull_request net github repository pull_number
            (("Accept", "application/vnd.github.diff") ∷ [])

  -- what a diff is
  pub record IsDiff (max_bytes : ℕ) (diff : String) (past : List Event) : Type 0 where
    pub content : List ℕ
    pub decoded : net.decode content ≡ some diff
    pub bounded : length content ≤ max_bytes
    pub verified : IsVerified past

  -- A diff that is given is the text of at most `max_bytes` bytes, and the last request asked for
  -- the pull request and was answered with the base and the head that the diff was asked for.
  pub pull_request_diff-IsDiff :
      (max_bytes : ℕ) (past : List Event)
      → Ends
          (IsDiff max_bytes)
          (pull_request_diff net github repository pull_number base_sha head_sha max_bytes past)
  unfolding pull_request_diff
  pull_request_diff-IsDiff max_bytes past =
      bind-Ends Q (ensure (not (nat_eq pull_number 0)) (value_error "pull_number must be positive"))
        _ past
        (λ _ v.
          bind-Ends Q (ensure (not (nat_eq max_bytes 0)) (value_error "max_bytes must be positive"))
            _ v
            (λ _ v'.
              bind-Ends Q (verify_identity net github repository pull_number base_sha head_sha) _ v'
                (λ _ u.
                  let (r, p) = read_diff net github repository pull_number max_bytes u in
                  read r p (read_diff-Ends max_bytes u))))
    where
      Q : String → List Event → Type 0
      Q = IsDiff max_bytes

      -- the second verification, and the decoding
      read :
          (r : Result (List ℕ)) (p : List Event)
          → Ends (λ content p. length content ≤ max_bytes) (r, p)
          → Ends Q (
              resume
                (λ content.
                  verify_identity net github repository pull_number base_sha head_sha >>= λ _.
                  elim (net.decode content) [
                    | none ↦ raise (upstream "GitHub pull request diff is not UTF-8")
                    | some diff ↦ pure diff
                  ])
                r
                p)
      read (err e) p h = tt
      read (ok content) p h =
          let (r, v) = verify_identity net github repository pull_number base_sha head_sha p in
          decoded content h r v (verify_identity-IsVerified p)
        where
          given :
              (content : List ℕ) (v : List Event) (d : Option String)
              → net.decode content ≡ d
              → length content ≤ max_bytes
              → IsVerified v
              → Ends Q (
                  (elim d as (λ d. Remote String) [
                    | none ↦ raise (upstream "GitHub pull request diff is not UTF-8")
                    | some diff ↦ pure diff
                  ])
                    v)
          given content v none e h verified = tt
          given content v (some diff) e h verified = record {
            content = content;
            decoded = e;
            bounded = h;
            verified = verified;
          }

          decoded :
              (content : List ℕ)
              → length content ≤ max_bytes
              → (r : Result (Unit {0})) (v : List Event) → Ends (λ u p. IsVerified p) (r, v)
              → Ends Q (
                  resume
                    (λ _. elim (net.decode content) [
                      | none ↦ raise (upstream "GitHub pull request diff is not UTF-8")
                      | some diff ↦ pure diff
                    ])
                    r
                    v)
          decoded content h (ok u) v verified = given content v (net.decode content) refl h verified
          decoded content h (err e) v verified = tt
