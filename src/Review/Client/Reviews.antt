-- ===== src/Review/Client/Reviews.antt =====
-- review.py: what a review that `OpenAIReviewClient` gives has passed, and how much it asks for.
use jenkins_service.Prelude.{
  ℕ, zero, suc, ◌+◌, ◌*◌, ◌^◌, ◌≤◌, String, ◌≡◌, refl, ◌⊎◌, inl, inr, Option, none, some, List, [],
  ◌∷◌, ◌++◌, ◌==◌, opt_eq, leb, nat_eq, codes, Bool-cases, arith,
}
use jenkins_service.Exec.{Result-cases, Error, Result, ok, err, runtime_error, ◌>>◌}
use jenkins_service.Model.Json.{Json, Fields, get, as_object, as_string}
use jenkins_service.Review.Finding.{ReviewResult}
use jenkins_service.Review.Diff.{Added, parse_unified_diff, validate_result}
use jenkins_service.Clients.Http.{Response, Event, sent, slept, Network, Remote, wait}
use jenkins_service.Clients.Posts.{posts, posts-append}
use jenkins_service.Service.AiReview.Logs.{utf8_length}
use jenkins_service.Review.Client.{
  ReviewClientConfig, Schemas, Attempt, fatal, again, escaped, given, LoadedResponse, unreadable,
  refused, loaded, read_loaded, judge, validated, read_text, read_response, read_bytes, read_output,
  extract_output_text, between_attempts, response_request, settle_attempt, review_attempts,
  request_body, review, is_transient,
}

module _ (net : Network) (schemas : Schemas) (config : ReviewClientConfig) where
  -- an error that `review` does not catch: of the stream of a response, or of the reading of its JSON
  abbrev pub Escapes : Error → Type 0
  Escapes e =
      ((response : Response) × (schemas.stream_error response ≡ some e))
      ⊎ ((content : List ℕ) × (schemas.load_response content ≡ refused e))

  -- A review that is given has its findings on added lines, and an error that escapes is one of
  -- those.
  abbrev IsValidated : Added → Attempt → Type 0
  IsValidated added (given result) = validate_result result.findings added ≡ ok tt
  IsValidated added (escaped e) = Escapes e
  IsValidated added _ = Unit

  validated-IsValidated :
      (added : Added) (result : Option ReviewResult)
      → IsValidated added (validated net schemas config added result)
  validated-IsValidated added none = tt
  validated-IsValidated added (some result) = checked (validate_result result.findings added) refl
    where
      checked :
          (r : Result (Unit {0}))
          → validate_result result.findings added ≡ r
          → IsValidated added (elim r [ ok u ↦ given result | err e ↦ again ])
      checked (ok tt) e = e
      checked (err x) e = tt

  read_bytes-IsValidated :
      (added : Added) (content : Option (List ℕ)) (answer : Response) (ended : Option Error)
      → schemas.stream_error answer ≡ ended
      → IsValidated added (read_bytes net schemas config added content ended)
  read_bytes-IsValidated added none answer ended e = tt
  read_bytes-IsValidated added (some content) answer (some x) e = inl (answer, e)
  read_bytes-IsValidated added (some content) answer none e =
      value (schemas.load_response content) refl
    where
      text : (t : Option String) → IsValidated added (read_text net schemas config added t)
      text none = tt
      text (some t) = validated-IsValidated added (schemas.read_review t)

      response : (r : Option Fields) → IsValidated added (read_response net schemas config added r)
      response none = tt
      response (some r) =
          elim (Bool-cases (opt_eq ◌==◌ (as_string (get "status" r)) (some "completed"))) [
            | inl completed ↦ rw completed (text (extract_output_text r))
            | inr other ↦ rw other tt
          ]

      value :
          (l : LoadedResponse)
          → schemas.load_response content ≡ l
          → IsValidated added (read_loaded net schemas config added l)
      value unreadable e = tt
      value (refused x) e = inr (content, e)
      value (loaded json) e = response (as_object (some json))

  judge-IsValidated :
      (added : Added) (answer : Option Response)
      → IsValidated added (judge net schemas config added answer)
  unfolding judge
  judge-IsValidated added none = tt
  judge-IsValidated added (some response) = elim (Bool-cases (nat_eq response.status_code 200)) [
    | inl good ↦ rw good (
        read_bytes-IsValidated added (read_output config.max_output_bytes [] response.chunks)
          response (schemas.stream_error response) refl)
    | inr bad ↦ elim (Bool-cases (is_transient response.status_code)) [
      | inl transient ↦ rw (bad, transient) tt
      | inr rejected ↦ rw (bad, rejected) tt
    ]
  ]

  -- how the attempts end, after `n` posts at most
  abbrev Attempted : Added → ℕ → List Event → Result ReviewResult × List Event → Type 0
  Attempted added n past (ok result, after) =
      (validate_result result.findings added ≡ ok tt) × (posts after ≤ posts past + n)
  Attempted added n past (err e, after) =
      (((message : String) × (e ≡ runtime_error message)) ⊎ Escapes e)
      × (posts after ≤ posts past + n)

  Attempted-later :
      (added : Added) (n : ℕ) (past between : List Event) (x : Result ReviewResult × List Event)
      → posts between ≤ posts past + 1
      → Attempted added n between x
      → Attempted added (suc n) past x
  Attempted-later added n past between (ok result, after) le h = (h.0, omega (arith, le, h.1))
  Attempted-later added n past between (err e, after) le h = (h.0, omega (arith, le, h.1))

  sent_once :
      (body : Json) (past : List Event)
      → posts (past ++ sent (response_request net schemas config body) ∷ []) ≤ posts past + 1
  unfolding posts
  sent_once body past =
      omega (arith, posts-append past (sent (response_request net schemas config body) ∷ []))

  review_attempts-Attempted :
      (added : Added) (body : Json) (left attempt : ℕ) (past : List Event)
      → Attempted added left past (review_attempts net schemas config added body left attempt past)
  unfolding review_attempts wait posts
  review_attempts-Attempted added body zero attempt past = (inl (_, refl), omega arith)
  review_attempts-Attempted added body (suc left) attempt past =
      settled left (review_attempts net schemas config added body left (suc attempt))
        (λ v. review_attempts-Attempted added body left (suc attempt) v)
        (judge net schemas config added
          (net.answer past (response_request net schemas config body)))
        (judge-IsValidated added (net.answer past (response_request net schemas config body)))
    where
      v : List Event
      v = past ++ sent (response_request net schemas config body) ∷ []

      settled :
          (left : ℕ) (rest : Remote ReviewResult)
          → ((u : List Event) → Attempted added left u (rest u))
          → (x : Attempt) → IsValidated added x
          → Attempted added (suc left) past (
              settle_attempt net schemas config
                (between_attempts net schemas config attempt left >> rest)
                x
                v)
      settled left rest h fatal valid = (inl (_, refl), omega (arith, sent_once body past))
      settled left rest h (escaped e) valid = (inr valid, omega (arith, sent_once body past))
      settled left rest h (given result) valid = (valid, omega (arith, sent_once body past))
      settled zero rest h again valid =
          Attempted-later added 0 past v (rest v) (sent_once body past) (h v)
      settled (suc n) rest h again valid =
          let u = v ++ slept (config.retry_base * 2 ^ attempt) ∷ [] in
          Attempted-later added (suc n) past u (rest u)
            (omega (
              arith,
              sent_once body past,
              posts-append v (slept (config.retry_base * 2 ^ attempt) ∷ []),
            ))
            (h u)

  module _ (diff relevant_context : String) (past : List Event) where
    -- what an answer means: a review, or an error, of the bounds or the diff before any request
    abbrev pub Reviewed : Result ReviewResult × List Event → Type 0
    Reviewed (ok result, after) =
        (utf8_length (codes diff) ≤ config.max_diff_bytes)
        × (utf8_length (codes relevant_context) ≤ config.max_context_bytes)
        × (added : Added) × (parse_unified_diff (codes diff) ≡ ok added)
        × (validate_result result.findings added ≡ ok tt)
        × (posts after ≤ posts past + config.max_attempts)
    Reviewed (err e, after) =
        (after ≡ past)
        ⊎ ((((message : String) × (e ≡ runtime_error message)) ⊎ Escapes e)
            × (posts after ≤ posts past + config.max_attempts))

    attempted :
        (added : Added) (x : Result ReviewResult × List Event)
        → utf8_length (codes diff) ≤ config.max_diff_bytes
        → utf8_length (codes relevant_context) ≤ config.max_context_bytes
        → parse_unified_diff (codes diff) ≡ ok added
        → Attempted added config.max_attempts past x
        → Reviewed x
    attempted added (ok result, after) d c e h = (d, c, added, e, h.0, h.1)
    attempted added (err x, after) d c e h = inr h

    -- A review that is given has each of its findings on a line that the diff adds, of a diff and a
    -- context within their limits. An error was raised before any request, or it is the error of the
    -- client after its requests, or one that the client does not catch: the stream of a response
    -- that cannot be decoded, or a `ValueError` of `json.loads` that is no `JSONDecodeError`. In all
    -- cases no more requests are made than the attempts allowed.
    pub review-Reviewed : Reviewed (review net schemas config diff relevant_context past)
    unfolding review
    review-Reviewed = elim (Bool-cases (leb (utf8_length (codes diff)) config.max_diff_bytes)) [
      | inr large ↦ rw large (inl refl)
      | inl small ↦
          elim (Bool-cases (leb (utf8_length (codes relevant_context)) config.max_context_bytes)) [
            | inr long ↦ rw (small, long) (inl refl)
            | inl short ↦ elim (Result-cases (parse_unified_diff (codes diff))) [
              | inr (e, bad) ↦ rw (small, short, bad) (inl refl)
              | inl (added, parsed) ↦
                  rw (small, short, parsed)
                    (attempted added
                      (review_attempts net schemas config added
                        (request_body net schemas config diff relevant_context) config.max_attempts
                        0 past)
                      (ground (arith, small)) (ground (arith, short)) parsed
                      (review_attempts-Attempted added
                        (request_body net schemas config diff relevant_context) config.max_attempts
                        0 past))
            ]
          ]
    ]
