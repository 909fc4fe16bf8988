-- ===== src/App/Callbacks/Signed.antt =====
-- app.py: what a callback does only for a request that is signed.
use jenkins_service.Prelude.{
  ℕ, ◌≤◌, ◌<◌, ◌+◌, String, ◌≡◌, refl, ◌⊎◌, inl, inr, true, false, Option, none, some, List,
  is_some, Bool-cases, ap, eq_refl,
}
use jenkins_service.Exec.{value_error, Result, ok, err, ◌>>=◌}
use jenkins_service.Dict.{lookup, lookup-insert}
use jenkins_service.Model.Json.{Json, Fields, as_object}
use jenkins_service.Model.Repository.{or_else}
use jenkins_service.Model.Requests.{BuildCompletion}
use jenkins_service.Store
use jenkins_service.Service.World.{Outside, World}
use jenkins_service.Webhook.{
  filled, repository_full_name, is_allowed, reason_of, process_github_webhook,
}
use jenkins_service.App.Callbacks.{
  Callback, Callbacks, Loaded, not_json, not_text, loaded, no_task, dispatch, Reply, refused,
  received, answer_delivery, take_object, take_delivery, github_webhook, accept_completion,
  build_completion,
}
use jenkins_service.App.Callbacks.Guard.{IsSigned, Unsigned, guarded-Kept}

module _ (o : Outside) (c : Callbacks) (request : Callback) (w : World) where
  -- a completion that is signed, can be read and is fresh, and that is accepted
  pub record IsAccepted (seconds : ℕ) : Type 0 where
    pub body : List ℕ
    pub is_signed : IsSigned c c.callback_secret request body
    pub completion : BuildCompletion
    pub parsed : c.load_completion body ≡ some completion
    pub not_late : seconds ≤ completion.timestamp + c.max_age_seconds
    pub not_early : completion.timestamp ≤ seconds + c.max_age_seconds
    pub accepted : build_completion o c seconds request w ≡ accept_completion o c completion w

  -- why a signed body is not accepted, with the answer: it is no completion, or its time is too far
  -- from that of the call
  abbrev pub Unaccepted : ℕ → List ℕ → Result Reply → Type 0
  Unaccepted seconds body r =
      ((c.load_completion body ≡ none) × (r ≡ ok (refused 422 "invalid completion payload")))
      ⊎ ((completion : BuildCompletion) × (c.load_completion body ≡ some completion)
          × ((completion.timestamp + c.max_age_seconds < seconds)
              ⊎ (seconds + c.max_age_seconds < completion.timestamp))
          × (r ≡ ok (refused 401 "expired completion payload")))

  -- a callback that is refused, for one of the reasons, and that changes nothing and calls nobody
  abbrev pub IsRejected : ℕ → Result Reply × World → Type 0
  IsRejected seconds (r, after) =
      (after ≡ w)
      × (Unsigned c "completion payload too large" "completion secret is not configured"
            "invalid completion signature" c.callback_secret request r
          ⊎ ((body : List ℕ) × IsSigned c c.callback_secret request body
              × Unaccepted seconds body r))

  -- how a delivery is answered: again, as one to dispatch, or as one of a repository not allowed
  abbrev pub Delivers : String → String → Fields → Result Reply × World → Type 0
  Delivers delivery_id event payload (r, after) =
      (after.calls ≡ w.calls)
      × (((is_some (lookup delivery_id w.store.webhooks) ≡ true)
            × (r ≡ ok (received true delivery_id no_task))
            × (after.store ≡ w.store))
          ⊎ ((is_some (lookup delivery_id w.store.webhooks) ≡ false)
              × (is_some (lookup delivery_id after.store.webhooks) ≡ true)
              × (((is_allowed o (repository_full_name payload) ≡ true)
                    × (r ≡ ok (received false delivery_id (dispatch event payload delivery_id))))
                  ⊎ ((is_allowed o (repository_full_name payload) ≡ false)
                      × (r
                          ≡ ok (
                              refused 403 (
                                or_else (reason_of o (repository_full_name payload) false)
                                  "null")))))))

  -- why a signed body is not taken as a delivery, with the answer: a header is missing, or the body
  -- is not JSON, not text or not an object
  abbrev pub Unread : List ℕ → Result Reply → Type 0
  Unread body r =
      (((filled request.delivery ≡ none) ⊎ (filled request.event ≡ none))
        × (r ≡ ok (refused 400 "missing GitHub delivery headers")))
      ⊎ ((c.load_json body ≡ not_json) × (r ≡ ok (refused 400 "invalid JSON payload")))
      ⊎ ((c.load_json body ≡ not_text) × (r ≡ err (value_error "UnicodeDecodeError")))
      ⊎ ((value : Json) × (c.load_json body ≡ loaded value)
          × (as_object (some value) ≡ none)
          × (r ≡ ok (refused 400 "webhook JSON must be an object")))

  -- a webhook that is refused, for one of the reasons, and that changes nothing and calls nobody
  abbrev pub IsRefused : Result Reply × World → Type 0
  IsRefused (r, after) =
      (after ≡ w)
      × (Unsigned c "webhook payload too large" "webhook secret is not configured"
            "invalid webhook signature" c.webhook_secret request r
          ⊎ ((body : List ℕ) × IsSigned c c.webhook_secret request body × Unread body r))

  pub record IsDelivered : Type 0 where
    pub body : List ℕ
    pub is_signed : IsSigned c c.webhook_secret request body
    pub delivery_id : String
    pub has_delivery : filled request.delivery ≡ some delivery_id
    pub event : String
    pub has_event : filled request.event ≡ some event
    pub value : Json
    pub parsed : c.load_json body ≡ loaded value
    pub payload : Fields
    pub is_object : as_object (some value) ≡ some payload
    pub answered : Delivers delivery_id event payload (github_webhook o c request w)

  payload-Delivers :
      (delivery_id event : String) (payload : Fields)
      → Delivers delivery_id event payload (
          (process_github_webhook o delivery_id event payload
              >>= answer_delivery o c delivery_id event payload)
            w)
  unfolding process_github_webhook Store.record_webhook_once
  payload-Delivers delivery_id event payload =
      let allowed = is_allowed o (repository_full_name payload) in
      elim (Bool-cases (is_some (lookup delivery_id w.store.webhooks))) [
        | inl known ↦ rw known (refl, inl (refl, refl, refl))
        | inr new ↦ elim (Bool-cases allowed) [
          | inl good ↦
              rw (new, good)
                (refl, inr (refl, rw (lookup-insert, eq_refl delivery_id) refl, inl (refl, refl)))
          | inr bad ↦
              rw (new, bad)
                (refl, inr (refl, rw (lookup-insert, eq_refl delivery_id) refl, inr (refl, refl)))
        ]
      ]

  -- A call of the webhook is refused, changes nothing and calls nobody, for one of the reasons: its
  -- body is too large, no secret is configured, its signature is not that of the body or cannot be
  -- compared, a header is missing, or the body is not text, not JSON or not an object. Otherwise the
  -- body is within the limit, signed with the webhook's secret and a JSON object, the delivery and
  -- its event are named, and no client is called either: a delivery that was recorded before is
  -- answered as a duplicate and changes nothing in the store, a new one is recorded, and it is left
  -- to be dispatched exactly where its repository is allowed.
  pub github_webhook-IsDelivered : IsRefused (github_webhook o c request w) ⊎ IsDelivered
  unfolding github_webhook
  github_webhook-IsDelivered = settle (
      guarded-Kept c "webhook payload too large" "webhook secret is not configured"
        "invalid webhook signature" c.webhook_secret request
        (take_delivery o c (filled request.delivery) (filled request.event)) w)
    where
      result : Result Reply × World
      result = github_webhook o c request w

      object :
          (body : List ℕ) (delivery event : String) (value : Json) (fields : Option Fields)
          → IsSigned c c.webhook_secret request body
          → filled request.delivery ≡ some delivery
          → filled request.event ≡ some event
          → c.load_json body ≡ loaded value
          → as_object (some value) ≡ fields
          → result ≡ take_object o c delivery event fields w
          → IsRefused result ⊎ IsDelivered
      object body delivery event value none h d e v f same =
          inl (ap (λ x. x.1) same, inr (body, h, inr (inr (inr (value, v, f, ap (λ x. x.0) same)))))
      object body delivery event value (some payload) h d e v f same = inr (record {
        body = body;
        is_signed = h;
        delivery_id = delivery;
        has_delivery = d;
        event = event;
        has_event = e;
        value = value;
        parsed = v;
        payload = payload;
        is_object = f;
        answered = rw same (payload-Delivers delivery event payload);
      })

      taken :
          (body : List ℕ) (delivery event : Option String) (value : Loaded)
          → IsSigned c c.webhook_secret request body
          → filled request.delivery ≡ delivery
          → filled request.event ≡ event
          → c.load_json body ≡ value
          → result ≡ take_delivery o c delivery event body w
          → IsRefused result ⊎ IsDelivered
      taken body none event value h d e v same =
          inl (ap (λ x. x.1) same, inr (body, h, inl (inl d, ap (λ x. x.0) same)))
      taken body (some delivery) none value h d e v same =
          inl (ap (λ x. x.1) same, inr (body, h, inl (inr e, ap (λ x. x.0) same)))
      taken body (some delivery) (some event) not_json h d e v same =
          let same' : result ≡ (ok (refused 400 "invalid JSON payload"), w) = rw v at same in
          inl (ap (λ x. x.1) same', inr (body, h, inr (inl (v, ap (λ x. x.0) same'))))
      taken body (some delivery) (some event) not_text h d e v same =
          let same' : result ≡ (err (value_error "UnicodeDecodeError"), w) = rw v at same in
          inl (ap (λ x. x.1) same', inr (body, h, inr (inr (inl (v, ap (λ x. x.0) same')))))
      taken body (some delivery) (some event) (loaded value) h d e v same =
          object body delivery event value (as_object (some value)) h d e v refl (rw v at same)

      settle :
          ((Unsigned c "webhook payload too large" "webhook secret is not configured"
                "invalid webhook signature" c.webhook_secret request result.0
              × (result.1 ≡ w))
            ⊎ ((body : List ℕ) × IsSigned c c.webhook_secret request body
                × (result
                    ≡ take_delivery o c (filled request.delivery) (filled request.event) body w)))
          → IsRefused result ⊎ IsDelivered
      settle (inl (unsigned, kept)) = inl (kept, inl unsigned)
      settle (inr (body, h, same)) =
          taken body (filled request.delivery) (filled request.event) (c.load_json body) h refl refl
            refl same
