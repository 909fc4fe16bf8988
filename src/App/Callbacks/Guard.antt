-- ===== src/App/Callbacks/Guard.antt =====
-- app.py: what the tests of a callback's body and signature let through.
use jenkins_service.Prelude.{
  ℕ, ◌≤◌, String, ◌≡◌, refl, ◌⊎◌, inl, inr, Bool, true, false, Option, none, some, List, [], ◌∷◌,
  ◌++◌, leb, length, Bool-cases, arith,
}
use jenkins_service.Exec.{Error, Result, ok, err, lift, ◌>>=◌}
use jenkins_service.Service.World.{World, Action}
use jenkins_service.App.Callbacks.{
  Callback, Callbacks, Reply, refused, read_limited, verify_webhook_signature, with_body, if_signed,
  signed,
}

read_limited_le :
    (max_bytes : ℕ) (body : List ℕ) (chunks : List (List ℕ)) {whole : List ℕ}
    → length body ≤ max_bytes
    → read_limited max_bytes body chunks ≡ some whole
    → length whole ≤ max_bytes
unfolding read_limited
read_limited_le max_bytes body [] {whole} h e = ground (arith, h, e)
read_limited_le max_bytes body (chunk ∷ chunks) {whole} h e =
    elim (Bool-cases (leb (length (body ++ chunk)) max_bytes)) [
      | inl fits ↦
          read_limited_le max_bytes (body ++ chunk) chunks (ground (arith, fits)) (rw fits at e)
      | inr over ↦ absurd (cc (rw over at e))
    ]

module _ (c : Callbacks) where
  -- a body within the limit that is signed with the secret of the setting
  pub record IsSigned (setting : Option String) (request : Callback) (body : List ℕ) : Type 0 where
    pub is_body : read_limited c.max_webhook_bytes [] request.chunks ≡ some body
    pub bounded : length body ≤ c.max_webhook_bytes
    pub secret : String
    pub has_secret : setting ≡ some secret
    pub verified : verify_webhook_signature c.hmac secret body request.signature ≡ ok true

  module _ (large unconfigured invalid : String) (setting : Option String)
      (request : Callback) where
    -- why a request is not taken as signed, with its answer: its body is too large, no secret is
    -- configured, or its signature is not that of the body, or cannot be compared
    abbrev pub Unsigned : Result Reply → Type 0
    Unsigned r =
        ((read_limited c.max_webhook_bytes [] request.chunks ≡ none) × (r ≡ ok (refused 413 large)))
        ⊎ ((setting ≡ none) × (r ≡ ok (refused 503 unconfigured)))
        ⊎ ((body : List ℕ) × (read_limited c.max_webhook_bytes [] request.chunks ≡ some body)
            × (secret : String) × (setting ≡ some secret)
            × (((verify_webhook_signature c.hmac secret body request.signature ≡ ok false)
                  × (r ≡ ok (refused 401 invalid)))
                ⊎ ((e : Error) × (verify_webhook_signature c.hmac secret body request.signature
                      ≡ err e)
                    × (r ≡ err e))))

  module _ (large unconfigured invalid : String) (setting : Option String) (request : Callback)
      (next : List ℕ → Action Reply) (w : World) where
    abbrev pub guarded : Action Reply
    guarded =
        with_body large (read_limited c.max_webhook_bytes [] request.chunks)
          (λ body. signed c unconfigured invalid setting request.signature body (next body))

    -- either it is refused and nothing is done, or the part behind the tests for a signed body
    abbrev pub Kept : Action Reply → Type 0
    Kept m =
        (Unsigned large unconfigured invalid setting request (m w).0 × ((m w).1 ≡ w))
        ⊎ ((body : List ℕ) × IsSigned setting request body × (m w ≡ next body w))

    module _ (body : List ℕ)
        (e : read_limited c.max_webhook_bytes [] request.chunks ≡ some body) where
      verdict-Kept :
          (secret : String) (answer : Result Bool)
          → setting ≡ some secret
          → verify_webhook_signature c.hmac secret body request.signature ≡ answer
          → Kept (lift answer >>= if_signed invalid (next body))
      verdict-Kept secret (err x) has v =
          inl (inr (inr (body, e, secret, has, inr (x, v, refl))), refl)
      verdict-Kept secret (ok false) has v =
          inl (inr (inr (body, e, secret, has, inl (v, refl))), refl)
      verdict-Kept secret (ok true) has v = inr (
        body,
        record {
          is_body = e;
          bounded = read_limited_le c.max_webhook_bytes [] request.chunks (omega arith) e;
          secret = secret;
          has_secret = has;
          verified = v;
        },
        refl,
      )

      signed-Kept :
          (s : Option String)
          → setting ≡ s
          → Kept (signed c unconfigured invalid s request.signature body (next body))
      signed-Kept none has = inl (inr (inl (has, refl)), refl)
      signed-Kept (some secret) has =
          verdict-Kept secret (verify_webhook_signature c.hmac secret body request.signature) has
            refl

    limited-Kept :
        (body : Option (List ℕ))
        → read_limited c.max_webhook_bytes [] request.chunks ≡ body
        → Kept (
            with_body large body
              (λ body. signed c unconfigured invalid setting request.signature body (next body)))
    limited-Kept none over = inl (inl (over, refl), refl)
    limited-Kept (some body) e = signed-Kept body e setting refl

    pub guarded-Kept : Kept guarded
    guarded-Kept = limited-Kept (read_limited c.max_webhook_bytes [] request.chunks) refl
