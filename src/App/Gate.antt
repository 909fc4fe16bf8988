-- ===== src/App/Gate.antt =====
-- app.py: `security_middleware`, with `bearer_token` of security.py. What is let through goes on to
-- the operations with its principal.
use jenkins_service.Prelude.{
  ℕ, String, ◌≡◌, refl, ◌⊎◌, inl, inr, Bool, true, false, not, ◌&&◌, Option, none, some, List, [],
  ◌∷◌, ◌==◌, any, nat_eq, same_lower, if◌then◌else◌, Bool-cases, Option-cases,
}
use Prim.Native.Char.{code}
use jenkins_service.Model.Scope.{Principal}
use jenkins_service.Model.Repository.{or_else}
use jenkins_service.Security.Limiter.{SlidingWindowLimiter, allow}
use jenkins_service.Security.Tokens.{Entry, authenticate}

pub record Incoming : Type 0 where
  pub path : String
  pub scheme : String
  pub origin : Option String
  pub forwarded_proto : Option String
  pub authorization : Option String

pub record Settings : Type 0 where
  pub allowed_origins : List String
  pub require_https : Bool
  pub trust_proxy_headers : Bool

-- a response of the middleware itself, or the request as it goes on
pub data Gated : Type 0 where
  refused : ℕ → String → Gated
  admitted : Option Principal → Gated

-- `value or other`
abbrev pub present_or : Option String → String → String
present_or none other = other
present_or (some value) other = if value == "" then other else value

-- `origin and origin not in settings.allowed_origins`
unfoldable pub is_foreign : Settings → Option String → Bool
is_foreign settings none = false
is_foreign settings (some origin) =
    not (origin == "") && not (any (λ allowed. allowed == origin) settings.allowed_origins)

unfoldable pub is_exempt : String → Bool
is_exempt path =
    any (λ p. p == path)
      ("/healthz" ∷ "/readyz" ∷ "/webhooks/github" ∷ "/internal/build-completions" ∷ [])

-- the scheme of the request, as the proxy reports it where the proxy is trusted
abbrev pub scheme_of : Settings → Incoming → String
scheme_of settings request =
    present_or (if settings.trust_proxy_headers then request.forwarded_proto else none)
      request.scheme

-- `authorization.partition(" ")`, where there is a space
unfoldable pub partition_space : String → Option (String × String)
partition_space String.[] = none
partition_space (String.◌∷◌ c s) =
    let rest = partition_space s in
    if nat_eq (code c) b' '
    then some ("", s)
    else elim rest [ none ↦ none | some (scheme, value) ↦ some (String.◌∷◌ c scheme, value) ]

-- a scheme and a value that make a bearer token
abbrev pub token_of : Option (String × String) → Option String
token_of none = none
token_of (some (scheme, value)) =
    if same_lower scheme "bearer" && not (value == "") then some value else none

unfoldable pub bearer_token : Option String → Option String
unfolding partition_space
bearer_token authorization = token_of (partition_space (or_else authorization ""))

module _ (hash_token : String → String) (settings : Settings) where
  -- the limiter's answer for a principal
  abbrev pub limited : Principal → Bool × SlidingWindowLimiter → Gated × SlidingWindowLimiter
  limited principal (false, limiter) = (refused 429 "Rate limit exceeded", limiter)
  limited principal (true, limiter) = (admitted (some principal), limiter)

  abbrev pub identified : ℕ → SlidingWindowLimiter → Option Principal → Gated × SlidingWindowLimiter
  identified instant limiter none = (refused 401 "Invalid bearer token", limiter)
  identified instant limiter (some principal) =
      limited principal (allow principal.token_id instant limiter)

  abbrev pub with_token :
      List Entry → ℕ → SlidingWindowLimiter → Option String → Gated × SlidingWindowLimiter
  with_token entries instant limiter none = (refused 401 "Bearer authentication required", limiter)
  with_token entries instant limiter (some token) =
      identified instant limiter (authenticate hash_token entries token)

  -- the part for a path that is not exempt
  abbrev pub authorized :
      Option (List Entry) → Incoming → ℕ → SlidingWindowLimiter → Gated × SlidingWindowLimiter
  authorized none request instant limiter =
      (refused 503 "API authentication is not configured", limiter)
  authorized (some entries) request instant limiter =
      with_token entries instant limiter (bearer_token request.authorization)

  unfoldable pub security_middleware :
      Option (List Entry) → Incoming → ℕ → SlidingWindowLimiter → Gated × SlidingWindowLimiter
  unfolding is_foreign is_exempt bearer_token
  security_middleware authenticator request instant limiter =
      if is_foreign settings request.origin
      then (refused 403 "Origin is not allowed", limiter)
      else if is_exempt request.path
      then (admitted none, limiter)
      else if settings.require_https && not (scheme_of settings request == "https")
      then (refused 400 "HTTPS is required", limiter)
      else authorized authenticator request instant limiter

  -- What it takes for a request to a path that is not exempt to go on as `principal`.
  pub record Passes (authenticator : Option (List Entry)) (request : Incoming) (instant : ℕ)
      (limiter after : SlidingWindowLimiter) (principal : Principal) : Type 0 where
    pub entries : List Entry
    pub configured : authenticator ≡ some entries
    pub token : String
    pub bears : bearer_token request.authorization ≡ some token
    pub authenticated : authenticate hash_token entries token ≡ some principal
    pub allowed : allow principal.token_id instant limiter ≡ (true, after)
    pub secure : (settings.require_https && not (scheme_of settings request == "https")) ≡ false

  -- what an answer means, with the limiter that is left
  abbrev pub Means :
      Option (List Entry)
      → Incoming
      → ℕ
      → SlidingWindowLimiter
      → Gated × SlidingWindowLimiter
      → Type 0
  Means authenticator request instant limiter (refused status detail, after) =
      (after ≡ limiter)
      ⊎ ((status ≡ 429)
          × (principal : Principal) × (allow principal.token_id instant limiter ≡ (false, after)))
  Means authenticator request instant limiter (admitted none, after) =
      (is_exempt request.path ≡ true)
      × (is_foreign settings request.origin ≡ false)
      × (after ≡ limiter)
  Means authenticator request instant limiter (admitted (some principal), after) =
      (is_exempt request.path ≡ false)
      × (is_foreign settings request.origin ≡ false)
      × Passes authenticator request instant limiter after principal

  module _ (authenticator : Option (List Entry)) (request : Incoming) (instant : ℕ)
      (limiter : SlidingWindowLimiter) where
    abbrev Meant : Gated × SlidingWindowLimiter → Type 0
    Meant = Means authenticator request instant limiter

    module _ (native : is_foreign settings request.origin ≡ false)
        (guarded : is_exempt request.path ≡ false)
        (secure : (settings.require_https && not (scheme_of settings request == "https"))
          ≡ false) where
      limited-Means :
          (entries : List Entry) (token : String) (principal : Principal)
          (answer : Bool × SlidingWindowLimiter)
          → authenticator ≡ some entries
          → bearer_token request.authorization ≡ some token
          → authenticate hash_token entries token ≡ some principal
          → allow principal.token_id instant limiter ≡ answer
          → Meant (limited principal answer)
      limited-Means entries token principal (false, after) configured bears known e =
          inr (refl, principal, e)
      limited-Means entries token principal (true, after) configured bears known e = (
        guarded,
        native,
        record {
          entries = entries;
          configured = configured;
          token = token;
          bears = bears;
          authenticated = known;
          allowed = e;
          secure = secure;
        },
      )

      with_token-Means :
          (entries : List Entry) (token : Option String)
          → authenticator ≡ some entries
          → bearer_token request.authorization ≡ token
          → Meant (with_token entries instant limiter token)
      with_token-Means entries none configured bears = inl refl
      with_token-Means entries (some token) configured bears =
          elim (Option-cases (authenticate hash_token entries token)) [
            | inl unknown ↦ rw unknown (inl refl)
            | inr (principal, known) ↦ rw known (
                limited-Means entries token principal (allow principal.token_id instant limiter)
                  configured bears known refl)
          ]

      authorized-Means :
          (a : Option (List Entry))
          → authenticator ≡ a
          → Meant (authorized a request instant limiter)
      authorized-Means none e = inl refl
      authorized-Means (some entries) e =
          with_token-Means entries (bearer_token request.authorization) e refl

    -- A request is let through without a principal only on an exempt path, and as a principal only
    -- on another path, over HTTPS where that is required, with a bearer token that the configured
    -- authenticator takes for that principal, within the principal's rate limit; its origin is
    -- allowed in both cases. One that is refused leaves the limiter as it was, unless it is refused
    -- for the rate limit.
    pub security_middleware-Means :
        Means authenticator request instant limiter
          (security_middleware authenticator request instant limiter)
    unfolding security_middleware
    security_middleware-Means = elim (Bool-cases (is_foreign settings request.origin)) [
      | inl foreign ↦ rw foreign (inl refl)
      | inr native ↦ elim (Bool-cases (is_exempt request.path)) [
        | inl exempt ↦ rw (native, exempt) (exempt, native, refl)
        | inr guarded ↦
            elim (Bool-cases
              (settings.require_https && not (scheme_of settings request == "https"))) [
                | inl plain ↦ rw (native, guarded, plain) (inl refl)
                | inr secure ↦
                    rw (native, guarded, secure)
                      (authorized-Means native guarded secure authenticator refl)
              ]
      ]
    ]
