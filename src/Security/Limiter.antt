-- ===== src/Security/Limiter.antt =====
-- security.py: `SlidingWindowLimiter`, with instants as numbers of microseconds.
use jenkins_service.Prelude.{
  ℕ, ◌+◌, String, Bool, true, false, List, [], ◌∷◌, ◌++◌, length, leb, if◌then◌else◌,
}
use jenkins_service.Dict.{Dict, lookup, insert}
use jenkins_service.Model.Repository.{or_else}

pub record SlidingWindowLimiter : Type 0 where
  pub limit : ℕ
  pub window : ℕ
  pub requests : Dict (List ℕ)

-- `self._requests[key]`, empty where there is none
unfoldable pub bucket : String → SlidingWindowLimiter → List ℕ
bucket key limiter = or_else (lookup key limiter.requests) []

-- the loop that removes old instants from the left; `t <= instant - window` without a subtraction
unfoldable pub expire : ℕ → ℕ → List ℕ → List ℕ
expire window instant [] = []
expire window instant (t ∷ ts) =
    if leb (t + window) instant then expire window instant ts else t ∷ ts

-- `self._requests` with another bucket
abbrev pub with_bucket : String → List ℕ → SlidingWindowLimiter → SlidingWindowLimiter
with_bucket key ts limiter = record limiter { requests = insert key ts limiter.requests }

unfoldable pub allow : String → ℕ → SlidingWindowLimiter → Bool × SlidingWindowLimiter
unfolding bucket expire
allow key instant limiter =
    let recent = expire limiter.window instant (bucket key limiter) in
    if leb limiter.limit (length recent)
    then (false, with_bucket key recent limiter)
    else (true, with_bucket key (recent ++ instant ∷ []) limiter)
