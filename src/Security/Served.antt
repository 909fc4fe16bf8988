-- ===== src/Security/Served.antt =====
-- The answers of a limiter against the history of what it let in.
use jenkins_service.Prelude.{
  ℕ, ◌+◌, ◌≤◌, String, ◌≡◌, refl, sym, ap, ◌∙◌, Bool, List, [], ◌∷◌, ◌++◌, length, keep-append,
  length-keep-le, ltb, arith,
}
use mathlib.Core.Path.{subst}
use jenkins_service.Dict.{lookup}
use jenkins_service.Security.Limiter.{SlidingWindowLimiter, bucket, expire, allow}
use jenkins_service.Security.Window.{
  admitted, Tracks, later, expire-in_window, in_window, none_in_window,
}
use jenkins_service.Security.Rate.{behind, serve, IsOrdered, last_instant, behind-Tracks}

-- `SlidingWindowLimiter(limit, window)`
abbrev pub new_limiter : ℕ → ℕ → SlidingWindowLimiter
new_limiter limit window = record { limit = limit; window = window; requests = [] }

new_limiter-Tracks : (limit window : ℕ) (key : String) → Tracks 0 key (new_limiter limit window) []
unfolding bucket lookup
new_limiter-Tracks limit window key = record {
  old = [];
  splits = refl;
  is_old = tt;
  bounded = omega arith;
  ascends = tt;
  is_past = tt;
}

-- The settings of a limiter do not change.
abbrev SameSettings : SlidingWindowLimiter → SlidingWindowLimiter → Type 0
SameSettings a b = (a.limit ≡ b.limit) × (a.window ≡ b.window)

behind-SameSettings :
    (key : String) (instant : ℕ) (s : SlidingWindowLimiter × List (String × ℕ))
    → SameSettings (behind key instant s).0 s.0
unfolding behind allow
behind-SameSettings key instant s = ground arith

serve-SameSettings :
    (requests : List (String × ℕ)) (s : SlidingWindowLimiter × List (String × ℕ))
    → SameSettings (serve requests s).0 s.0
unfolding serve
serve-SameSettings [] s = (refl, refl)
serve-SameSettings ((key, instant) ∷ requests) s =
    let a = serve-SameSettings requests (behind key instant s) in
    let b = behind-SameSettings key instant s in (a.0 ∙ b.0, a.1 ∙ b.1)

serve-Tracks :
    (requests : List (String × ℕ)) (now : ℕ) (s : SlidingWindowLimiter × List (String × ℕ))
    → IsOrdered now requests
    → ((k : String) → Tracks now k s.0 s.1)
    → (k : String) → Tracks (last_instant now requests) k (serve requests s).0 (serve requests s).1
unfolding serve
serve-Tracks [] now s ordered h = h
serve-Tracks ((key, instant) ∷ requests) now s ordered h =
    serve-Tracks requests instant (behind key instant s) ordered.1
      (behind-Tracks key instant now ordered.0 s.0 s.1 h)

-- What a tracked bucket answers.
tracked_answer :
    (now instant : ℕ) (key : String) (limiter : SlidingWindowLimiter) (history : List (String × ℕ))
    → now ≤ instant
    → Tracks now key limiter history
    → (allow key instant limiter).0
      ≡ ltb (length (in_window limiter.window instant (admitted key history))) limiter.limit
unfolding allow
tracked_answer now instant key limiter history le h =
    let test : ℕ → Bool = λ t. ltb instant (t + limiter.window) in
    let none_old =
      none_in_window limiter.window instant h.old
        (later limiter.window now instant h.old le h.is_old) in
    let recent = expire-in_window limiter.window instant (bucket key limiter) h.ascends in
    let e : in_window limiter.window instant (admitted key history)
        ≡ expire limiter.window instant (bucket key limiter) =
      ap (in_window limiter.window instant) h.splits
      ∙ (keep-append test h.old (bucket key limiter)
          ∙ (ap (λ x. x ++ in_window limiter.window instant (bucket key limiter)) none_old
              ∙ sym recent)) in
    rw e (ground arith)

tracked_bound :
    (now : ℕ) (key : String) (limiter : SlidingWindowLimiter) (history : List (String × ℕ))
    → Tracks now key limiter history
    → length (in_window limiter.window now (admitted key history)) ≤ limiter.limit
tracked_bound now key limiter history h =
    rw
      (
        h.splits,
        keep-append (λ t. ltb now (t + limiter.window)) h.old (bucket key limiter),
        none_in_window limiter.window now h.old h.is_old,
      )
      (omega
        (arith, h.bounded, length-keep-le (λ t. ltb now (t + limiter.window)) (bucket key limiter)))

-- After any requests, in the order of their instants, the next request of a key is let in exactly
-- when fewer than `limit` of those that were let in for the key lie in the window that ends with
-- it, and no more than `limit` of those lie in the window that ends with the last one served.
pub serve-answers :
    (limit window : ℕ) (requests : List (String × ℕ)) (key : String) (instant : ℕ)
    → IsOrdered 0 requests
    → last_instant 0 requests ≤ instant
    → let (limiter, history) = serve requests (new_limiter limit window, []) in
      ((allow key instant limiter).0
        ≡ ltb (length (in_window window instant (admitted key history))) limit)
      × (length (in_window window (last_instant 0 requests) (admitted key history)) ≤ limit)
serve-answers limit window requests key instant ordered le =
    let s : SlidingWindowLimiter × List (String × ℕ) = (new_limiter limit window, []) in
    let (limiter, history) = serve requests s in
    let now = last_instant 0 requests in
    let h = serve-Tracks requests 0 s ordered (new_limiter-Tracks limit window) key in
    let same = serve-SameSettings requests s in
    let answer = tracked_answer now instant key limiter history le h in
    let bound = tracked_bound now key limiter history h in
    (
      answer
          ∙ (ap (λ n. ltb (length (in_window limiter.window instant (admitted key history))) n)
                same.0
              ∙ ap (λ n. ltb (length (in_window n instant (admitted key history))) limit) same.1),
      subst (λ n. length (in_window n now (admitted key history)) ≤ limit) same.1
          (subst (λ n. length (in_window limiter.window now (admitted key history)) ≤ n) same.0
            bound),
    )
