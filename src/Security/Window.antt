-- ===== src/Security/Window.antt =====
-- No window of time sees more requests of a key than the limit.
use jenkins_service.Prelude.{
  ℕ, ◌+◌, ◌≤◌, String, ◌≡◌, refl, ap, false, List, [], ◌∷◌, ◌++◌, ◌==◌, length, keep, All,
  All-append, leb, ltb, if◌then◌else◌, Bool-cases, inl, inr, arith,
}
use jenkins_service.Dict.{lookup-insert}
use jenkins_service.Security.Limiter.{SlidingWindowLimiter, bucket, expire, with_bucket}

-- What the loop removes stands in front of what it leaves, and is old.
pub expire-splits :
    (window instant : ℕ) (ts : List ℕ)
    → (old : List ℕ) × (ts ≡ old ++ expire window instant ts) × All (λ t. t + window ≤ instant) old
unfolding expire
expire-splits window instant [] = ([], refl, tt)
expire-splits window instant (t ∷ ts) = elim (Bool-cases (leb (t + window) instant)) [
  | inr recent ↦ rw recent ([], refl, tt)
  | inl past ↦
      let (old, e, h) = expire-splits window instant ts in
      let le : t + window ≤ instant = ground (arith, past) in
      rw past (t ∷ old, ap (λ us. t ∷ us) e, (le, h))
]

-- the instants at which a key was let in, oldest first
abbrev pub admitted : String → List (String × ℕ) → List ℕ
admitted key [] = []
admitted key ((k, t) ∷ events) = if k == key then t ∷ admitted key events else admitted key events

pub admitted-append :
    (key : String) (xs ys : List (String × ℕ))
    → admitted key (xs ++ ys) ≡ admitted key xs ++ admitted key ys
admitted-append key [] ys = refl
admitted-append key ((k, t) ∷ xs) ys = ground (arith, admitted-append key xs ys)

-- ascending instants
abbrev pub Ascends : List ℕ → Type 0
Ascends [] = Unit
Ascends (t ∷ ts) = All (λ u. t ≤ u) ts × Ascends ts

-- The bucket of a key is what was let in of late.
pub record Tracks (now : ℕ) (key : String) (limiter : SlidingWindowLimiter)
    (history : List (String × ℕ)) : Type 0 where
  pub old : List ℕ
  pub splits : admitted key history ≡ old ++ bucket key limiter
  pub is_old : All (λ t. t + limiter.window ≤ now) old
  pub bounded : length (bucket key limiter) ≤ limiter.limit
  pub ascends : Ascends (bucket key limiter)
  pub is_past : All (λ t. t ≤ now) (bucket key limiter)

pub later :
    (window now instant : ℕ) (ts : List ℕ)
    → now ≤ instant
    → All (λ t. t + window ≤ now) ts
    → All (λ t. t + window ≤ instant) ts
later window now instant [] le h = tt
later window now instant (t ∷ ts) le h =
    (omega (arith, le, h.0), later window now instant ts le h.1)

-- the instants of the window that ends now
abbrev pub in_window : ℕ → ℕ → List ℕ → List ℕ
in_window window now ts = keep (λ t. ltb now (t + window)) ts

pub none_in_window :
    (window now : ℕ) (ts : List ℕ) → All (λ t. t + window ≤ now) ts → in_window window now ts ≡ []
none_in_window window now [] h = refl
none_in_window window now (t ∷ ts) h = ground (arith, h.0, none_in_window window now ts h.1)

pub past_later :
    (now instant : ℕ) (ts : List ℕ)
    → now ≤ instant
    → All (λ t. t ≤ now) ts
    → All (λ t. t ≤ instant) ts
past_later now instant [] le h = tt
past_later now instant (t ∷ ts) le h = (omega (arith, le, h.0), past_later now instant ts le h.1)

pub Ascends-append :
    (ts : List ℕ) (x : ℕ) → Ascends ts → All (λ t. t ≤ x) ts → Ascends (ts ++ x ∷ [])
Ascends-append [] x h le = (tt, tt)
Ascends-append (t ∷ ts) x h le =
    (All-append (λ u. t ≤ u) ts (x ∷ []) h.0 (le.0, tt), Ascends-append ts x h.1 le.1)

pub expire-Ascends :
    (window instant : ℕ) (ts : List ℕ) → Ascends ts → Ascends (expire window instant ts)
unfolding expire
expire-Ascends window instant [] h = tt
expire-Ascends window instant (t ∷ ts) h = elim (Bool-cases (leb (t + window) instant)) [
  | inl past ↦ rw past (expire-Ascends window instant ts h.1)
  | inr recent ↦ rw recent h
]

pub expire-All :
    (P : ℕ → Type 0) (window instant : ℕ) (ts : List ℕ)
    → All P ts
    → All P (expire window instant ts)
unfolding expire
expire-All P window instant [] h = tt
expire-All P window instant (t ∷ ts) h = elim (Bool-cases (leb (t + window) instant)) [
  | inl past ↦ rw past (expire-All P window instant ts h.1)
  | inr recent ↦ rw recent h
]

All-in_window :
    (window instant t : ℕ) (ts : List ℕ)
    → leb (t + window) instant ≡ false
    → All (λ u. t ≤ u) ts
    → in_window window instant ts ≡ ts
All-in_window window instant t [] h le = refl
All-in_window window instant t (u ∷ ts) h le =
    ground (arith, h, le.0, All-in_window window instant t ts h le.1)

-- The loop leaves what lies in the window.
pub expire-in_window :
    (window instant : ℕ) (ts : List ℕ)
    → Ascends ts
    → expire window instant ts ≡ in_window window instant ts
unfolding expire
expire-in_window window instant [] h = refl
expire-in_window window instant (t ∷ ts) h = elim (Bool-cases (leb (t + window) instant)) [
  | inl past ↦ ground (arith, past, expire-in_window window instant ts h.1)
  | inr recent ↦ ground (arith, recent, All-in_window window instant t ts recent h.0)
]

pub bucket-with_bucket :
    (key k : String) (ts : List ℕ) (limiter : SlidingWindowLimiter)
    → bucket k (with_bucket key ts limiter) ≡ (if key == k then ts else bucket k limiter)
unfolding bucket
bucket-with_bucket key k ts limiter = ground (arith, lookup-insert key k ts limiter.requests)
