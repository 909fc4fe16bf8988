-- ===== src/Security/Rate.antt =====
-- What the limiter answers, after any requests.
use jenkins_service.Prelude.{
  ℕ, ◌+◌, ◌≤◌, String, ◌≡◌, refl, sym, ap, ◌∙◌, false, List, [], ◌∷◌, ◌++◌, ◌==◌, eq_iff, eq_refl,
  length, length-append, All, All-append, leb, if◌then◌else◌, Bool-cases, inl, inr, arith,
}
use mathlib.Core.Path.{subst}
use mathlib.Core.List.{append_assoc, append-nil}
use jenkins_service.Security.Limiter.{SlidingWindowLimiter, bucket, expire, allow, with_bucket}
use jenkins_service.Security.Window.{
  expire-splits, admitted, admitted-append, Tracks, later, past_later, Ascends-append,
  expire-Ascends, expire-All, bucket-with_bucket, Ascends,
}

-- the limiter and the history behind a request
unfoldable pub behind :
    String → ℕ → SlidingWindowLimiter × List (String × ℕ) → SlidingWindowLimiter × List (String × ℕ)
behind key instant (limiter, history) =
    let (answer, limiter') = allow key instant limiter in
    (limiter', if answer then history ++ (key, instant) ∷ [] else history)

-- Requests, in order: the limiter behind them, and those that it let in added to the history.
unfoldable pub serve :
    List (String × ℕ)
    → SlidingWindowLimiter × List (String × ℕ)
    → SlidingWindowLimiter × List (String × ℕ)
unfolding behind
serve [] s = s
serve ((key, instant) ∷ requests) s = serve requests (behind key instant s)

-- The instants do not decrease, and none is before `now`.
abbrev pub IsOrdered : ℕ → List (String × ℕ) → Type 0
IsOrdered now [] = Unit
IsOrdered now ((key, instant) ∷ requests) = (now ≤ instant) × IsOrdered instant requests

abbrev pub last_instant : ℕ → List (String × ℕ) → ℕ
last_instant now [] = now
last_instant now ((key, instant) ∷ requests) = last_instant instant requests

module _ (key : String) (instant now : ℕ) (le : now ≤ instant) (limiter : SlidingWindowLimiter)
    (history : List (String × ℕ)) where
  abbrev recent : List ℕ
  recent = expire limiter.window instant (bucket key limiter)

  -- a bucket that is told by another text
  retold :
      (k : String) (ts b old : List ℕ) (history' : List (String × ℕ))
      → bucket k (with_bucket key ts limiter) ≡ b
      → admitted k history' ≡ old ++ b
      → All (λ t. t + limiter.window ≤ instant) old
      → length b ≤ limiter.limit
      → Ascends b
      → All (λ t. t ≤ instant) b
      → Tracks instant k (with_bucket key ts limiter) history'
  retold k ts b old history' e splits is_old bounded ascends is_past = record {
    old = old;
    splits = splits ∙ ap (λ x. old ++ x) (sym e);
    is_old = is_old;
    bounded = subst (λ x. length x ≤ limiter.limit) (sym e) bounded;
    ascends = subst Ascends (sym e) ascends;
    is_past = subst (λ x. All (λ t. t ≤ instant) x) (sym e) is_past;
  }

  -- a request of another key
  other-Tracks :
      (k : String)
      → (key == k) ≡ false
      → Tracks now k limiter history
      → Tracks instant k
          (behind key instant (limiter, history)).0
          (behind key instant (limiter, history)).1
  unfolding behind allow
  other-Tracks k other h = elim (Bool-cases (leb limiter.limit (length recent))) [
    | inl full ↦ rw full (
        retold k recent (bucket k limiter) h.old history
          (bucket-with_bucket key k recent limiter ∙ rw other refl) h.splits
          (later limiter.window now instant h.old le h.is_old) h.bounded h.ascends
          (past_later now instant (bucket k limiter) le h.is_past))
    | inr free ↦ rw free (
        retold k (recent ++ instant ∷ []) (bucket k limiter) h.old (history ++ (key, instant) ∷ [])
          (bucket-with_bucket key k (recent ++ instant ∷ []) limiter ∙ rw other refl)
          (admitted-append k history ((key, instant) ∷ [])
            ∙ (rw other (append-nil (admitted k history)) ∙ h.splits))
          (later limiter.window now instant h.old le h.is_old) h.bounded h.ascends
          (past_later now instant (bucket k limiter) le h.is_past))
  ]

  -- a request of the key itself
  own-Tracks :
      Tracks now key limiter history
      → Tracks instant key
          (behind key instant (limiter, history)).0
          (behind key instant (limiter, history)).1
  unfolding behind allow
  own-Tracks h =
      let (gone, e, is_old) = expire-splits limiter.window instant (bucket key limiter) in
      let old =
        All-append (λ t. t + limiter.window ≤ instant) h.old gone
          (later limiter.window now instant h.old le h.is_old) is_old in
      let splits : admitted key history ≡ (h.old ++ gone) ++ recent =
        h.splits ∙ (ap (λ x. h.old ++ x) e ∙ simp append_assoc) in
      let ascends = expire-Ascends limiter.window instant (bucket key limiter) h.ascends in
      let past =
        expire-All (λ t. t ≤ instant) limiter.window instant (bucket key limiter)
          (past_later now instant (bucket key limiter) le h.is_past) in
      let sizes : length (bucket key limiter) ≡ length gone + length recent =
        ap length e ∙ length-append gone recent in
      elim (Bool-cases (leb limiter.limit (length recent))) [
        | inl full ↦ rw full (
            retold key recent recent (h.old ++ gone) history
              (bucket-with_bucket key key recent limiter ∙ simp eq_refl) splits old
              (omega (arith, sizes, h.bounded)) ascends past)
        | inr free ↦
            let room : length recent + 1 ≤ limiter.limit = ground (arith, free) in
            rw free (
              retold key (recent ++ instant ∷ []) (recent ++ instant ∷ []) (h.old ++ gone)
                (history ++ (key, instant) ∷ [])
                (bucket-with_bucket key key (recent ++ instant ∷ []) limiter ∙ simp eq_refl)
                (admitted-append key history ((key, instant) ∷ [])
                  ∙ rw splits (simp (eq_refl, append_assoc)))
                old (omega (arith, room, length-append recent (instant ∷ [])))
                (Ascends-append recent instant ascends past)
                (All-append (λ t. t ≤ instant) recent (instant ∷ []) past (omega arith, tt)))
      ]

  pub behind-Tracks :
      ((k : String) → Tracks now k limiter history)
      → (k : String)
      → Tracks instant k
          (behind key instant (limiter, history)).0
          (behind key instant (limiter, history)).1
  behind-Tracks h k = elim (Bool-cases (key == k)) [
    | inr other ↦ other-Tracks k other (h k)
    | inl same ↦
        subst
          (λ x.
            Tracks instant x (behind key instant (limiter, history)).0
              (behind key instant (limiter, history)).1)
          ((eq_iff key k).0 same) (own-Tracks (h key))
  ]
