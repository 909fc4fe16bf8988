-- ===== src/Service/AiReview/Retries.antt =====
-- How the attempts of a review end.
use jenkins_service.Prelude.{
  ℕ, zero, suc, ◌+◌, ◌*◌, ◌^◌, String, ◌≡◌, refl, Bool, true, false, Option, some, [], ◌∷◌, ◌++◌,
  ltb, Bool-cases, inl, inr,
}
use jenkins_service.Exec.{Error, Result, ok, err}
use jenkins_service.Model.Scope.{Principal}
use jenkins_service.Model.Audit.{AuditRecord, AuditOutcome}
use jenkins_service.Model.Requests.{BuildCompletion}
use jenkins_service.Service.World
use jenkins_service.Service.World.{Outside, World, Action, sleep, pause}
use jenkins_service.Service.AiReview.Process.{
  record_background_failure, process_ai_review, settle_review, review_attempts,
  process_ai_review_with_retry,
}

module _ (o : Outside) (principal : Principal) (completion : BuildCompletion)
    (prerequisite_error : Option String) where
  -- What the attempts come to: never an error.
  abbrev pub Retried : Result Bool × World → Type 0
  Retried (ok true, w) =
      (v : World) × (process_ai_review o principal completion prerequisite_error v ≡ (ok tt, w))
  Retried (ok false, w) =
      (v : World) × (record_ : AuditRecord) × (w.store
        ≡ record v.store { audit = v.store.audit ++ record_ ∷ [] })
      × (record_.action ≡ "ai_review_background")
      × (record_.target ≡ completion.build_id)
      × (record_.outcome ≡ AuditOutcome.failed)
  Retried (err e, w) = ⊥

  settled-Retried :
      (attempts attempt : ℕ) (again : Option Error → Action Bool) (r : Result (Unit {0}))
      (v w : World)
      → process_ai_review o principal completion prerequisite_error v ≡ (r, w)
      → ((e : Error) (u : World) → Retried (again (some e) u))
      → Retried (settle_review o principal completion attempts attempt again r w)
  settled-Retried attempts attempt again (ok u) v w h ih = (v, h)
  settled-Retried attempts attempt again (err e) v w h ih =
      elim (Bool-cases (ltb (attempt + 1) attempts)) [
        | inl more ↦ rw more (ih e (record w { calls = w.calls ++ sleep (250 * 2 ^ attempt) ∷ [] }))
        | inr last ↦ rw last (ih e w)
      ]

  failed-Retried :
      (attempts left attempt : ℕ) (e : Error) (w : World)
      → Retried (
          review_attempts o principal completion prerequisite_error attempts left attempt
            (some e)
            w)
  unfolding review_attempts record_background_failure World.audit
  failed-Retried attempts zero attempt e w = (w, _, refl, refl, refl, refl)
  failed-Retried attempts (suc left) attempt e w =
      let (r, u) = process_ai_review o principal completion prerequisite_error w in
      settled-Retried attempts attempt
        (review_attempts o principal completion prerequisite_error attempts left (suc attempt)) r w
        u refl (failed-Retried attempts left (suc attempt))

  -- With one attempt or more, the retries never raise. They answer true where the last thing done
  -- was a review that ended without an exception, and false where the last thing done was to
  -- record the failure of the build's review.
  pub process_ai_review_with_retry-Retried :
      (more : ℕ) (w : World)
      → Retried
          (process_ai_review_with_retry o principal completion prerequisite_error (suc more) w)
  unfolding process_ai_review_with_retry review_attempts
  process_ai_review_with_retry-Retried more w =
      let (r, u) = process_ai_review o principal completion prerequisite_error w in
      settled-Retried (suc more) 0
        (review_attempts o principal completion prerequisite_error (suc more) more 1) r w u refl
        (failed-Retried (suc more) more 1)
