-- ===== src/Service/ReviewLog/Once.antt =====
-- A log that is attached again takes the place of the one before.
use jenkins_service.Prelude.{
  ℕ, String, ◌≡◌, refl, Bool, true, false, not, ◌&&◌, List, [], ◌∷◌, ◌++◌, ◌==◌, keep, arith,
  eq_refl, if◌then◌else◌,
}
use jenkins_service.Model.Review.{AiReviewLog, ReviewOutcome}
use jenkins_service.Model.Pipeline.{Status, CheckResult, Artifact, Build}
use jenkins_service.Model.Extension.{ExtensionRun}
use jenkins_service.Service.World.{Outside}
use jenkins_service.Service.ReviewLog.{
  logged_build, review_check, review_artifact, is_failed, ai_review_artifact_path,
}

-- what replaces its like replaces itself
replace_twice :
    {A : Type 0} (p : A → Bool) (x y : A) (xs : List A)
    → p x ≡ false
    → keep p (keep p xs ++ x ∷ []) ++ y ∷ [] ≡ keep p xs ++ y ∷ []
replace_twice p x y [] h = ground (arith, h)
replace_twice p x y (z ∷ xs) h = ground (arith, h, replace_twice p x y xs h)

status_twice :
    (required : Bool) (before after : ReviewOutcome) (status : Status)
    → before ≡ after
    → (if required && is_failed after
        then Status.failed
        else if required && is_failed before
        then Status.failed
        else status)
      ≡ (if required && is_failed after then Status.failed else status)
status_twice required before after status same = rw same (ground arith)

-- what takes the place of its like stands once among them, and the others stay
replace_once :
    {A : Type 0} (q : A → Bool) (y : A) (xs : List A)
    → q y ≡ true
    → (keep q (keep (λ x. not (q x)) xs ++ y ∷ []) ≡ y ∷ [])
      × (keep (λ x. not (q x)) (keep (λ x. not (q x)) xs ++ y ∷ []) ≡ keep (λ x. not (q x)) xs)
replace_once q y [] h = ground (arith, h)
replace_once q y (x ∷ xs) h = ground (arith, h, replace_once q y xs h)

module _ (o : Outside) (build : Build) (run : ExtensionRun) where
  -- Of the entries that pass the test the list has just the one given, and the others are those of
  -- the list before.
  abbrev pub HasOne : {A : Type 0} → (A → Bool) → A → List A → List A → Type 0
  HasOne q x before after =
      (keep q after ≡ x ∷ []) × (keep (λ y. not (q y)) after ≡ keep (λ y. not (q y)) before)

  -- the artifact, the check and the entry of the run, each once and beside the others of the build
  abbrev pub StandsOnce : AiReviewLog → Bool → Build → Type 0
  StandsOnce log required filed =
      HasOne (λ item. item.path == "artifacts/ai-review.json") (review_artifact o build.id log)
        build.result.artifacts filed.result.artifacts
      × HasOne (λ item. item.id == "ai-review") (review_check log required) build.result.checks
          filed.result.checks
      × HasOne (λ item. item == run.id) run.id build.result.extension_runs
          filed.result.extension_runs

  logged_build-StandsOnce :
      (log : AiReviewLog) (required : Bool) (updated : ℕ)
      → StandsOnce log required (logged_build o build run log required updated)
  unfolding logged_build
  logged_build-StandsOnce log required updated = (
    replace_once (λ (item : Artifact). item.path == ai_review_artifact_path)
        (review_artifact o build.id log) build.result.artifacts refl,
    replace_once (λ (item : CheckResult). item.id == "ai-review") (review_check log required)
        build.result.checks refl,
    replace_once (λ (item : String). item == run.id) run.id build.result.extension_runs
        (simp eq_refl),
  )

  logged_build-again :
      (log log' : AiReviewLog) (required : Bool) (before after : ℕ)
      → log.outcome ≡ log'.outcome
      → logged_build o (logged_build o build run log required before) run log' required after
        ≡ logged_build o build run log' required after
  unfolding logged_build
  logged_build-again log log' required before after same =
      let artifacts =
        replace_twice (λ (item : Artifact). not (item.path == ai_review_artifact_path))
          (review_artifact o build.id log) (review_artifact o build.id log') build.result.artifacts
          refl in
      let runs =
        replace_twice (λ (item : String). not (item == run.id)) run.id run.id
          build.result.extension_runs (simp eq_refl) in
      let checks =
        replace_twice (λ (item : CheckResult). not (item.id == "ai-review"))
          (review_check log required) (review_check log' required) build.result.checks refl in
      let status = status_twice required log.outcome log'.outcome build.result.status same in
      rw (artifacts, runs, checks, status) refl

  -- Attaching a log of the same outcome to a build twice, at any two times, leaves the build that
  -- the second attachment alone would leave. In it the artifact of that log, its check and the entry
  -- of the run stand once each, and the other artifacts, checks and entries of the build are kept.
  pub logged_build-twice :
      (log log' : AiReviewLog) (required : Bool) (before after : ℕ)
      → log.outcome ≡ log'.outcome
      → let filed =
          logged_build o (logged_build o build run log required before) run log' required after in
        (filed ≡ logged_build o build run log' required after) × StandsOnce log' required filed
  logged_build-twice log log' required before after same =
      let e = logged_build-again log log' required before after same in
      (e, rw e (logged_build-StandsOnce log' required after))
