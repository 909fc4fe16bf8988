-- ===== src/Service/AiReview/Calls.antt =====
-- Which calls a review makes.
use jenkins_service.Prelude.{
  ap, ◌⊎◌, List, [], ◌∷◌, none, ℕ, String, ◌≡◌, refl, Bool, true, false, not, Option, some, is_some,
  if◌then◌else◌, Bool-cases, Option-cases, inl, inr, ◌||◌, ◌+◌, ◌∙◌, ◌==◌, arith,
}
use jenkins_service.Exec.{Result, ok, err, pure, resume}
use jenkins_service.Model.Json.{Fields, get}
use jenkins_service.Model.Scope.{Principal}
use jenkins_service.Model.Review.{AiReviewLog}
use jenkins_service.Model.Extension.{RunStatus, ExtensionOutput, ExtensionRun}
use jenkins_service.Model.Requests.{BuildCompletion}
use jenkins_service.Store
use jenkins_service.Store.{Store}
use jenkins_service.Service.World
use jenkins_service.Service.World.{
  Outside, World, Action, Call, StatusCall, Comment, BrokerReview, set_status_call, sleep,
  broker_review, create_review_call, on_store, now,
}
use jenkins_service.Service.ReviewLog.{attach_review_log}
use jenkins_service.Service.AiReview.Logs.{is_true, was_blocking, new_run}
use jenkins_service.Service.AiReview.Process.{
  is_reviewed, publish, skip_review, carry_out, attach_previous, log_in, repeat, repeated_state,
  is_running, begin, process_ai_review, key,
}

module _ (o : Outside) where
  attach_review_log-calls :
      (run : ExtensionRun) (log : AiReviewLog) (required : Bool) (w : World)
      → (attach_review_log o run log required w).1.calls ≡ w.calls
  unfolding attach_review_log Store.save_extension_run Store.get_build
  attach_review_log-calls run log required w = ground arith

module _ (o : Outside) (principal : Principal) (completion : BuildCompletion) where
  skip_review-calls :
      (run : ExtensionRun) (started : ℕ) (w : World)
      → (skip_review o principal completion run started w).1.calls ≡ w.calls
  unfolding skip_review World.audit
  skip_review-calls run started w = grind (arith, attach_review_log-calls)

  attach_previous-calls :
      (run : ExtensionRun) (w : World)
      → (attach_previous o principal completion run w).1.calls ≡ w.calls
  attach_previous-calls run w = elim (Option-cases run.output) [
    | inl e ↦ ground (arith, e)
    | inr (output, e) ↦ elim (Option-cases output.review_log) [
      | inl empty_ ↦ ground (arith, e, empty_)
      | inr (log, e') ↦ ground (
        arith,
        e,
        e',
        attach_review_log-calls o run (record log { build_id = completion.build_id })
            (is_reviewed completion) w,
      )
    ]
  ]

  -- The first action that the run asked for is marked as blocking.
  abbrev pub Blocks : Option ExtensionOutput → Type 0
  Blocks output =
      (o' : ExtensionOutput) × (action : Fields) × (actions : List Fields) × (output ≡ some o')
      × (o'.requested_github_actions ≡ action ∷ actions)
      × (is_true (get "blocking" action) ≡ true)

  -- The state that a status tells of a run: it is running, or it ended, in a failure or in a review
  -- that does or does not block.
  abbrev pub Tells : RunStatus → Option ExtensionOutput → String → Type 0
  Tells RunStatus.running output state = state ≡ "pending"
  Tells RunStatus.failed output state = state ≡ "failure"
  Tells _ output state =
      (Blocks output × (state ≡ "failure")) ⊎ ((¬ Blocks output) × (state ≡ "success"))

  -- a pause, or the status of the run for the commit of the completion
  abbrev pub IsStatusOf : ExtensionRun → Call → Type 0
  IsStatusOf run (set_status_call call) =
      (call.repository ≡ completion.result.repository)
      × (call.sha ≡ completion.result.commit_sha)
      × (call.context ≡ "jenkinsservice/ai-review")
      × Tells run.status run.output call.state
  IsStatusOf run (sleep ms) = Unit
  IsStatusOf run _ = ⊥

  was_blocking-Blocks :
      (output : Option ExtensionOutput) → was_blocking output ≡ true → Blocks output
  unfolding was_blocking
  was_blocking-Blocks none h = absurd (cc h)
  was_blocking-Blocks (some output) h = first output.requested_github_actions refl h
    where
      first :
          (actions : List Fields)
          → output.requested_github_actions ≡ actions
          → (elim actions [ [] ↦ false | action ∷ actions ↦ is_true (get "blocking" action) ])
            ≡ true
          → Blocks (some output)
      first [] e h = absurd (cc h)
      first (action ∷ actions) e h = (output, action, actions, refl, e, h)

  Blocks-was_blocking :
      (output : Option ExtensionOutput) → Blocks output → was_blocking output ≡ true
  unfolding was_blocking
  Blocks-was_blocking output (o', action, actions, e, e', h) =
      ap was_blocking e
      ∙ (ap (λ l. elim l [ [] ↦ false | action ∷ actions ↦ is_true (get "blocking" action) ]) e'
          ∙ h)

  -- the state of a run that has ended and has not failed
  ended :
      (output : Option ExtensionOutput)
      → (Blocks output × (repeated_state RunStatus.succeeded (was_blocking output) ≡ "failure"))
        ⊎ ((¬ Blocks output)
            × (repeated_state RunStatus.succeeded (was_blocking output) ≡ "success"))
  ended output = elim (Bool-cases (was_blocking output)) [
    | inl blocks ↦ inl (was_blocking-Blocks output blocks, rw blocks refl)
    | inr other ↦ inr (λ b. absurd (cc (other, Blocks-was_blocking output b)), rw other refl)
  ]

  module _ (run : ExtensionRun) where
    abbrev state : String
    state = repeated_state run.status (was_blocking run.output)

    abbrev publish_again : Action Bool
    publish_again = publish o principal completion state "Deduplicated critical-only AI review"

  carry_out-calls :
      (run : ExtensionRun) (started : ℕ) (prerequisite_error : Option String) (w : World)
      → is_reviewed completion ≡ false
      → (carry_out o principal completion run started prerequisite_error w).1.calls ≡ w.calls
  unfolding carry_out
  carry_out-calls run started prerequisite_error w other =
      ground (arith, other, skip_review-calls run started w)

  module _ (prerequisite_error : Option String) (w : World)
      (other : is_reviewed completion ≡ false) where
    begun :
        (id : String) (started : ℕ) (r : Result ExtensionRun) (v : World)
        → v.calls ≡ w.calls
        → (resume
            (λ stored.
              if stored.id == id
              then carry_out o principal completion stored started prerequisite_error
              else if not (is_running stored.status) || is_some (log_in stored)
              then pure tt
              else carry_out o principal completion stored stored.created_at prerequisite_error)
            r
            v).1.calls
          ≡ w.calls
    begun id started (err e) v same = same
    begun id started (ok stored) v same = elim (Bool-cases (stored.id == id)) [
      | inl mine ↦ rw mine (carry_out-calls stored started prerequisite_error v other ∙ same)
      | inr theirs ↦ elim (Bool-cases (not (is_running stored.status) || is_some (log_in stored))) [
        | inl done ↦ rw (theirs, done) same
        | inr open_ ↦
            rw (theirs, open_)
              (carry_out-calls stored stored.created_at prerequisite_error v other ∙ same)
      ]
    ]

    begin-calls : (begin o principal completion prerequisite_error w).1.calls ≡ w.calls
    unfolding begin
    begin-calls =
        let v : World = record w { ids = w.ids + 1; times = w.times + 1 + 1 } in
        let (r, u) =
          on_store
            (Store.save_extension_run
              (new_run o completion.result (o.uuid w.ids) (o.clock (w.times + 1))))
            v in
        begun (o.uuid w.ids) (o.clock w.times) r u refl

    repeated :
        (run : ExtensionRun) (r : Result (Unit {0})) (v : World)
        → v.calls ≡ w.calls
        → (resume
            (λ _.
              if is_running run.status
              then carry_out o principal completion run run.created_at prerequisite_error
              else pure tt)
            r
            v).1.calls
          ≡ w.calls
    repeated run (err e) v same = same
    repeated run (ok u) v same = elim (Bool-cases (is_running run.status)) [
      | inl running ↦
          rw running (carry_out-calls run run.created_at prerequisite_error v other ∙ same)
      | inr ended ↦ rw ended same
    ]

    repeat-calls :
        (run : ExtensionRun)
        → (repeat o principal completion run prerequisite_error w).1.calls ≡ w.calls
    unfolding repeat
    repeat-calls run =
        let (r, v) = attach_previous o principal completion run w in
        rw other (repeated run r v (attach_previous-calls run w))

  -- A completion that is not to be reviewed, by its policy or for want of a pull request, leads to
  -- no call at all, whatever was stored before.
  pub process_ai_review-skips :
      (prerequisite_error : Option String) (w : World)
      → is_reviewed completion ≡ false
      → (process_ai_review o principal completion prerequisite_error w).1.calls ≡ w.calls
  unfolding process_ai_review
  process_ai_review-skips prerequisite_error w other =
      elim (Option-cases (Store.get_extension_run_by_key (key o principal completion) w.store)) [
        | inl e ↦ rw e (begin-calls prerequisite_error w other)
        | inr (run, e) ↦ rw e (repeat-calls prerequisite_error w other run)
      ]
