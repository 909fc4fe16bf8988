-- ===== src/Service/Refresh/Cancel.antt =====
-- What a cancellation does, on every branch.
use jenkins_service.Prelude.{ℕ, ◌+◌, ◌≡◌, refl, ◌∙◌, true, Option, none, some, List, [], ◌∷◌, ◌++◌}
use jenkins_service.Exec.{value_error, Result, ok, err, pure, raise, resume, ◌>>=◌, ◌>>◌}
use jenkins_service.Dict.{lookup}
use jenkins_service.Model.Json.{end}
use jenkins_service.Model.Scope.{Principal}
use jenkins_service.Model.Pipeline.{Status, QueueState, Build}
use jenkins_service.Model.Audit.{AuditOutcome}
use jenkins_service.Model.Requests.{OperationAccepted}
use jenkins_service.Store
use jenkins_service.Store.{Store}
use jenkins_service.Service.World
use jenkins_service.Service.World.{
  Outside, World, Action, Call, cancel_call, cancel_queue_call, tell, now, audit,
}
use jenkins_service.Service.Completion.{set_queue_state}
use jenkins_service.Service.Completion.Parts.{set_queue_state-KeepsBuilds}
use jenkins_service.Service.Refresh.{
  with_status, with_completion, touch, refresh_build, send_cancel, cancel_pipeline,
}
use jenkins_service.Service.Refresh.Kept.{
  Follows, IsKept, Refreshed, saved, touched, touched-IsKept, queued-IsKept,
}
use jenkins_service.Service.Refresh.Steps.{restated-Follows, refresh_build-Refreshed}

-- The call cancels the build of the number in its job, or where it has no number its entry in the
-- queue of Jenkins.
abbrev pub IsCancel : Build → Call → Type 0
IsCancel build (cancel_call job number) =
    (job ≡ build.jenkins_job) × (build.jenkins_build_number ≡ some number)
IsCancel build (cancel_queue_call id) =
    (build.jenkins_build_number ≡ none) × (build.jenkins_queue_id ≡ some id)
IsCancel build _ = ⊥

module _ (o : Outside) (principal : Principal) (build : Build) where
  -- Jenkins has answered a call that cancels the build given, and no call was made since.
  pub record IsAnswered (final : Build) (w : World) : Type 0 where
    pub before : List Call
    pub call : Call
    pub calls : w.calls ≡ before ++ call ∷ []
    pub is_cancel : IsCancel final call
    pub answered : o.unit_answer before call ≡ ok tt

  abbrev pub Cancels : Result OperationAccepted × World → Type 0
  Cancels (ok accepted, w) =
      (final : Build) × IsKept build final w
      × (final.result.status ≡ Status.cancelled)
      × (accepted.id ≡ build.id)
      × IsAnswered final w
  Cancels (err e, w) = (final : Build) × IsKept build final w

  -- the part behind the call
  abbrev close : Build → Action OperationAccepted
  close current = do
    completed ← now o
    build' ← touch o (with_completion completed (with_status Status.cancelled current))
    set_queue_state build' QueueState.cancelled
    audit o principal "cancel_pipeline" build'.id AuditOutcome.succeeded end
    pure (record { accepted = true; id = build'.id; detail = "cancellation requested" })

  close-Cancels :
      (current : Build) (w : World)
      → Follows build current
      → IsAnswered current w
      → Cancels (close current w)
  unfolding touch World.audit
  close-Cancels current w h answered =
      let v : World = record w { times = w.times + 1 } in
      let b' = with_completion (o.clock w.times) (with_status Status.cancelled current) in
      let final = touched build o b' v in
      let q = set_queue_state-KeepsBuilds final QueueState.cancelled (saved build final v) in
      let kept = queued-IsKept build final QueueState.cancelled (saved build final v) (
        touched-IsKept build o b' v (
          restated-Follows build o current current.jenkins_build_number Status.cancelled
            current.result.started_at (some (o.clock w.times)) current.updated_at h)) in
      rw q.0 (
        final,
        record { stored = kept.stored; follows = kept.follows },
        refl,
        h.id,
        record {
          before = answered.before;
          call = answered.call;
          calls = q.1.calls ∙ answered.calls;
          is_cancel = answered.is_cancel;
          answered = answered.answered;
        },
      )

  -- the call and what follows it
  sent-Cancels :
      (current : Build) (w : World)
      → IsKept build current w
      → Cancels ((send_cancel o current >>= λ _. close current) w)
  sent-Cancels current w kept = by_number current.jenkins_build_number refl
    where
      after : Call → World
      after call = record w { calls = w.calls ++ call ∷ [] }

      answered :
          (call : Call) (r : Result (Unit {0}))
          → IsCancel current call
          → o.unit_answer w.calls call ≡ r
          → Cancels (resume (λ _. close current) r (after call))
      answered call (ok u) is_cancel e = close-Cancels current (after call) kept.follows (record {
        before = w.calls;
        call = call;
        calls = refl;
        is_cancel = is_cancel;
        answered = e;
      })
      answered call (err e') is_cancel e =
          (current, record { stored = kept.stored; follows = kept.follows })

      by_queue :
          (q : Option ℕ)
          → current.jenkins_build_number ≡ none
          → current.jenkins_queue_id ≡ q
          → Cancels (
              ((elim q as (λ q. Action Unit) [
                | none ↦ raise (value_error "build has no Jenkins queue or build identifier")
                | some id ↦ tell o (cancel_queue_call id)
              ])
                  >>= λ _. close current)
                w)
      by_queue none none_given e = (current, kept)
      by_queue (some id) no_number e =
          answered (cancel_queue_call id) (o.unit_answer w.calls (cancel_queue_call id))
            (no_number, e) refl

      by_number :
          (n : Option ℕ)
          → current.jenkins_build_number ≡ n
          → Cancels (
              ((elim n as (λ n. Action Unit) [
                | some number ↦ tell o (cancel_call current.jenkins_job number)
                | none ↦ elim current.jenkins_queue_id [
                  | none ↦ raise (value_error "build has no Jenkins queue or build identifier")
                  | some id ↦ tell o (cancel_queue_call id)
                ]
              ])
                  >>= λ _. close current)
                w)
      by_number none e = by_queue current.jenkins_queue_id e refl
      by_number (some number) e =
          answered (cancel_call current.jenkins_job number)
            (o.unit_answer w.calls (cancel_call current.jenkins_job number)) (refl, e) refl

  Refreshed-Cancels :
      (r : Result Build) (w : World)
      → Refreshed build (r, w)
      → Cancels (resume (λ current. send_cancel o current >>= λ _. close current) r w)
  Refreshed-Cancels (ok current) w h = sent-Cancels current w h
  Refreshed-Cancels (err e) w h = h

  -- A cancellation that is accepted has made a call that cancels the build that is stored at the end
  -- (in its job by its number, or where it has none by its id in the queue), which Jenkins has
  -- answered and behind which no other call was made, and this build is stored as cancelled. One
  -- that raises leaves a stored build that is still the same build. The build is stored under
  -- its own id.
  pub cancel_pipeline-Cancels :
      (w : World)
      → lookup build.id w.store.builds ≡ some build
      → Cancels (cancel_pipeline o principal build.id w)
  unfolding cancel_pipeline Store.get_build
  cancel_pipeline-Cancels w stored =
      let (r, v) = refresh_build o build w in
      rw stored (Refreshed-Cancels r v (refresh_build-Refreshed o build w stored))
