-- ===== src/Service/Refresh.antt =====
-- service.py: `_refresh_build`, which reconciles a stored build with Jenkins, and `cancel_pipeline`.
pub mod Kept
pub mod Steps
pub mod Cancel
use jenkins_service.Prelude.{
  ℕ, zero, suc, ◌+◌, ◌*◌, String, ◌+++◌, ◌≡◌, refl, Bool, true, false, not, ◌&&◌, ◌||◌, Option,
  none, some, List, [], ◌∷◌, ◌==◌, ◌++◌, map, codes, to_upper, text_eq, opt_eq, nat_eq, same_lower,
  if◌then◌else◌,
}
use jenkins_service.Exec.{
  Exec, Error, lift, value_error, upstream, Result, ok, err, pure, raise, try_catch, ◌>>=◌, ◌>>◌,
}
use jenkins_service.Model.Json.{Json, str, Fields, field, end}
use jenkins_service.Model.Scope.{Principal}
use jenkins_service.Model.Repository.{or_else}
use jenkins_service.Model.Pipeline.{
  Status, QueueState, PipelineResult, Build, is_active, queue_state_of,
}
use jenkins_service.Model.Audit.{AuditOutcome}
use jenkins_service.Model.Requests.{OperationAccepted}
use jenkins_service.Store
use jenkins_service.Store.{Store}
use jenkins_service.Service.World.{
  Outside, World, Action, Call, queue_status_call, build_status_call, pipeline_result_call,
  cancel_queue_call, cancel_call, QueueStatus, BuildState, on_store, ask, tell, now, audit,
}
use jenkins_service.Service.Completion.{set_queue_state}

-- a build on its way: reconciled, or still to be polled
pub data Stage : Type 0 where
  settled polled : Build → Stage

abbrev pub with_status : Status → Build → Build
with_status status build = record build { result = record build.result { status = status } }

abbrev pub with_completion : ℕ → Build → Build
with_completion time build = record build {
  result = record build.result { completed_at = some time };
}

abbrev pub start_at : Build → Result ℕ → Result Build
start_at build (ok time) =
    ok (record build { result = record build.result { started_at = some time } })
start_at build (err e) = err e

-- the time of the start, where there is a timestamp
abbrev pub with_start : Outside → Option ℕ → Build → Result Build
with_start o none build = ok build
with_start o (some ms) build = start_at build (o.from_timestamp ms)

-- `str(state.get("result") or "FAILURE").upper()` and the status that it stands for
unfoldable pub jenkins_status : Option String → Status
unfolding to_upper
jenkins_status result =
    let text = map to_upper (codes (or_else result "FAILURE")) in
    if text_eq text (codes "SUCCESS")
    then Status.passed
    else if text_eq text (codes "ABORTED")
    then Status.cancelled
    else Status.failed

-- the artifact's result names another build
unfoldable pub is_other_identity : PipelineResult → Build → Bool
is_other_identity result build =
    not (result.repository == build.result.repository)
    || not (same_lower result.commit_sha build.result.commit_sha)
    || not (opt_eq nat_eq result.pull_request build.result.pull_request)

module _ (o : Outside) where
  -- `build.updated_at = now_utc(); await self.store.save_build(build)`
  unfoldable pub touch : Build → Action Build
  unfolding Store.save_build
  touch build = do
    updated ← now o
    let build' = record build { updated_at = updated }
    on_store (Store.save_build build')
    pure build'

  -- what the queue of Jenkins says of a build that has no number yet
  abbrev pub from_queue : Build → Option QueueStatus → Action Stage
  from_queue build none = pure (polled build)
  from_queue build (some status) =
      if status.cancelled
      then (do
        completed ← now o
        build' ← touch (with_completion completed (with_status Status.cancelled build))
        set_queue_state build' QueueState.cancelled
        pure (settled build'))
      else elim status.number [
        | none ↦ pure (polled build)
        | some number ↦ do
          build' ←
              touch
                (record (with_status Status.running build) { jenkins_build_number = some number })
          set_queue_state build' QueueState.started
          pure (polled build')
      ]

  unfoldable pub resolve_queue : Build → Action Stage
  resolve_queue build = elim build.jenkins_build_number [
    | some number ↦ pure (polled build)
    | none ↦ elim build.jenkins_queue_id [
      | none ↦ pure (polled build)
      | some id ↦ do
        status ← ask (queue_status_call id) (λ calls. o.queue_answer calls id)
        from_queue build status
    ]
  ]

  -- the result of a finished build: its artifact, or else the state of the Jenkins build
  abbrev pub take_result : Build → BuildState → Option String → Action Build
  take_result build state none = do
    completed ← now o
    pure (with_completion completed (with_status (jenkins_status state.result) build))
  take_result build state (some text) = elim (o.parse_result text) [
    | none ↦ raise (upstream "Jenkins returned an invalid PipelineResult")
    | some result ↦
        if is_other_identity result build
        then raise (upstream "Jenkins PipelineResult identity does not match the build")
        else pure (record build { result = result })
  ]

  unfoldable pub finish : Build → ℕ → BuildState → Action Build
  unfolding touch
  finish build number state = do
    raw ←
        ask (pipeline_result_call build.jenkins_job number o.max_artifact_bytes)
          (λ calls. o.result_answer calls build.jenkins_job number o.max_artifact_bytes)
    finished ← take_result build state raw
    build' ← touch finished
    set_queue_state build' (queue_state_of build'.result.status)
    pure build'

  abbrev pub from_state : Build → ℕ → Option BuildState → Action Build
  from_state build number none = pure build
  from_state build number (some state) = do
    started ← lift (with_start o state.timestamp build)
    if state.building
        then touch (with_status Status.running started)
        else finish started number state

  unfoldable pub poll : Build → Action Build
  poll build = elim build.jenkins_build_number [
    | none ↦ pure build
    | some number ↦ do
      state ←
          ask (build_status_call build.jenkins_job number)
            (λ calls. o.state_answer calls build.jenkins_job number)
      from_state build number state
  ]

  abbrev pub go_on : Stage → Action Build
  go_on (settled build) = pure build
  go_on (polled build) = poll build

  -- `_refresh_build`
  unfoldable pub refresh_build : Build → Action Build
  refresh_build build =
      if is_active build.result.status
      then (do stage ← resolve_queue build; go_on stage)
      else pure build

  -- the call that cancels a build, by what is known of it
  abbrev pub send_cancel : Build → Action Unit
  send_cancel build = elim build.jenkins_build_number [
    | some number ↦ tell o (cancel_call build.jenkins_job number)
    | none ↦ elim build.jenkins_queue_id [
      | none ↦ raise (value_error "build has no Jenkins queue or build identifier")
      | some id ↦ tell o (cancel_queue_call id)
    ]
  ]

  unfoldable pub cancel_pipeline : Principal → String → Action OperationAccepted
  unfolding Store.get_build
  cancel_pipeline principal build_id = do
    stored ← on_store (Store.get_build build_id)
    build ← refresh_build stored
    send_cancel build
    completed ← now o
    build' ← touch (with_completion completed (with_status Status.cancelled build))
    set_queue_state build' QueueState.cancelled
    audit o principal "cancel_pipeline" build'.id AuditOutcome.succeeded end
    pure (record { accepted = true; id = build'.id; detail = "cancellation requested" })

  -- `except UpstreamError: refreshed.append(build)`
  abbrev pub or_stored : Build → Error → Action Build
  or_stored build (upstream message) = pure build
  or_stored build e = raise e

  -- the loop of `builds`
  unfoldable pub refresh_all : List Build → Action (List Build)
  unfolding refresh_build
  refresh_all [] = pure []
  refresh_all (build ∷ builds) = do
    refreshed ← try_catch (refresh_build build) (or_stored build)
    rest ← refresh_all builds
    pure (refreshed ∷ rest)
