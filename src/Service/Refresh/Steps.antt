-- ===== src/Service/Refresh/Steps.antt =====
-- The steps of `_refresh_build`, and the whole.
use jenkins_service.Prelude.{
  ℕ, ◌+◌, ◌≡◌, refl, Bool, true, false, Option, none, some, [], ◌∷◌, ◌++◌, if◌then◌else◌,
}
use jenkins_service.Exec.{Result, ok, err, pure, resume, ◌>>=◌}
use jenkins_service.Dict.{lookup}
use jenkins_service.Model.Pipeline.{Status, QueueState, Build, is_active}
use jenkins_service.Service.World.{
  Outside, World, Action, BuildState, QueueStatus, build_status_call, queue_status_call, ask, now,
}
use jenkins_service.Service.Completion.{set_queue_state}
use jenkins_service.Service.Completion.Parts.{set_queue_state-KeepsBuilds}
use jenkins_service.Service.Refresh.{
  Stage, settled, polled, touch, from_queue, resolve_queue, finish, from_state, poll, go_on,
  refresh_build,
}
use jenkins_service.Service.Refresh.{with_status, with_start, start_at, with_completion}
use jenkins_service.Service.Refresh.Kept.{
  Follows, IsKept, Refreshed, saved, touched, touched-IsKept, queued-IsKept, finish-Refreshed,
}

module _ (build : Build) where
  abbrev Staged : Result Stage × World → Type 0
  Staged (ok (settled build'), w) = IsKept build build' w
  Staged (ok (polled build'), w) = IsKept build build' w
  Staged (err e, w) = (build' : Build) × IsKept build build' w

  queued-Staged :
      (build' : Build) (state : QueueState) (stage : Build → Stage) (w : World)
      → ((v : World) → IsKept build build' v → Staged (ok (stage build'), v))
      → IsKept build build' w
      → Staged ((set_queue_state build' state >>= λ _. pure (stage build')) w)
  queued-Staged build' state stage w staged h =
      let q = set_queue_state-KeepsBuilds build' state w in
      rw q.0 (staged (set_queue_state build' state w).1 (queued-IsKept build build' state w h))

  module _ (o : Outside) where
    -- the same build with another status, number and times
    pub restated-Follows :
        (b : Build) (number : Option ℕ) (status : Status) (started ended : Option ℕ) (updated : ℕ)
        → Follows build b
        → Follows build (record b {
          jenkins_build_number = number;
          updated_at = updated;
          result = record b.result { status = status; started_at = started; completed_at = ended };
        })
    restated-Follows b number status started ended updated h = record {
      id = h.id;
      repository_id = h.repository_id;
      jenkins_job = h.jenkins_job;
      queue_item_id = h.queue_item_id;
      created_at = h.created_at;
      repository = h.repository;
      commit_sha = h.commit_sha;
      pull_request = h.pull_request;
    }

    -- a build that has started
    started-Follows :
        (b : Build) (time : ℕ)
        → Follows build b
        → Follows build (record b { result = record b.result { started_at = some time } })
    started-Follows b time h =
        restated-Follows b b.jenkins_build_number b.result.status (some time) b.result.completed_at
          b.updated_at h

    running-Follows : (b : Build) → Follows build b → Follows build (with_status Status.running b)
    running-Follows b h =
        restated-Follows b b.jenkins_build_number Status.running b.result.started_at
          b.result.completed_at b.updated_at h

    from_state-Refreshed :
        (b : Build) (number : ℕ) (state : Option BuildState) (w : World)
        → IsKept build b w
        → Refreshed build (from_state o b number state w)
    unfolding touch
    from_state-Refreshed b number none w kept = kept
    from_state-Refreshed b number (some state) w kept = by_time state.timestamp
      where
        next : Build → Action Build
        next started =
            if state.building
            then touch o (with_status Status.running started)
            else finish o started number state

        by_building :
            (started : Build) (building : Bool)
            → Follows build started
            → Refreshed build (
                (if building
                    then touch o (with_status Status.running started)
                    else finish o started number state)
                  w)
        by_building started true follows =
            touched-IsKept build o (with_status Status.running started) w
              (running-Follows started follows)
        by_building started false follows =
            finish-Refreshed build o started b number state w follows kept

        started : (r : Result ℕ) → Refreshed build (resume next (start_at b r) w)
        started (ok time) =
            by_building (record b { result = record b.result { started_at = some time } })
              state.building (started-Follows b time kept.follows)
        started (err e) = (b, kept)

        by_time : (t : Option ℕ) → Refreshed build (resume next (with_start o t b) w)
        by_time none = by_building b state.building kept.follows
        by_time (some ms) = started (o.from_timestamp ms)

    poll-Refreshed : (b : Build) (w : World) → IsKept build b w → Refreshed build (poll o b w)
    unfolding poll
    poll-Refreshed b w kept = by_number b.jenkins_build_number
      where
        answered :
            (number : ℕ) (v : World) (r : Result (Option BuildState))
            → IsKept build b v
            → Refreshed build (resume (λ state. from_state o b number state) r v)
        answered number v (ok state) h = from_state-Refreshed b number state v h
        answered number v (err e) h = (b, h)

        by_number :
            (n : Option ℕ)
            → Refreshed build (
                (elim n as (λ n. Action Build) [
                  | none ↦ pure b
                  | some number ↦
                      ask
                        (build_status_call b.jenkins_job number)
                        (λ calls. o.state_answer calls b.jenkins_job number)
                      >>= λ state. from_state o b number state
                ])
                  w)
        by_number none = kept
        by_number (some number) =
            answered number
              (record w { calls = w.calls ++ build_status_call b.jenkins_job number ∷ [] })
              (o.state_answer w.calls b.jenkins_job number)
              (record { stored = kept.stored; follows = kept.follows })

    -- what the queue answers
    from_queue-Staged :
        (b : Build) (status : Option QueueStatus) (w : World)
        → IsKept build b w
        → Staged (from_queue o b status w)
    unfolding touch
    from_queue-Staged b none w kept = kept
    from_queue-Staged b (some status) w kept = by_cancelled status.cancelled
      where
        numbered : ℕ → Build
        numbered number = record (with_status Status.running b) {
          jenkins_build_number = some number;
        }

        by_number :
            (n : Option ℕ)
            → Staged (
                (elim n as (λ n. Action Stage) [
                  | none ↦ pure (polled b)
                  | some number ↦
                      touch o (record (with_status Status.running b) {
                        jenkins_build_number = some number;
                      })
                      >>= λ build'.
                          set_queue_state build' QueueState.started >>= λ _. pure (polled build')
                ])
                  w)
        by_number none = kept
        by_number (some number) =
            queued-Staged (touched build o (numbered number) w) QueueState.started polled
              (saved build (touched build o (numbered number) w) w) (λ v h. h)
              (touched-IsKept build o (numbered number) w (
                restated-Follows b (some number) Status.running b.result.started_at
                  b.result.completed_at b.updated_at kept.follows))

        by_cancelled :
            (cancelled : Bool)
            → Staged (
                (if cancelled
                    then (now o >>= λ completed.
                        touch o (with_completion completed (with_status Status.cancelled b))
                        >>= λ build'. set_queue_state build' QueueState.cancelled >>= λ _.
                            pure (settled build'))
                    else elim status.number [
                      | none ↦ pure (polled b)
                      | some number ↦
                          touch o (record (with_status Status.running b) {
                            jenkins_build_number = some number;
                          })
                          >>= λ build'. set_queue_state build' QueueState.started >>= λ _.
                              pure (polled build')
                    ])
                  w)
        by_cancelled true =
            let v : World = record w { times = w.times + 1 } in
            let b' = with_completion (o.clock w.times) (with_status Status.cancelled b) in
            queued-Staged (touched build o b' v) QueueState.cancelled settled
              (saved build (touched build o b' v) v) (λ v h. h)
              (touched-IsKept build o b' v (
                restated-Follows b b.jenkins_build_number Status.cancelled b.result.started_at
                  (some (o.clock w.times)) b.updated_at kept.follows))
        by_cancelled false = by_number status.number

    resolve_queue-Staged : (b : Build) (w : World) → IsKept build b w → Staged (resolve_queue o b w)
    unfolding resolve_queue
    resolve_queue-Staged b w kept = by_number b.jenkins_build_number
      where
        answered :
            (v : World) (r : Result (Option QueueStatus))
            → IsKept build b v
            → Staged (resume (λ status. from_queue o b status) r v)
        answered v (ok status) h = from_queue-Staged b status v h
        answered v (err e) h = (b, h)

        by_queue :
            (q : Option ℕ)
            → Staged (
                (elim q as (λ q. Action Stage) [
                  | none ↦ pure (polled b)
                  | some id ↦
                      ask (queue_status_call id) (λ calls. o.queue_answer calls id) >>= λ status.
                      from_queue o b status
                ])
                  w)
        by_queue none = kept
        by_queue (some id) =
            answered (record w { calls = w.calls ++ queue_status_call id ∷ [] })
              (o.queue_answer w.calls id) (record { stored = kept.stored; follows = kept.follows })

        by_number :
            (n : Option ℕ)
            → Staged (
                (elim n as (λ n. Action Stage) [
                  | some number ↦ pure (polled b)
                  | none ↦ elim b.jenkins_queue_id [
                    | none ↦ pure (polled b)
                    | some id ↦
                        ask (queue_status_call id) (λ calls. o.queue_answer calls id) >>= λ status.
                        from_queue o b status
                  ]
                ])
                  w)
        by_number (some number) = kept
        by_number none = by_queue b.jenkins_queue_id

module _ (o : Outside) (build : Build) where
  Staged-Refreshed :
      (r : Result Stage) (w : World) → Staged build (r, w) → Refreshed build (resume (go_on o) r w)
  Staged-Refreshed (ok (settled b)) w h = h
  Staged-Refreshed (ok (polled b)) w h = poll-Refreshed build o b w h
  Staged-Refreshed (err e) w h = h

  -- The refresh of a stored build answers the same build, in the same queue entry, job and
  -- repository and of the same commit and pull request, and what it answers is stored. Where it
  -- raises, the stored build is still the same build.
  pub refresh_build-Refreshed :
      (w : World)
      → lookup build.id w.store.builds ≡ some build
      → Refreshed build (refresh_build o build w)
  unfolding refresh_build
  refresh_build-Refreshed w stored = by_activity (is_active build.result.status)
    where
      kept : IsKept build build w
      kept = record {
        stored = stored;
        follows = record {
          id = refl;
          repository_id = refl;
          jenkins_job = refl;
          queue_item_id = refl;
          created_at = refl;
          repository = refl;
          commit_sha = refl;
          pull_request = refl;
        };
      }

      by_activity :
          (active : Bool)
          → Refreshed build ((if active then (resolve_queue o build >>= go_on o) else pure build) w)
      by_activity false = kept
      by_activity true =
          let (r, v) = resolve_queue o build w in
          Staged-Refreshed r v (resolve_queue-Staged build o build w kept)
