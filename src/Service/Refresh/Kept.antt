-- ===== src/Service/Refresh/Kept.antt =====
-- A refresh keeps what a build is, and stores what it answers.
use jenkins_service.Prelude.{
  ℕ, ◌+◌, String, ◌≡◌, refl, ap, ◌∙◌, Bool, true, false, Option, none, some, [], ◌∷◌, ◌++◌, eq_refl,
  eq_iff, opt_eq, nat_eq, nat_eq_iff, same_lower, lower, text_eq_iff, if◌then◌else◌, arith,
}
use jenkins_service.Exec.{upstream, Result, ok, err, pure, raise, resume, ◌>>=◌}
use jenkins_service.Dict.{lookup, insert, lookup-insert}
use jenkins_service.Model.Pipeline.{QueueState, PipelineResult, Build, queue_state_of}
use jenkins_service.Store.{Store}
use jenkins_service.Service.World.{Outside, World, Action, BuildState, pipeline_result_call}
use jenkins_service.Service.Completion.{set_queue_state}
use jenkins_service.Service.Completion.Parts.{set_queue_state-KeepsBuilds}
use jenkins_service.Service.Refresh.{is_other_identity, touch, take_result, finish}

-- The same build, further on: its entry in the queue, its job and its identity are the same.
pub record Follows (build build' : Build) : Type 0 where
  pub id : build'.id ≡ build.id
  pub repository_id : build'.repository_id ≡ build.repository_id
  pub jenkins_job : build'.jenkins_job ≡ build.jenkins_job
  pub queue_item_id : build'.queue_item_id ≡ build.queue_item_id
  pub created_at : build'.created_at ≡ build.created_at
  pub repository : build'.result.repository ≡ build.result.repository
  pub commit_sha : lower build'.result.commit_sha ≡ lower build.result.commit_sha
  pub pull_request : build'.result.pull_request ≡ build.result.pull_request

equal_numbers : (a b : Option ℕ) → opt_eq nat_eq a b ≡ true → a ≡ b
equal_numbers none none h = refl
equal_numbers none (some b) h = absurd (cc h)
equal_numbers (some a) none h = absurd (cc h)
equal_numbers (some a) (some b) h = ap some ((nat_eq_iff a b).0 h)

same_identity :
    (result : PipelineResult) (build : Build)
    → is_other_identity result build ≡ false
    → (result.repository ≡ build.result.repository)
      × (lower result.commit_sha ≡ lower build.result.commit_sha)
      × (result.pull_request ≡ build.result.pull_request)
unfolding is_other_identity same_lower
same_identity result build h = ground (
  arith,
  h,
  eq_iff result.repository build.result.repository,
  text_eq_iff (lower result.commit_sha) (lower build.result.commit_sha),
  equal_numbers result.pull_request build.result.pull_request,
)

module _ (build : Build) where
  -- `build'` is stored as the build
  pub record IsKept (build' : Build) (w : World) : Type 0 where
    pub stored : lookup build.id w.store.builds ≡ some build'
    pub follows : Follows build build'

  abbrev pub Refreshed : Result Build × World → Type 0
  Refreshed (ok build', w) = IsKept build' w
  Refreshed (err e, w) = (build' : Build) × IsKept build' w

  -- the world behind a save of the build
  abbrev pub saved : Build → World → World
  saved build' w = record w {
    store = record w.store { builds = insert build'.id build' w.store.builds };
    times = w.times + 1;
  }

  saved-IsKept :
      (build' : Build) (w : World) → Follows build build' → IsKept build' (saved build' w)
  saved-IsKept build' w h = record {
    stored =
        rw (lookup-insert build'.id build.id build' w.store.builds, h.id, eq_refl build.id) refl;
    follows = h;
  }

  pub queued-IsKept :
      (build' : Build) (state : QueueState) (w : World)
      → IsKept build' w
      → IsKept build' (set_queue_state build' state w).1
  queued-IsKept build' state w h =
      let q = set_queue_state-KeepsBuilds build' state w in
      record { stored = ap (lookup build.id) q.1.builds ∙ h.stored; follows = h.follows }

  pub queued-Refreshed :
      (build' : Build) (state : QueueState) (w : World)
      → IsKept build' w
      → Refreshed ((set_queue_state build' state >>= λ _. pure build') w)
  queued-Refreshed build' state w h =
      let q = set_queue_state-KeepsBuilds build' state w in rw q.0 (queued-IsKept build' state w h)

  module _ (o : Outside) where
    -- the world behind a touch
    abbrev pub touched : Build → World → Build
    touched build' w = record build' { updated_at = o.clock w.times }

    touched-Follows :
        (build' : Build) (w : World) → Follows build build' → Follows build (touched build' w)
    touched-Follows build' w h = record {
      id = h.id;
      repository_id = h.repository_id;
      jenkins_job = h.jenkins_job;
      queue_item_id = h.queue_item_id;
      created_at = h.created_at;
      repository = h.repository;
      commit_sha = h.commit_sha;
      pull_request = h.pull_request;
    }

    pub touched-IsKept :
        (build' : Build) (w : World)
        → Follows build build'
        → IsKept (touched build' w) (saved (touched build' w) w)
    touched-IsKept build' w h = saved-IsKept (touched build' w) w (touched-Follows build' w h)

    abbrev Taken : World → Result Build × World → Type 0
    Taken w (ok b, v) = Follows build b × (v.store ≡ w.store)
    Taken w (err e, v) = v.store ≡ w.store

    text-Taken :
        (build' : Build) (state : BuildState) (text : String) (w : World)
        → Follows build build'
        → Taken w (take_result o build' state (some text) w)
    text-Taken build' state text w h = parsed (o.parse_result text)
      where
        checked :
            (result : PipelineResult) (other : Bool)
            → is_other_identity result build' ≡ other
            → Taken w (
                (if other
                    then raise (upstream "Jenkins PipelineResult identity does not match the build")
                    else pure (record build' { result = result }))
                  w)
        checked result true e = refl
        checked result false e =
            let same = same_identity result build' e in
            (
              record {
                id = h.id;
                repository_id = h.repository_id;
                jenkins_job = h.jenkins_job;
                queue_item_id = h.queue_item_id;
                created_at = h.created_at;
                repository = same.0 ∙ h.repository;
                commit_sha = same.1 ∙ h.commit_sha;
                pull_request = same.2 ∙ h.pull_request;
              },
              refl,
            )

        parsed :
            (p : Option PipelineResult)
            → Taken w (
                (elim p as (λ p. Action Build) [
                  | none ↦ raise (upstream "Jenkins returned an invalid PipelineResult")
                  | some result ↦
                      if is_other_identity result build'
                      then raise
                          (upstream "Jenkins PipelineResult identity does not match the build")
                      else pure (record build' { result = result })
                ])
                  w)
        parsed none = refl
        parsed (some result) = checked result (is_other_identity result build') refl

    take_result-Taken :
        (build' : Build) (state : BuildState) (raw : Option String) (w : World)
        → Follows build build'
        → Taken w (take_result o build' state raw w)
    take_result-Taken build' state none w h = (
      record {
        id = h.id;
        repository_id = h.repository_id;
        jenkins_job = h.jenkins_job;
        queue_item_id = h.queue_item_id;
        created_at = h.created_at;
        repository = h.repository;
        commit_sha = h.commit_sha;
        pull_request = h.pull_request;
      },
      refl,
    )
    take_result-Taken build' state (some text) w h = text-Taken build' state text w h

    -- the end of `finish`, behind the result
    finish_after :
        (r : Result Build) (u v : World) (build' : Build)
        → Taken v (r, u)
        → IsKept build' v
        → Refreshed (
            resume
              (λ b. touch o b >>= λ b'.
                set_queue_state b' (queue_state_of b'.result.status) >>= λ _. pure b')
              r
              u)
    unfolding touch
    finish_after (ok b) u v build' taken kept =
        queued-Refreshed (touched b u) (queue_state_of b.result.status) (saved (touched b u) u)
          (touched-IsKept b u taken.0)
    finish_after (err e) u v build' taken kept = (
      build',
      record {
        stored = ap (λ (s : Store). lookup build.id s.builds) taken ∙ kept.stored;
        follows = kept.follows;
      },
    )

    pub finish-Refreshed :
        (build' old : Build) (number : ℕ) (state : BuildState) (w : World)
        → Follows build build'
        → IsKept old w
        → Refreshed (finish o build' number state w)
    unfolding finish
    finish-Refreshed build' old number state w h kept =
        answered (o.result_answer w.calls build'.jenkins_job number o.max_artifact_bytes)
      where
        v : World
        v = record w {
          calls =
              w.calls ++ pipeline_result_call build'.jenkins_job number o.max_artifact_bytes ∷ [];
        }

        answered :
            (r : Result (Option String))
            → Refreshed (
                resume
                  (λ raw. take_result o build' state raw >>= λ b. touch o b >>= λ b'.
                    set_queue_state b' (queue_state_of b'.result.status) >>= λ _. pure b')
                  r
                  v)
        answered (err e) = (old, record { stored = kept.stored; follows = kept.follows })
        answered (ok raw) =
            let (r, u) = take_result o build' state raw v in
            finish_after r u v old (take_result-Taken build' state raw v h)
              (record { stored = kept.stored; follows = kept.follows })
