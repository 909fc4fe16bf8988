-- ===== src/Service/Completion/Effects.antt =====
-- What a build completion does, on every branch.
use jenkins_service.Prelude.{
  ◌+◌, String, ◌+++◌, ◌≡◌, refl, sym, ◌∙◌, ap, Bool, true, false, Option, none, some, eq_refl,
  is_some, if◌then◌else◌, arith, Bool-cases, inl, inr,
}
use jenkins_service.Exec.{Result, ok, err, upstream, resume, ◌>>◌, ensure}
use jenkins_service.Dict.{lookup, insert, IsKeyed, lookup-insert}
use jenkins_service.Model.Scope.{Principal}
use jenkins_service.Model.Pipeline.{Build, queue_state_of, is_passed, is_terminal}
use jenkins_service.Model.Audit.{WebhookDelivery}
use jenkins_service.Model.Requests.{BuildCompletion}
use jenkins_service.Store.{Store}
use jenkins_service.Service.World
use jenkins_service.Service.World.{Outside, World}
use jenkins_service.Service.Status.{publish_ci_status}
use jenkins_service.Service.Status.Attempts.{
  Published, IsPublished, status_call, publish_ci_status-Published,
}
use jenkins_service.Service.Completion.{
  is_recorded, is_same_identity, status_text, delivery_id, delivery_of, completed,
  record_completion, apply_completion, complete_build,
}
use jenkins_service.Service.Completion.Parts.{is_recorded-eq, set_queue_state-KeepsBuilds}

module _ (o : Outside) (principal : Principal) (completion : BuildCompletion) where
  record_completion_lem :
      (build : Build) (delivery : WebhookDelivery) (v : World)
      → is_some (lookup delivery.delivery_id v.store.webhooks) ≡ false
      → let (r, w') = record_completion o principal completion build delivery v in
        (r ≡ ok true)
        × (w'.calls ≡ v.calls)
        × (w'.store.builds ≡ v.store.builds)
        × (w'.store.webhooks ≡ insert delivery.delivery_id delivery v.store.webhooks)
  unfolding record_completion World.audit
  record_completion_lem build delivery v new = rw new (
      ground (
        arith,
        set_queue_state-KeepsBuilds build (queue_state_of completion.result.status) (record v {
          store = record v.store {
            webhooks = insert delivery.delivery_id delivery v.store.webhooks;
          };
        }),
      ))

  -- the status that reports the result
  abbrev pub native_state : String
  native_state = if is_passed completion.result.status then "success" else "failure"

  abbrev pub native_description : String
  native_description =
      if is_passed completion.result.status
      then "Native Jenkins validation passed"
      else "Native Jenkins validation " +++ status_text completion.result.status

  abbrev NativePublished : String → World → Type 0
  NativePublished build_id w =
      IsPublished o
        (status_call o principal completion.result.repository completion.result.commit_sha
          "jenkinsservice/native-ci" native_state native_description build_id)
        w

  abbrev Applied : Build → WebhookDelivery → World → Result Bool × World → Type 0
  Applied build delivery v (ok true, w') =
      NativePublished build.id w'
      × (lookup build.id w'.store.builds ≡ some (completed build completion (o.clock v.times)))
      × (w'.store.webhooks ≡ insert delivery.delivery_id delivery v.store.webhooks)
  Applied build delivery v (ok false, w') = ⊥
  Applied build delivery v (err e, w') = w'.store.webhooks ≡ v.store.webhooks

  module _ (build : Build) (delivery : WebhookDelivery) (v : World) where
    abbrev saved : World
    saved = record v {
      store = record v.store {
        builds = insert build.id (completed build completion (o.clock v.times)) v.store.builds;
      };
      times = v.times + 1;
    }

    -- behind the publication
    after_publication :
        (r : Result Bool) (w : World)
        → is_some (lookup delivery.delivery_id v.store.webhooks) ≡ false
        → Published o principal completion.result.repository completion.result.commit_sha
            "jenkinsservice/native-ci" native_state native_description build.id saved
            (r, w)
        → Applied build delivery v (
            resume
              (λ published.
                ensure published
                  (upstream "native CI status publication failed after bounded retries")
                >> record_completion o principal completion
                    (completed build completion (o.clock v.times))
                    delivery)
              r
              w)
    after_publication (ok true) w new h =
        let build' = completed build completion (o.clock v.times) in
        let done = record_completion_lem build' delivery w (rw h.1.store new) in
        let (r, w') = record_completion o principal completion build' delivery w in
        applied r w' done
      where
        applied :
            (r : Result Bool) (w' : World)
            → (r ≡ ok true)
              × (w'.calls ≡ w.calls)
              × (w'.store.builds ≡ w.store.builds)
              × (w'.store.webhooks ≡ insert delivery.delivery_id delivery w.store.webhooks)
            → Applied build delivery v (r, w')
        applied (ok true) w' d = (
          (h.0.0, d.1 ∙ h.0.1, h.0.2),
          ap (lookup build.id) (d.2 ∙ ap (λ (s : Store). s.builds) h.1.store)
              ∙ simp (lookup-insert, eq_refl),
          d.3 ∙ ap (λ (s : Store). insert delivery.delivery_id delivery s.webhooks) h.1.store,
        )
        applied (ok false) w' d = absurd (cc (d.0))
        applied (err e) w' d = absurd (cc (d.0))
    after_publication (ok false) w new h = ap (λ (s : Store). s.webhooks) h.2
    after_publication (err e) w new h = ap (λ (s : Store). s.webhooks) h.1.store

    apply_completion-Applied :
        is_some (lookup delivery.delivery_id v.store.webhooks) ≡ false
        → Applied build delivery v (apply_completion o principal completion build delivery v)
    unfolding apply_completion
    apply_completion-Applied new =
        let (r, w) =
          publish_ci_status o principal completion.result.repository completion.result.commit_sha
            "jenkinsservice/native-ci" native_state native_description build.id saved in
        after_publication r w new (
          publish_ci_status-Published o principal completion.result.repository
            completion.result.commit_sha "jenkinsservice/native-ci" native_state native_description
            build.id saved)

  -- What a completion did, by how it ended.
  abbrev pub Completes : World → Result Bool × World → Type 0
  Completes w (ok true, w') =
      (build : Build) × (lookup completion.build_id w.store.builds ≡ some build)
      × (is_same_identity completion.result build ≡ true)
      × (is_terminal completion.result.status ≡ true)
      × (is_some (lookup (delivery_id completion) w.store.webhooks) ≡ false)
      × NativePublished build.id w'
      × (lookup build.id w'.store.builds
          ≡ some (completed build completion (o.clock (w.times + 1))))
      × (w'.store.webhooks
          ≡ insert (delivery_id completion) (delivery_of completion (o.clock w.times))
              w.store.webhooks)
  Completes w (ok false, w') =
      (is_some (lookup (delivery_id completion) w.store.webhooks) ≡ true)
      × (w'.store ≡ w.store)
      × (w'.calls ≡ w.calls)
  Completes w (err e, w') = w'.store.webhooks ≡ w.store.webhooks

  from_Applied :
      (w : World) (build : Build) (r : Result Bool) (w' : World)
      → lookup completion.build_id w.store.builds ≡ some build
      → is_same_identity completion.result build ≡ true
      → is_terminal completion.result.status ≡ true
      → is_some (lookup (delivery_id completion) w.store.webhooks) ≡ false
      → Applied build
          (delivery_of completion (o.clock w.times))
          (record w { times = w.times + 1 })
          (r, w')
      → Completes w (r, w')
  from_Applied w build (ok true) w' e same terminal unseen h =
      (build, e, same, terminal, unseen, h.0, h.1, h.2)
  from_Applied w build (ok false) w' e same terminal unseen h = absurd h
  from_Applied w build (err _) w' e same terminal unseen h = h

  -- A completion that answers true belongs to the stored build of its id, agrees with it on every
  -- identity field, is terminal and was not recorded before; its last call published the native
  -- status that its result asks for, and afterwards the build has the reported result and policy
  -- and the delivery is recorded with the
  -- deliveries there were. One that answers false was recorded before, and changes neither
  -- the store nor makes a call. One that raises leaves the deliveries as they were, so it can be
  -- sent again. The store is one in which deliveries stand under their own ids.
  pub complete_build-Completes :
      (w : World)
      → IsKeyed (λ d. d.delivery_id) w.store.webhooks
      → Completes w (complete_build o principal completion w)
  unfolding complete_build
  complete_build-Completes w keyed = by_build (lookup completion.build_id w.store.builds) refl
    where
      by_build :
          (found : Option Build)
          → lookup completion.build_id w.store.builds ≡ found
          → Completes w (complete_build o principal completion w)
      by_build none e = rw e refl
      by_build (some build) e = elim (Bool-cases (is_same_identity completion.result build)) [
        | inr other ↦ rw (e, other) refl
        | inl same ↦ elim (Bool-cases (is_terminal completion.result.status)) [
          | inr open_ ↦ rw (e, same, open_) refl
          | inl terminal ↦ elim (Bool-cases (is_recorded (delivery_id completion) w.store)) [
            | inl known ↦
                rw (e, same, terminal, known)
                  (sym (is_recorded-eq (delivery_id completion) w.store keyed) ∙ known, refl, refl)
            | inr new ↦
                let v : World = record w { times = w.times + 1 } in
                let delivery = delivery_of completion (o.clock w.times) in
                let (r, w') = apply_completion o principal completion build delivery v in
                let unseen = sym (is_recorded-eq (delivery_id completion) w.store keyed) ∙ new in
                rw (e, same, terminal, new)
                  (from_Applied w build r w' e same terminal unseen
                    (apply_completion-Applied build delivery v unseen))
          ]
        ]
      ]
