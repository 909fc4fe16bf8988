-- ===== src/Service/Extensions/Runs.antt =====
-- service.py: what `run_extension_action` leaves under its idempotency key.
use jenkins_service.Prelude.{
  ℕ, String, ◌≡◌, refl, sym, ◌∙◌, ap, ◌⊎◌, inl, inr, Option, none, some, List, ◌==◌, eq_refl,
  Bool-cases, Option-cases, arith,
}
use jenkins_service.Exec.{
  Error, key_error, Result, ok, err, Result-cases, pure, try_catch, resume, ◌>>=◌, ◌>>◌,
}
use jenkins_service.Dict.{lookup, insert, lookup-insert}
use jenkins_service.Model.Json.{end}
use jenkins_service.Model.Scope.{Principal}
use jenkins_service.Model.Repository.{Repository, full_name}
use jenkins_service.Model.Extension.{ExtensionManifest, ExtensionOutput, RunStatus, ExtensionRun}
use jenkins_service.Model.Audit.{AuditOutcome}
use jenkins_service.Model.Requests.{ExtensionActionRequest}
use jenkins_service.Extensions.{ExtensionCatalog, get_manifest}
use jenkins_service.Store
use jenkins_service.Store.{Store}
use jenkins_service.Service.World.{Outside, World, Action, audit, Call}
use jenkins_service.Service.Extensions.{
  Dumps, after_at, required_digest, run_actions, finish_run, fail_run, execute_run,
  new_extension_run, start_run, run_extension_action,
}
use jenkins_service.Service.Extensions.Calls.{RanOnce, run_actions-RanOnce, run_actions-KeepsKeys}

-- A run whose key leads to its id is saved, and found by its key.
save_held :
    (run : ExtensionRun) (s : Store)
    → lookup run.idempotency_key s.extension_keys ≡ some run.id
    → ((Store.save_extension_run run s).0 ≡ ok run)
      × (Store.get_extension_run_by_key run.idempotency_key (Store.save_extension_run run s).1
          ≡ some run)
unfolding Store.save_extension_run Store.get_extension_run_by_key
save_held run s held =
    rw (held, eq_refl run.id)
      (
        refl,
        ground (
          arith,
          lookup-insert run.idempotency_key run.idempotency_key run.id s.extension_keys,
          lookup-insert run.id run.id run s.extension_runs,
          eq_refl run.idempotency_key,
          eq_refl run.id,
        ),
      )

-- A run under a key that no run stands under is saved, and its key leads to its id; or the save
-- raises and changes nothing.
first_save :
    (run : ExtensionRun) (s : Store)
    → Store.get_extension_run_by_key run.idempotency_key s ≡ none
    → ((e : Error) × (Store.save_extension_run run s ≡ (err e, s)))
      ⊎ (((Store.save_extension_run run s).0 ≡ ok run)
          × (lookup run.idempotency_key (Store.save_extension_run run s).1.extension_keys
              ≡ some run.id))
unfolding Store.save_extension_run Store.get_extension_run_by_key
first_save run s free = elim (Option-cases (lookup run.idempotency_key s.extension_keys)) [
  | inl unknown ↦ rw unknown (inr (refl, indexed))
  | inr (id, known) ↦ elim (Bool-cases (id == run.id)) [
    | inl same ↦ rw (known, same) (inr (refl, indexed))
    | inr other ↦ rw (known, other, absent id known) (inl (_, refl))
  ]
]
  where
    indexed :
        lookup run.idempotency_key (insert run.idempotency_key run.id s.extension_keys)
        ≡ some run.id
    indexed = rw (lookup-insert, eq_refl run.idempotency_key) refl

    absent :
        (id : String)
        → lookup run.idempotency_key s.extension_keys ≡ some id
        → Store.run_at (some id) s.extension_runs ≡ err (key_error id)
    absent id known =
        ap (λ o. elim o [ none ↦ err (key_error id) | some run ↦ ok run ])
          (sym (ap (λ o. elim o [ none ↦ none | some id ↦ lookup id s.extension_runs ]) known)
            ∙ free)

module _ (o : Outside) (catalog : ExtensionCatalog) (dumps : Dumps) (principal : Principal) where
  module _ (payload : ExtensionActionRequest) where
    -- the run that stands under the key
    abbrev pub held : World → Option ExtensionRun
    held w = Store.get_extension_run_by_key payload.idempotency_key w.store

    -- A run that was started was run once and has ended under its key, with success where it
    -- returned.
    abbrev Ended : List Call → Result ExtensionRun × World → Type 0
    Ended before (ok run, after) =
        (held after ≡ some run)
        × (run.status ≡ RunStatus.succeeded)
        × RanOnce o catalog dumps principal payload before after.calls
    Ended before (err e, after) =
        (run : ExtensionRun) × (held after ≡ some run)
        × (run.status ≡ RunStatus.failed)
        × RanOnce o catalog dumps principal payload before after.calls

    module _ (manifest : ExtensionManifest) (repository : Repository) (digest id : String)
        (created : ℕ) where
      abbrev run : ExtensionRun
      run =
          new_extension_run o catalog dumps principal payload manifest repository digest id created

      abbrev end_with : ExtensionRun → Action ExtensionRun
      end_with done =
          audit o principal "run_extension_action" (full_name repository) AuditOutcome.succeeded end
          >> pure done

      settled :
          (w : World) (r : Result ExtensionOutput) (u : World)
          → RanOnce o catalog dumps principal payload w.calls u.calls
          → lookup payload.idempotency_key u.store.extension_keys ≡ some id
          → Ended w.calls (
              (try_catch
                    (λ w. resume (finish_run o catalog dumps principal payload run) r u)
                    (fail_run o catalog dumps principal payload run repository)
                  >>= end_with)
                u)
      unfolding audit Store.record_audit Store.get_extension_run_by_key
      settled w (ok output) u ran found =
          let done : ExtensionRun = record run {
            output = some output;
            status = RunStatus.succeeded;
            completed_at = some (o.clock u.times);
          } in
          let (answer, stands) = save_held done u.store found in rw answer (stands, refl, ran)
      settled w (err e) u ran found =
          let done : ExtensionRun = record run {
            status = RunStatus.failed;
            completed_at = some (o.clock u.times);
          } in
          let (answer, stands) = save_held done u.store found in rw answer (done, stands, refl, ran)

      execute_run-Ended :
          (w : World)
          → lookup payload.idempotency_key w.store.extension_keys ≡ some id
          → Ended w.calls (execute_run o catalog dumps principal payload manifest repository run w)
      unfolding execute_run
      execute_run-Ended w found =
          let (r, u) = run_actions o catalog dumps principal payload manifest repository w in
          settled w r u
            (run_actions-RanOnce o catalog dumps principal payload manifest repository w)
            (ap (lookup payload.idempotency_key)
                (run_actions-KeepsKeys o catalog dumps principal payload manifest repository w)
              ∙ found)

    -- what an answer means, for a key that no run stands under
    abbrev Fresh : World → Result ExtensionRun × World → Type 0
    Fresh w (ok run, after) =
        (held after ≡ some run)
        × (run.status ≡ RunStatus.succeeded)
        × RanOnce o catalog dumps principal payload w.calls after.calls
    Fresh w (err e, after) =
        ((after.store ≡ w.store) × (after.calls ≡ w.calls))
        ⊎ ((run : ExtensionRun) × (held after ≡ some run)
            × (run.status ≡ RunStatus.failed)
            × RanOnce o catalog dumps principal payload w.calls after.calls)

    Ended-Fresh : (w : World) (x : Result ExtensionRun × World) → Ended w.calls x → Fresh w x
    Ended-Fresh w (ok done, after) h = h
    Ended-Fresh w (err e, after) h = inr h

    start_run-Fresh :
        (w : World) → held w ≡ none → Fresh w (start_run o catalog dumps principal payload w)
    unfolding start_run Store.get_repository
    start_run-Fresh w free =
        elim (Option-cases (lookup payload.repository_id w.store.repositories)) [
          | inl unknown ↦ rw unknown (inl (refl, refl))
          | inr (repository, known) ↦
              elim (Result-cases (get_manifest catalog payload.extension_id)) [
                | inr (e, refused) ↦ rw (known, refused) (inl (refl, refl))
                | inl (manifest, allowed) ↦
                    elim (Result-cases (required_digest (after_at manifest.image))) [
                      | inr (e, bad) ↦ rw (known, allowed, bad) (inl (refl, refl))
                      | inl (digest, good) ↦
                          let id = o.uuid w.ids in
                          let r = run manifest repository digest id (o.clock w.times) in
                          elim (first_save r w.store free) [
                            | inl (e, raised) ↦ rw (known, allowed, good, raised) (inl (refl, refl))
                            | inr (saved, indexed) ↦
                                rw (known, allowed, good, saved, eq_refl id)
                                  (Ended-Fresh w _ (
                                    execute_run-Ended manifest repository digest id
                                      (o.clock w.times) _ indexed))
                          ]
                    ]
              ]
        ]

    -- what an answer means for the run that stands under the key
    abbrev pub Runs : World → Result ExtensionRun × World → Type 0
    Runs w (ok done, after) =
        (held after ≡ some done)
        × (((held w ≡ some done) × (after ≡ w))
            ⊎ ((held w ≡ none)
                × (done.status ≡ RunStatus.succeeded)
                × RanOnce o catalog dumps principal payload w.calls after.calls))
    Runs w (err e, after) =
        (held w ≡ none)
        × (((after.store ≡ w.store) × (after.calls ≡ w.calls))
            ⊎ ((done : ExtensionRun) × (held after ≡ some done)
                × (done.status ≡ RunStatus.failed)
                × RanOnce o catalog dumps principal payload w.calls after.calls))

    Fresh-Runs :
        (w : World) (x : Result ExtensionRun × World) → held w ≡ none → Fresh w x → Runs w x
    Fresh-Runs w (ok done, after) free h = (h.0, inr (free, h.1, h.2))
    Fresh-Runs w (err e, after) free h = (free, h)

    -- A call that returns leaves the answered run under its idempotency key: it stood there before,
    -- and nothing is changed and nobody called, or no run stood there, the run has succeeded, and the
    -- extension runner was called once, with actions at GitHub behind it and no other call. A call
    -- that raises found no run there; it leaves the store as it was and called nobody, or it leaves
    -- the run as failed and called the extension runner once, likewise.
    pub run_extension_action-Runs :
        (w : World) → Runs w (run_extension_action o catalog dumps principal payload w)
    unfolding run_extension_action
    run_extension_action-Runs w = elim (Option-cases (held w)) [
      | inl free ↦ rw free (
          Fresh-Runs w (start_run o catalog dumps principal payload w) free
            (start_run-Fresh w free))
      | inr (previous, stands) ↦ rw stands (stands, inl (stands, refl))
    ]
