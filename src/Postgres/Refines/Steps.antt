-- ===== src/Postgres/Refines/Steps.antt =====
-- Runs of store.py's `PostgresStore` against runs of `MemoryStore`, and the lists that both give.
use jenkins_service.Prelude.{◌≡◌, refl, List, [], ◌∷◌, ap, ◌∙◌}
use jenkins_service.Store
use jenkins_service.Store.{Store, empty, newest_first}
use jenkins_service.Store.Invariant.{IsValid}
use jenkins_service.Store.Steps.{
  Op, create, update, delete, put_queue_item, put_build, move_job, put_webhook, put_run, put_audit,
  step, run, run-empty-IsValid,
}
use jenkins_service.Postgres
use jenkins_service.Postgres.{Tables, OwnedRow, RepositoryRow, no_rows}
use jenkins_service.Postgres.View.{view, no_rows-IsSound, IsSound, map_values, keys_of}
use jenkins_service.Postgres.Refines.{
  Refines, Admits, put_queue_item-Refines, put_build-Refines, put_webhook-Refines,
}
use jenkins_service.Postgres.Refines.Repositories.{
  create_repository-Refines, update_repository-Refines, delete_repository-Refines,
}
use jenkins_service.Postgres.Refines.Runs.{
  rebind_jenkins_job-Refines, save_extension_run-Refines, record_audit-Refines,
}

-- That one call on the tables refines the call on the store that they stand for.
abbrev pub OpRefines : Op → Tables → Type 0
OpRefines (create value id created updated) =
    Refines (Postgres.create_repository value id created updated)
      (Store.create_repository value id created updated)
OpRefines (update id value now) =
    Refines (Postgres.update_repository id value now) (Store.update_repository id value now)
OpRefines (delete id) = Refines (Postgres.delete_repository id) (Store.delete_repository id)
OpRefines (put_queue_item q) = Refines (Postgres.save_queue_item q) (Store.save_queue_item q)
OpRefines (put_build b) = Refines (Postgres.save_build b) (Store.save_build b)
OpRefines (move_job repository old new) =
    Refines (Postgres.rebind_jenkins_job repository old new)
      (Store.rebind_jenkins_job repository old new)
OpRefines (put_webhook w) = Refines (Postgres.record_webhook_once w) (Store.record_webhook_once w)
OpRefines (put_run r) = Refines (Postgres.save_extension_run r) (Store.save_extension_run r)
OpRefines (put_audit a) = Refines (Postgres.record_audit a) (Store.record_audit a)

-- On sound tables, a call of `PostgresStore` answers or raises as the call of `MemoryStore` does, and
-- leaves sound tables that stand for its store. The calls are those that `Admits` admits: a creation
-- or an audit record under a new id, a delete of a repository without builds and queue items, a
-- build or a queue item of a registered repository which keeps that of an old row, a run under a key
-- or an id that is new or whose key has a row, and any update, move or webhook.
pub Admits-OpRefines : (op : Op) (t : Tables) → IsSound t → Admits op t → OpRefines op t
Admits-OpRefines (create value id created updated) t h a =
    create_repository-Refines value id created updated t h a
Admits-OpRefines (update id value now) t h a = update_repository-Refines id value now t h
Admits-OpRefines (delete id) t h a = delete_repository-Refines id t h a.0 a.1
Admits-OpRefines (put_queue_item q) t h a = put_queue_item-Refines q t h a
Admits-OpRefines (put_build b) t h a = put_build-Refines b t h a
Admits-OpRefines (move_job repository old new) t h a =
    rebind_jenkins_job-Refines repository old new t h
Admits-OpRefines (put_webhook w) t h a = put_webhook-Refines w t h
Admits-OpRefines (put_run r) t h a = save_extension_run-Refines r t h a
Admits-OpRefines (put_audit a) t h new = record_audit-Refines a t h new

-- The tables that a call leaves, whether it returns or raises.
unfoldable pub step_rows : Op → Tables → Tables
step_rows (create value id created updated) t =
    (Postgres.create_repository value id created updated t).1
step_rows (update id value now) t = (Postgres.update_repository id value now t).1
step_rows (delete id) t = (Postgres.delete_repository id t).1
step_rows (put_queue_item q) t = (Postgres.save_queue_item q t).1
step_rows (put_build b) t = (Postgres.save_build b t).1
step_rows (move_job repository old new) t = (Postgres.rebind_jenkins_job repository old new t).1
step_rows (put_webhook w) t = (Postgres.record_webhook_once w t).1
step_rows (put_run r) t = (Postgres.save_extension_run r t).1
step_rows (put_audit a) t = (Postgres.record_audit a t).1

unfoldable pub run_rows : List Op → Tables → Tables
run_rows [] t = t
run_rows (op ∷ ops) t = run_rows ops (step_rows op t)

-- Each call of a run is admitted where it is made.
abbrev pub AdmitsRun : List Op → Tables → Type 0
AdmitsRun [] t = Unit
AdmitsRun (op ∷ ops) t = Admits op t × AdmitsRun ops (step_rows op t)

step_rows-IsSound :
    (op : Op) (t : Tables)
    → OpRefines op t
    → (view (step_rows op t) ≡ step op (view t)) × IsSound (step_rows op t)
unfolding step_rows step
step_rows-IsSound (create value id created updated) t h = (h.1, h.2)
step_rows-IsSound (update id value now) t h = (h.1, h.2)
step_rows-IsSound (delete id) t h = (h.1, h.2)
step_rows-IsSound (put_queue_item q) t h = (h.1, h.2)
step_rows-IsSound (put_build b) t h = (h.1, h.2)
step_rows-IsSound (move_job repository old new) t h = (h.1, h.2)
step_rows-IsSound (put_webhook w) t h = (h.1, h.2)
step_rows-IsSound (put_run r) t h = (h.1, h.2)
step_rows-IsSound (put_audit a) t h = (h.1, h.2)

pub run_rows-view :
    (ops : List Op) (t : Tables)
    → IsSound t
    → AdmitsRun ops t
    → (view (run_rows ops t) ≡ run ops (view t)) × IsSound (run_rows ops t)
unfolding run_rows run
run_rows-view [] t h a = (refl, h)
run_rows-view (op ∷ ops) t h a =
    let (same, sound) = step_rows-IsSound op t (Admits-OpRefines op t h a.0) in
    let (rest, sound') = run_rows-view ops (step_rows op t) sound a.1 in
    (rest ∙ ap (run ops) same, sound')

-- After any admitted calls on new tables, the tables stand for the store that the same calls make of
-- a new `MemoryStore`, and that store is well formed.
pub run_rows-empty :
    (ops : List Op)
    → AdmitsRun ops no_rows
    → (view (run_rows ops no_rows) ≡ run ops empty) × IsValid (view (run_rows ops no_rows))
unfolding view map_values keys_of
run_rows-empty ops a =
    let (same, _) = run_rows-view ops no_rows no_rows-IsSound a in
    (same, rw same (run-empty-IsValid ops))
