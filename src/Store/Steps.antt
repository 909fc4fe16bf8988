-- ===== src/Store/Steps.antt =====
-- Every state-changing operation of the store as a step, and the invariant of all that can be
-- reached from an empty store.
use jenkins_service.Prelude.{
  ℕ, String, refl, List, [], ◌∷◌, is_some, Option-cases, Bool-cases, inl, inr,
}
use jenkins_service.Dict.{lookup, insert-IsKeyed}
use jenkins_service.Model.Repository.{
  RepositoryCreate, RepositoryUpdate, create_full_name, apply_update,
}
use jenkins_service.Model.Pipeline.{QueueItem, Build}
use jenkins_service.Model.Extension.{ExtensionRun}
use jenkins_service.Model.Audit.{WebhookDelivery, AuditRecord}
use jenkins_service.Store.{
  Store, empty, new_repository, is_duplicate, create_repository, update_repository,
  delete_repository, save_queue_item, save_build, rebind_jenkins_job, record_webhook_once, is_taken,
  save_extension_run, record_audit,
}
use jenkins_service.Store.Invariant.{
  IsValid, empty-IsValid, create-AreRepositories, update-AreRepositories, delete-AreRepositories,
  save-AreRuns,
}
use jenkins_service.Store.Rebind.{rebind_builds-IsKeyed}

pub data Op : Type 0 where
  create : RepositoryCreate → String → ℕ → ℕ → Op
  update : String → RepositoryUpdate → ℕ → Op
  delete : String → Op
  put_queue_item : QueueItem → Op
  put_build : Build → Op
  move_job : String → String → String → Op
  put_webhook : WebhookDelivery → Op
  put_run : ExtensionRun → Op
  put_audit : AuditRecord → Op

-- The store that a call leaves, whether it returns or raises.
unfoldable pub step : Op → Store → Store
step (create value id created updated) s = (create_repository value id created updated s).1
step (update id value now) s = (update_repository id value now s).1
step (delete id) s = (delete_repository id s).1
step (put_queue_item q) s = (save_queue_item q s).1
step (put_build b) s = (save_build b s).1
step (move_job repository old new) s = (rebind_jenkins_job repository old new s).1
step (put_webhook w) s = (record_webhook_once w s).1
step (put_run r) s = (save_extension_run r s).1
step (put_audit a) s = (record_audit a s).1

unfoldable pub run : List Op → Store → Store
run [] s = s
run (op ∷ ops) s = run ops (step op s)

create-IsValid :
    (value : RepositoryCreate) (id : String) (created updated : ℕ) (s : Store)
    → IsValid s
    → IsValid (create_repository value id created updated s).1
unfolding create_repository
create-IsValid value id created updated s h =
    elim (Bool-cases (is_duplicate (create_full_name value) s.repositories)) [
      | inl taken ↦ rw taken h
      | inr free ↦
          let r = new_repository value id created updated in
          rw free (record {
            repositories = create-AreRepositories r s.repositories free h.repositories;
            queue_items = h.queue_items;
            builds = h.builds;
            webhooks = h.webhooks;
            runs = h.runs;
          })
    ]

update-IsValid :
    (id : String) (value : RepositoryUpdate) (now : ℕ) (s : Store)
    → IsValid s
    → IsValid (update_repository id value now s).1
unfolding update_repository
update-IsValid id value now s h = elim (Option-cases (lookup id s.repositories)) [
  | inl missing ↦ rw missing h
  | inr (current, found) ↦ rw found (record {
    repositories =
        update-AreRepositories id current (record (apply_update value current) { updated_at = now })
          s.repositories found refl refl h.repositories;
    queue_items = h.queue_items;
    builds = h.builds;
    webhooks = h.webhooks;
    runs = h.runs;
  })
]

delete-IsValid : (id : String) (s : Store) → IsValid s → IsValid (delete_repository id s).1
unfolding delete_repository
delete-IsValid id s h = elim (Bool-cases (is_some (lookup id s.repositories))) [
  | inl found ↦ rw found (record {
    repositories = delete-AreRepositories id s.repositories h.repositories;
    queue_items = h.queue_items;
    builds = h.builds;
    webhooks = h.webhooks;
    runs = h.runs;
  })
  | inr missing ↦ rw missing h
]

webhook-IsValid :
    (w : WebhookDelivery) (s : Store) → IsValid s → IsValid (record_webhook_once w s).1
unfolding record_webhook_once
webhook-IsValid w s h = elim (Bool-cases (is_some (lookup w.delivery_id s.webhooks))) [
  | inl known ↦ rw known h
  | inr new ↦ rw new (record {
    repositories = h.repositories;
    queue_items = h.queue_items;
    builds = h.builds;
    webhooks = insert-IsKeyed (λ w. w.delivery_id) w s.webhooks h.webhooks;
    runs = h.runs;
  })
]

put_run-IsValid : (r : ExtensionRun) (s : Store) → IsValid s → IsValid (save_extension_run r s).1
unfolding save_extension_run
put_run-IsValid r s h =
    elim (Bool-cases (is_taken (lookup r.idempotency_key s.extension_keys) r.id)) [
      | inl taken ↦ rw taken h
      | inr free ↦ rw free (record {
        repositories = h.repositories;
        queue_items = h.queue_items;
        builds = h.builds;
        webhooks = h.webhooks;
        runs = save-AreRuns r s.extension_keys s.extension_runs h.runs;
      })
    ]

-- Each operation keeps the invariant, also where it raises.
pub step-IsValid : (op : Op) (s : Store) → IsValid s → IsValid (step op s)
unfolding step save_queue_item save_build rebind_jenkins_job record_audit
step-IsValid (create value id created updated) s h = create-IsValid value id created updated s h
step-IsValid (update id value now) s h = update-IsValid id value now s h
step-IsValid (delete id) s h = delete-IsValid id s h
step-IsValid (put_queue_item q) s h = record {
  repositories = h.repositories;
  queue_items = insert-IsKeyed (λ q. q.id) q s.queue_items h.queue_items;
  builds = h.builds;
  webhooks = h.webhooks;
  runs = h.runs;
}
step-IsValid (put_build b) s h = record {
  repositories = h.repositories;
  queue_items = h.queue_items;
  builds = insert-IsKeyed (λ b. b.id) b s.builds h.builds;
  webhooks = h.webhooks;
  runs = h.runs;
}
step-IsValid (move_job repository old new) s h = record {
  repositories = h.repositories;
  queue_items = h.queue_items;
  builds = rebind_builds-IsKeyed repository old new s.builds h.builds;
  webhooks = h.webhooks;
  runs = h.runs;
}
step-IsValid (put_webhook w) s h = webhook-IsValid w s h
step-IsValid (put_run r) s h = put_run-IsValid r s h
step-IsValid (put_audit a) s h = record {
  repositories = h.repositories;
  queue_items = h.queue_items;
  builds = h.builds;
  webhooks = h.webhooks;
  runs = h.runs;
}

run-IsValid : (ops : List Op) (s : Store) → IsValid s → IsValid (run ops s)
unfolding run
run-IsValid [] s h = h
run-IsValid (op ∷ ops) s h = run-IsValid ops (step op s) (step-IsValid op s h)

-- Whatever is called in whatever order on a new store, in the end every entity is filed under its
-- own key and no key stands twice, no two repositories share a name up to case, and each
-- idempotency key leads to a stored run.
pub run-empty-IsValid : (ops : List Op) → IsValid (run ops empty)
run-empty-IsValid ops = run-IsValid ops empty empty-IsValid
