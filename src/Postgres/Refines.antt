-- ===== src/Postgres/Refines.antt =====
-- `PostgresStore` against `MemoryStore`: each operation on tables against the one on the store that
-- the tables stand for.
pub mod Repositories
pub mod Runs
pub mod Steps
use jenkins_service.Prelude.{
  ℕ, String, ◌≡◌, refl, Bool, true, false, ◌||◌, not, Option, none, some, List, [], ◌∷◌, arith,
  ◌==◌, is_some, Option-cases, Bool-cases, inl, inr, if◌then◌else◌, ap, sym,
}
use jenkins_service.Exec.{Exec, ok}
use jenkins_service.Dict.{Dict, lookup, insert, values}
use jenkins_service.Model.Pipeline.{QueueItem, Build}
use jenkins_service.Model.Audit.{WebhookDelivery, AuditRecord}
use jenkins_service.Store
use jenkins_service.Store.{Store}
use jenkins_service.Store.Steps.{
  Op, create, update, delete, put_queue_item, put_build, move_job, put_webhook, put_run, put_audit,
}
use jenkins_service.Postgres
use jenkins_service.Postgres.{
  Tables, RepositoryRow, OwnedRow, row_of_key, upsert_owned, rebind_rows,
}
use jenkins_service.Postgres.View.{
  view, IsSound, IsOwned, Rows, map_values, insert-map_values, is_some-map_values, insert-Rows,
  lookup-Rows,
}

-- A call answers as the abstract one does, and leaves sound tables that stand for its store.
abbrev pub Refines : {A : Type 0} → Exec Tables A → Exec Store A → Tables → Type 0
Refines m n t = ((m t).0 ≡ (n (view t)).0) × (view (m t).1 ≡ (n (view t)).1) × IsSound (m t).1

-- The calls on which the two stores agree: a repository for a new row, which an old row keeps, new
-- ids for new rows, and a delete that has nothing to cascade to. (The schema admits other deletes,
-- by ON DELETE CASCADE, and there the stores differ.)
abbrev pub IsOwnerKept :
    {V : Type 0} → String → String → Dict RepositoryRow → Dict (OwnedRow V) → Type 0
IsOwnerKept id repository_id repositories rows =
    (is_some (lookup repository_id repositories) ≡ true)
    × ((row : OwnedRow _) → lookup id rows ≡ some row → row.repository_id ≡ repository_id)

abbrev pub HasNone : {V : Type 0} → String → Dict (OwnedRow V) → Type 0
HasNone id rows = Rows (λ row. (row.repository_id == id) ≡ false) rows

abbrev pub Admits : Op → Tables → Type 0
Admits (create value id created updated) t = is_some (lookup id t.repositories) ≡ false
Admits (update id value now) t = Unit
Admits (delete id) t = HasNone id t.queue_items × HasNone id t.builds
Admits (put_queue_item q) t = IsOwnerKept q.id q.repository_id t.repositories t.queue_items
Admits (put_build b) t = IsOwnerKept b.id b.repository_id t.repositories t.builds
Admits (move_job repository old new) t = Unit
Admits (put_webhook w) t = Unit
Admits (put_run r) t =
    (is_some (row_of_key r.idempotency_key t.extension_runs)
      || not (is_some (lookup r.id t.extension_runs)))
    ≡ true
Admits (put_audit a) t = is_some (lookup a.id t.audit_records) ≡ false

module _ {V : Type 0} (repository : V → String) (created : V → ℕ)
    (repositories : Dict RepositoryRow) where
  -- An admitted upsert is an assignment to the dict.
  upsert_owned-Rows :
      (id : String) (value : V) (rows : Dict (OwnedRow V))
      → IsOwnerKept id (repository value) repositories rows
      → Rows (IsOwned repository created) rows
      → (after : Dict (OwnedRow V)) × (upsert_owned repositories id
            (record {
              repository_id = repository value;
              row_data = value;
              created_at = created value;
            })
            rows
          ≡ some after)
        × (map_values (λ row. row.row_data) after
            ≡ insert id value (map_values (λ row. row.row_data) rows))
        × Rows (IsOwned repository created) after
  unfolding upsert_owned
  upsert_owned-Rows id value rows owner hs = elim (Option-cases (lookup id rows)) [
    | inl new ↦ rw new (
        rw owner.0 (
          insert id
              (record {
                repository_id = repository value;
                row_data = value;
                created_at = created value;
              })
              rows,
          refl,
          insert-map_values (λ row. row.row_data) id _ rows,
          insert-Rows (IsOwned repository created) id _ rows (refl, refl) hs,
        ))
    | inr (old, found) ↦ rw found (
      insert id (record old { row_data = value; created_at = created value }) rows,
      refl,
      insert-map_values (λ row. row.row_data) id _ rows,
      insert-Rows (IsOwned repository created) id _ rows (owner.1 old found, refl) hs,
    )
  ]

put_queue_item-Refines :
    (q : QueueItem) (t : Tables)
    → IsSound t
    → IsOwnerKept q.id q.repository_id t.repositories t.queue_items
    → Refines (Postgres.save_queue_item q) (Store.save_queue_item q) t
unfolding Postgres.save_queue_item Store.save_queue_item view
put_queue_item-Refines q t h owner =
    let (after, done, same, sound) =
      upsert_owned-Rows (λ q. q.repository_id) (λ q. q.created_at) t.repositories q.id q
        t.queue_items owner h.queue_items in
    rw done (
      rw same (
        refl,
        refl,
        record {
          repositories = h.repositories;
          queue_items = sound;
          builds = h.builds;
          webhook_deliveries = h.webhook_deliveries;
          extension_runs = h.extension_runs;
          unique_runs = h.unique_runs;
          audit_records = h.audit_records;
        },
      ))

put_build-Refines :
    (b : Build) (t : Tables)
    → IsSound t
    → IsOwnerKept b.id b.repository_id t.repositories t.builds
    → Refines (Postgres.save_build b) (Store.save_build b) t
unfolding Postgres.save_build Store.save_build view
put_build-Refines b t h owner =
    let (after, done, same, sound) =
      upsert_owned-Rows (λ b. b.repository_id) (λ b. b.created_at) t.repositories b.id b t.builds
        owner h.builds in
    rw done (
      rw same (
        refl,
        refl,
        record {
          repositories = h.repositories;
          queue_items = h.queue_items;
          builds = sound;
          webhook_deliveries = h.webhook_deliveries;
          extension_runs = h.extension_runs;
          unique_runs = h.unique_runs;
          audit_records = h.audit_records;
        },
      ))

put_webhook-Refines :
    (w : WebhookDelivery) (t : Tables)
    → IsSound t
    → Refines (Postgres.record_webhook_once w) (Store.record_webhook_once w) t
unfolding Postgres.record_webhook_once Store.record_webhook_once view
put_webhook-Refines w t h =
    rw is_some-map_values (elim (Bool-cases (is_some (lookup w.delivery_id t.webhook_deliveries))) [
      | inl known ↦ rw known (refl, refl, h)
      | inr new ↦ rw new (
        refl,
        rw insert-map_values refl,
        record {
          repositories = h.repositories;
          queue_items = h.queue_items;
          builds = h.builds;
          webhook_deliveries =
              insert-Rows (λ row. row.received_at ≡ row.row_data.received_at) w.delivery_id _
                t.webhook_deliveries refl h.webhook_deliveries;
          extension_runs = h.extension_runs;
          unique_runs = h.unique_runs;
          audit_records = h.audit_records;
        },
      )
    ])
