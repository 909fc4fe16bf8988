-- ===== src/Postgres.antt =====
-- store.py: `PostgresStore`, each SQL statement as a function on the tables of
-- migrations/0001_initial.sql. A table is an association list under its primary key; `data` holds
-- the value itself in place of its JSON.
pub mod View
pub mod Refines
use jenkins_service.Prelude.{
  ℕ, String, ◌+++◌, Bool, true, false, not, ◌&&◌, ◌||◌, Option, none, some, List, [], ◌∷◌, ◌++◌,
  ◌==◌, any, map, take, is_some, lower, text_eq, leb, if◌then◌else◌,
}
use jenkins_service.Exec.{
  Exec, Result, ok, err, conflict, not_found, runtime_error, pure, raise, ◌>>=◌, ◌>>◌,
}
use jenkins_service.Dict.{Dict, lookup, insert, erase, values}
use jenkins_service.Sorting.{sort_by, text_leb}
use jenkins_service.Model.Repository.{
  RepositoryCreate, RepositoryUpdate, Repository, full_name, create_full_name, apply_update,
}
use jenkins_service.Model.Pipeline.{QueueItem, Build}
use jenkins_service.Model.Extension.{ExtensionRun}
use jenkins_service.Model.Audit.{WebhookDelivery, AuditRecord}
use jenkins_service.Store.{new_repository}

pub record RepositoryRow : Type 0 where
  pub full_name : List ℕ
  pub row_data : Repository

-- a row that refers to a repository
pub record OwnedRow (V : Type 0) : Type 0 where
  pub repository_id : String
  pub row_data : V
  pub created_at : ℕ

pub record DeliveryRow : Type 0 where
  pub row_data : WebhookDelivery
  pub received_at : ℕ

pub record RunRow : Type 0 where
  pub idempotency_key : String
  pub row_data : ExtensionRun
  pub created_at : ℕ

pub record AuditRow : Type 0 where
  pub row_data : AuditRecord
  pub created_at : ℕ

pub record Tables : Type 0 where
  pub repositories : Dict RepositoryRow
  pub queue_items : Dict (OwnedRow QueueItem)
  pub builds : Dict (OwnedRow Build)
  pub webhook_deliveries : Dict DeliveryRow
  pub extension_runs : Dict RunRow
  pub audit_records : Dict AuditRow

abbrev pub no_rows : Tables
no_rows = record {
  repositories = [];
  queue_items = [];
  builds = [];
  webhook_deliveries = [];
  extension_runs = [];
  audit_records = [];
}

-- a violated UNIQUE constraint of `repositories`
unfoldable pub violates_unique : String → List ℕ → Dict RepositoryRow → Bool
violates_unique id name rows =
    is_some (lookup id rows) || any (λ row. text_eq row.full_name name) (values rows)

unfoldable pub create_repository : RepositoryCreate → String → ℕ → ℕ → Exec Tables Repository
unfolding violates_unique
create_repository value id created updated t =
    let result = new_repository value id created updated in
    let name = lower (full_name result) in
    if violates_unique id name t.repositories
    then (err (conflict ("repository already registered: " +++ create_full_name value)), t)
    else (
      ok result,
      record t {
        repositories = insert id (record { full_name = name; row_data = result }) t.repositories;
      },
    )

-- the value of a row that `fetchrow` finds
abbrev pub fetched : {R V : Type 0} → (R → V) → String → Option R → Result V
fetched column what none = err (not_found what)
fetched column what (some row) = ok (column row)

unfoldable pub get_repository : String → Exec Tables Repository
get_repository id t = (
  fetched (λ (row : RepositoryRow). row.row_data) ("repository not found: " +++ id)
      (lookup id t.repositories),
  t,
)

-- UPDATE repositories SET data, with the count of rows that it changes
abbrev pub update_row : String → Repository → Option RepositoryRow → Exec Tables Unit
update_row id result none t = (err (not_found ("repository not found: " +++ id)), t)
update_row id result (some row) t =
    (ok tt, record t { repositories = insert id (record row { row_data = result }) t.repositories })

unfoldable pub update_repository : String → RepositoryUpdate → ℕ → Exec Tables Repository
unfolding get_repository apply_update
update_repository id value now = do
  current ← get_repository id
  let result = record (apply_update value current) { updated_at = now }
  λ t. update_row id result (lookup id t.repositories) t
  pure result

-- the rows that ON DELETE CASCADE leaves
unfoldable pub without_owner : {V : Type 0} → String → Dict (OwnedRow V) → Dict (OwnedRow V)
without_owner id [] = []
without_owner id ((key, row) ∷ rows) =
    let rest = without_owner id rows in if row.repository_id == id then rest else (key, row) ∷ rest

unfoldable pub delete_repository : String → Exec Tables Unit
unfolding without_owner
delete_repository id t =
    if is_some (lookup id t.repositories)
    then (
      ok tt,
      record t {
        repositories = erase id t.repositories;
        queue_items = without_owner id t.queue_items;
        builds = without_owner id t.builds;
      },
    )
    else (err (not_found ("repository not found: " +++ id)), t)

-- the table after an upsert, from the row that stands under the id
abbrev pub upserted :
    {V : Type 0}
    → Dict RepositoryRow
    → String
    → OwnedRow V
    → Dict (OwnedRow V)
    → Option (OwnedRow V)
    → Option (Dict (OwnedRow V))
upserted repositories id row rows (some old) =
    some (insert id (record old { row_data = row.row_data; created_at = row.created_at }) rows)
upserted repositories id row rows none =
    if is_some (lookup row.repository_id repositories) then some (insert id row rows) else none

-- INSERT ... ON CONFLICT (id) DO UPDATE SET data, created_at; a new row wants its repository
unfoldable pub upsert_owned :
    {V : Type 0}
    → Dict RepositoryRow
    → String
    → OwnedRow V
    → Dict (OwnedRow V)
    → Option (Dict (OwnedRow V))
upsert_owned repositories id row rows = upserted repositories id row rows (lookup id rows)

abbrev pub missing_repository : {A : Type 0} → Result A
missing_repository = err (runtime_error "ForeignKeyViolationError")

-- the answer of an upsert, with the tables that its rows make
abbrev pub saved :
    {A V : Type 0}
    → A
    → Tables
    → (Dict (OwnedRow V) → Tables)
    → Option (Dict (OwnedRow V))
    → Result A × Tables
saved value t after none = (missing_repository, t)
saved value t after (some rows) = (ok value, after rows)

unfoldable pub save_queue_item : QueueItem → Exec Tables QueueItem
unfolding upsert_owned
save_queue_item value t =
    let row : OwnedRow QueueItem = record {
      repository_id = value.repository_id;
      row_data = value;
      created_at = value.created_at;
    } in
    saved value t (λ rows. record t { queue_items = rows })
      (upsert_owned t.repositories value.id row t.queue_items)

unfoldable pub get_queue_item : String → Exec Tables QueueItem
get_queue_item id t = (
  fetched (λ (row : OwnedRow QueueItem). row.row_data) ("queue item not found: " +++ id)
      (lookup id t.queue_items),
  t,
)

unfoldable pub save_build : Build → Exec Tables Build
unfolding upsert_owned
save_build value t =
    let row : OwnedRow Build = record {
      repository_id = value.repository_id;
      row_data = value;
      created_at = value.created_at;
    } in
    saved value t (λ rows. record t { builds = rows })
      (upsert_owned t.repositories value.id row t.builds)

unfoldable pub get_build : String → Exec Tables Build
get_build id t = (
  fetched (λ (row : OwnedRow Build). row.row_data) ("build not found: " +++ id)
      (lookup id t.builds),
  t,
)

-- UPDATE builds SET data ... WHERE repository_id = $1 AND data->>'jenkins_job' = $2
unfoldable pub rebind_rows :
    String → String → String → Dict (OwnedRow Build) → Dict (OwnedRow Build)
rebind_rows repository_id old_job new_job [] = []
rebind_rows repository_id old_job new_job ((id, row) ∷ rows) =
    (
      id,
      (if row.repository_id == repository_id && row.row_data.jenkins_job == old_job
          then record row { row_data = record row.row_data { jenkins_job = new_job } }
          else row),
    )
    ∷ rebind_rows repository_id old_job new_job rows

unfoldable pub rebind_jenkins_job : String → String → String → Exec Tables Unit
unfolding rebind_rows
rebind_jenkins_job repository_id old_job new_job t =
    (ok tt, record t { builds = rebind_rows repository_id old_job new_job t.builds })

unfoldable pub record_webhook_once : WebhookDelivery → Exec Tables Bool
record_webhook_once value t =
    if is_some (lookup value.delivery_id t.webhook_deliveries) then (ok false, t) else (
      ok true,
      record t {
        webhook_deliveries =
            insert value.delivery_id (record { row_data = value; received_at = value.received_at })
              t.webhook_deliveries;
      },
    )

-- the row of a key, with its id
unfoldable pub row_of_key : String → Dict RunRow → Option (String × RunRow)
row_of_key key [] = none
row_of_key key ((id, row) ∷ rows) =
    if row.idempotency_key == key then some (id, row) else row_of_key key rows

-- the row of a run
abbrev pub run_row : ExtensionRun → RunRow
run_row value = record {
  idempotency_key = value.idempotency_key;
  row_data = value;
  created_at = value.created_at;
}

-- INSERT ... ON CONFLICT (idempotency_key) DO UPDATE SET ... CASE WHEN the ids are the same, from
-- the row of the key
abbrev pub save_run : ExtensionRun → Option (String × RunRow) → Exec Tables ExtensionRun
save_run value (some (id, old)) t =
    if id == value.id
    then (ok value, record t { extension_runs = insert id (run_row value) t.extension_runs })
    else (ok old.row_data, t)
save_run value none t =
    if is_some (lookup value.id t.extension_runs)
    then (err (runtime_error "UniqueViolationError"), t)
    else (ok value, record t { extension_runs = insert value.id (run_row value) t.extension_runs })

unfoldable pub save_extension_run : ExtensionRun → Exec Tables ExtensionRun
unfolding row_of_key
save_extension_run value t = save_run value (row_of_key value.idempotency_key t.extension_runs) t

unfoldable pub get_extension_run : String → Exec Tables ExtensionRun
get_extension_run id t = (
  fetched (λ (row : RunRow). row.row_data) ("extension run not found: " +++ id)
      (lookup id t.extension_runs),
  t,
)

abbrev pub run_of : Option (String × RunRow) → Option ExtensionRun
run_of none = none
run_of (some (id, row)) = some row.row_data

unfoldable pub get_extension_run_by_key : String → Tables → Option ExtensionRun
unfolding row_of_key
get_extension_run_by_key key t = run_of (row_of_key key t.extension_runs)

unfoldable pub record_audit : AuditRecord → Exec Tables Unit
record_audit value t =
    if is_some (lookup value.id t.audit_records)
    then (err (runtime_error "UniqueViolationError"), t)
    else (
      ok tt,
      record t {
        audit_records =
            insert value.id (record { row_data = value; created_at = value.created_at })
              t.audit_records;
      },
    )
