-- ===== src/Postgres/Refines/Runs.antt =====
-- The operations of store.py's `PostgresStore` on builds' jobs, extension runs and audit records,
-- against those of `MemoryStore`.
use jenkins_service.Prelude.{
  String, ◌≡◌, refl, Bool, true, false, not, ◌||◌, ◌&&◌, Option, none, some, [], ◌∷◌, ◌++◌, map,
  arith, ◌==◌, eq_iff, eq_refl, is_some, Option-cases, Bool-cases, inl, inr, ap, ◌∙◌,
}
use jenkins_service.Exec.{ok, err, key_error}
use jenkins_service.Dict.{Dict, lookup, insert, values, HasUniqueKeys, insert-HasUniqueKeys}
use jenkins_service.Model.Pipeline.{Build}
use jenkins_service.Model.Extension.{ExtensionRun}
use jenkins_service.Model.Audit.{AuditRecord}
use jenkins_service.Store
use jenkins_service.Store.{Store, run_at, is_bound, rebind_builds}
use jenkins_service.Postgres
use jenkins_service.Postgres.{
  Tables, OwnedRow, RunRow, AuditRow, row_of_key, run_row, save_run, rebind_rows,
}
use jenkins_service.Postgres.View.{
  view, IsSound, IsOwned, IsRun, Rows, map_values, mapped, keys_of, insert-map_values,
  lookup-map_values, insert-Rows,
}
use jenkins_service.Postgres.Refines.{Refines}

module _ (repository old new : String) where
  abbrev IsBuildRow : OwnedRow Build → Type 0
  IsBuildRow = IsOwned (λ b. b.repository_id) (λ b. b.created_at)

  rebind_rows-map_values :
      (rows : Dict (OwnedRow Build))
      → Rows IsBuildRow rows
      → (map_values (λ row. row.row_data) (rebind_rows repository old new rows)
          ≡ rebind_builds repository old new (map_values (λ row. row.row_data) rows))
        × Rows IsBuildRow (rebind_rows repository old new rows)
  unfolding rebind_rows rebind_builds map_values is_bound
  rebind_rows-map_values [] hs = (refl, tt)
  rebind_rows-map_values ((id, row) ∷ rows) hs =
      let (rest, sound) = rebind_rows-map_values rows hs.1 in
      rw hs.0.0
        (elim (Bool-cases
          (row.row_data.repository_id == repository && row.row_data.jenkins_job == old)) [
            | inl bound ↦ rw bound (rw rest refl, ((refl, hs.0.1), sound))
            | inr other ↦ rw other (rw rest refl, ((refl, hs.0.1), sound))
          ])

  pub rebind_jenkins_job-Refines :
      (t : Tables)
      → IsSound t
      → Refines
          (Postgres.rebind_jenkins_job repository old new)
          (Store.rebind_jenkins_job repository old new)
          t
  unfolding Postgres.rebind_jenkins_job Store.rebind_jenkins_job view
  rebind_jenkins_job-Refines t h =
      let (same, sound) = rebind_rows-map_values t.builds h.builds in
      (
        refl,
        rw same refl,
        record {
          repositories = h.repositories;
          queue_items = h.queue_items;
          builds = sound;
          webhook_deliveries = h.webhook_deliveries;
          extension_runs = h.extension_runs;
          unique_runs = h.unique_runs;
          audit_records = h.audit_records;
        },
      )

abbrev id_of : Option (String × RunRow) → Option String
id_of none = none
id_of (some (id, row)) = some id

lookup-keys_of :
    (key : String) (rows : Dict RunRow) → lookup key (keys_of rows) ≡ id_of (row_of_key key rows)
unfolding lookup keys_of row_of_key
lookup-keys_of key [] = refl
lookup-keys_of key ((id, row) ∷ rows) = ground (arith, lookup-keys_of key rows)

-- The row of a key is the row of its id.
row_of_key-lookup :
    (key : String) (rows : Dict RunRow) {id : String} {row : RunRow}
    → HasUniqueKeys rows
    → row_of_key key rows ≡ some (id, row)
    → lookup id rows ≡ some row
unfolding lookup row_of_key
row_of_key-lookup key [] {id} {row} u e = cc
row_of_key-lookup key ((j, q) ∷ rows) {id} {row} u e =
    ground (arith, e, u.0, eq_iff j id, row_of_key-lookup key rows {id = id} {row = row} u.1)

-- A new id takes its key to the end of the index.
keys_of-new :
    (value : ExtensionRun) (rows : Dict RunRow)
    → row_of_key value.idempotency_key rows ≡ none
    → is_some (lookup value.id rows) ≡ false
    → keys_of (insert value.id (run_row value) rows)
      ≡ insert value.idempotency_key value.id (keys_of rows)
unfolding lookup row_of_key keys_of insert
keys_of-new value [] e new = refl
keys_of-new value ((j, q) ∷ rows) e new = ground (arith, keys_of-new value rows)

-- A known id keeps the index as it is.
keys_of-known :
    (value : ExtensionRun) (rows : Dict RunRow) {row : RunRow}
    → HasUniqueKeys rows
    → row_of_key value.idempotency_key rows ≡ some (value.id, row)
    → keys_of (insert value.id (run_row value) rows)
      ≡ insert value.idempotency_key value.id (keys_of rows)
unfolding lookup row_of_key keys_of insert
keys_of-known value [] {row} u e = cc
keys_of-known value ((j, q) ∷ rows) {row} u e = ground (
  arith,
  u.0,
  eq_iff j value.id,
  row_of_key-lookup value.idempotency_key rows {id = value.id} {row = row} u.1,
  eq_iff q.idempotency_key value.idempotency_key,
  keys_of-known value rows {row = row} u.1,
)

with_run-IsSound :
    (value : ExtensionRun) (t : Tables)
    → IsSound t
    → IsSound (record t { extension_runs = insert value.id (run_row value) t.extension_runs })
with_run-IsSound value t h = record {
  repositories = h.repositories;
  queue_items = h.queue_items;
  builds = h.builds;
  webhook_deliveries = h.webhook_deliveries;
  extension_runs =
      insert-Rows IsRun value.id (run_row value) t.extension_runs (refl, refl) h.extension_runs;
  unique_runs = insert-HasUniqueKeys value.id (run_row value) t.extension_runs h.unique_runs;
  audit_records = h.audit_records;
}

save_known :
    (value : ExtensionRun) (old : RunRow) (t : Tables)
    → IsSound t
    → row_of_key value.idempotency_key t.extension_runs ≡ some (value.id, old)
    → Refines (Postgres.save_extension_run value) (Store.save_extension_run value) t
unfolding Postgres.save_extension_run Store.save_extension_run view
save_known value old t h e =
    rw (lookup-keys_of, e, eq_refl value.id)
      (
        refl,
        rw (insert-map_values, keys_of-known value t.extension_runs {row = old} h.unique_runs e)
            refl,
        with_run-IsSound value t h,
      )

run_at-found :
    (id : String) (rows : Dict RunRow) {row : RunRow}
    → lookup id rows ≡ some row
    → run_at (some id) (map_values (λ row. row.row_data) rows) ≡ ok row.row_data
run_at-found id rows {row} e =
    ap (λ o. elim o [ none ↦ err (key_error id) | some run ↦ ok run ])
      (lookup-map_values (λ row. row.row_data) id rows ∙ ap (mapped (λ row. row.row_data)) e)

pub save_extension_run-Refines :
    (value : ExtensionRun) (t : Tables)
    → IsSound t
    → (is_some (row_of_key value.idempotency_key t.extension_runs)
        || not (is_some (lookup value.id t.extension_runs)))
      ≡ true
    → Refines (Postgres.save_extension_run value) (Store.save_extension_run value) t
unfolding Postgres.save_extension_run Store.save_extension_run view
save_extension_run-Refines value t h admitted =
    elim (Option-cases (row_of_key value.idempotency_key t.extension_runs)) [
      | inl e ↦
          let new = not_true (rw e at admitted) in
          rw (lookup-keys_of, e, new)
            (
              refl,
              rw (insert-map_values, keys_of-new value t.extension_runs e new) refl,
              with_run-IsSound value t h,
            )
      | inr ((id, old), e) ↦ elim (Bool-cases (id == value.id)) [
        | inl same ↦ save_known value old t h (rw ((eq_iff id value.id).0 same) at e)
        | inr other ↦
            let found = row_of_key-lookup value.idempotency_key t.extension_runs h.unique_runs e in
            rw (lookup-keys_of, e, other, run_at-found id t.extension_runs found) (refl, refl, h)
      ]
    ]
  where
    not_true : {b : Bool} → not b ≡ true → b ≡ false
    not_true {b} e = ground (arith, e)

module _ {R V : Type 0} (f : R → V) where
  values-new :
      (id : String) (row : R) (rows : Dict R)
      → is_some (lookup id rows) ≡ false
      → map f (values (insert id row rows)) ≡ map f (values rows) ++ f row ∷ []
  unfolding lookup insert
  values-new id row [] new = refl
  values-new id row ((j, q) ∷ rows) new = ground (arith, values-new id row rows)

pub record_audit-Refines :
    (value : AuditRecord) (t : Tables)
    → IsSound t
    → is_some (lookup value.id t.audit_records) ≡ false
    → Refines (Postgres.record_audit value) (Store.record_audit value) t
unfolding Postgres.record_audit Store.record_audit view
record_audit-Refines value t h new =
    rw (new, values-new (λ (row : AuditRow). row.row_data) value.id _ t.audit_records new)
      (
        refl,
        refl,
        record {
          repositories = h.repositories;
          queue_items = h.queue_items;
          builds = h.builds;
          webhook_deliveries = h.webhook_deliveries;
          extension_runs = h.extension_runs;
          unique_runs = h.unique_runs;
          audit_records =
              insert-Rows (λ row. row.created_at ≡ row.row_data.created_at) value.id _
                t.audit_records refl h.audit_records;
        },
      )
