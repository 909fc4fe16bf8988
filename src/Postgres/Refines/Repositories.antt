-- ===== src/Postgres/Refines/Repositories.antt =====
-- The operations of store.py's `PostgresStore` on repositories, against those of `MemoryStore`.
use jenkins_service.Prelude.{
  ℕ, String, ◌≡◌, refl, false, [], ◌∷◌, any, is_some, Option-cases, Bool-cases, inl, inr, lower,
  text_eq, same_lower, ap,
}
use jenkins_service.Dict.{Dict, lookup, values}
use jenkins_service.Model.Repository.{
  RepositoryCreate, RepositoryUpdate, apply_update, create_full_name,
}
use jenkins_service.Store
use jenkins_service.Store.{Store, new_repository, is_duplicate}
use jenkins_service.Postgres
use jenkins_service.Postgres.{Tables, RepositoryRow, OwnedRow, violates_unique, without_owner}
use jenkins_service.Postgres.View.{
  view, IsSound, IsNamed, Rows, map_values, insert-map_values, lookup-map_values,
  is_some-map_values, erase-map_values, insert-Rows, lookup-Rows, erase-Rows,
}
use jenkins_service.Postgres.Refines.{Refines, HasNone}

-- The constraint on names is the test for a repository of the same name.
any-IsNamed :
    (name : String) (rows : Dict RepositoryRow)
    → Rows IsNamed rows
    → any (λ row. text_eq row.full_name (lower name)) (values rows)
      ≡ is_duplicate name (map_values (λ row. row.row_data) rows)
unfolding is_duplicate same_lower map_values
any-IsNamed name [] hs = refl
any-IsNamed name ((id, row) ∷ rows) hs = rw hs.0 (rw (any-IsNamed name rows hs.1) refl)

pub create_repository-Refines :
    (value : RepositoryCreate) (id : String) (created updated : ℕ) (t : Tables)
    → IsSound t
    → is_some (lookup id t.repositories) ≡ false
    → Refines
        (Postgres.create_repository value id created updated)
        (Store.create_repository value id created updated)
        t
unfolding Postgres.create_repository Store.create_repository violates_unique view
create_repository-Refines value id created updated t h new = rw new (
    rw (any-IsNamed (create_full_name value) t.repositories h.repositories)
      (elim (Bool-cases
        (is_duplicate (create_full_name value) (map_values (λ row. row.row_data) t.repositories))) [
          | inl taken ↦ rw taken (refl, refl, h)
          | inr free ↦ rw free (
            refl,
            rw insert-map_values refl,
            record {
              repositories = insert-Rows IsNamed id _ t.repositories refl h.repositories;
              queue_items = h.queue_items;
              builds = h.builds;
              webhook_deliveries = h.webhook_deliveries;
              extension_runs = h.extension_runs;
              unique_runs = h.unique_runs;
              audit_records = h.audit_records;
            },
          )
        ]))

pub update_repository-Refines :
    (id : String) (value : RepositoryUpdate) (now : ℕ) (t : Tables)
    → IsSound t
    → Refines (Postgres.update_repository id value now) (Store.update_repository id value now) t
unfolding Postgres.update_repository Store.update_repository Postgres.get_repository
    Store.get_repository apply_update view
update_repository-Refines id value now t h =
    rw lookup-map_values (elim (Option-cases (lookup id t.repositories)) [
      | inl missing ↦ rw missing (refl, refl, h)
      | inr (row, found) ↦
          rw (found, found)
            (
              refl,
              rw insert-map_values refl,
              record {
                repositories =
                    insert-Rows IsNamed id _ t.repositories
                      (lookup-Rows IsNamed id t.repositories h.repositories found) h.repositories;
                queue_items = h.queue_items;
                builds = h.builds;
                webhook_deliveries = h.webhook_deliveries;
                extension_runs = h.extension_runs;
                unique_runs = h.unique_runs;
                audit_records = h.audit_records;
              },
            )
    ])

-- The cascade takes no row where the repository has none.
without_owner-HasNone :
    {V : Type 0} (id : String) (rows : Dict (OwnedRow V))
    → HasNone id rows
    → without_owner id rows ≡ rows
unfolding without_owner
without_owner-HasNone id [] hs = refl
without_owner-HasNone id ((k, row) ∷ rows) hs =
    rw hs.0 (ap (◌∷◌ (k, row)) (without_owner-HasNone id rows hs.1))

pub delete_repository-Refines :
    (id : String) (t : Tables)
    → IsSound t
    → HasNone id t.queue_items
    → HasNone id t.builds
    → Refines (Postgres.delete_repository id) (Store.delete_repository id) t
unfolding Postgres.delete_repository Store.delete_repository view
delete_repository-Refines id t h queue builds =
    rw
      (
        without_owner-HasNone id t.queue_items queue,
        without_owner-HasNone id t.builds builds,
        is_some-map_values,
      )
      (elim (Bool-cases (is_some (lookup id t.repositories))) [
        | inl found ↦ rw found (
          refl,
          rw erase-map_values refl,
          record {
            repositories = erase-Rows IsNamed id t.repositories h.repositories;
            queue_items = h.queue_items;
            builds = h.builds;
            webhook_deliveries = h.webhook_deliveries;
            extension_runs = h.extension_runs;
            unique_runs = h.unique_runs;
            audit_records = h.audit_records;
          },
        )
        | inr missing ↦ rw missing (refl, refl, h)
      ])
