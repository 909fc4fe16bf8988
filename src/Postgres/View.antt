-- ===== src/Postgres/View.antt =====
-- The store that the tables of store.py's `PostgresStore` stand for: each row's `data`, and the index
-- from idempotency keys that `MemoryStore` keeps beside the runs.
use jenkins_service.Prelude.{
  ℕ, String, ◌≡◌, refl, Bool, Option, none, some, List, [], ◌∷◌, map, arith, ◌==◌, is_some, take,
  All, ap, sym, suc, zero, Bool-cases, inl, inr, lower,
}
use mathlib.Core.Option.{some-injective}
use jenkins_service.Dict.{Dict, lookup, insert, erase, values, HasUniqueKeys}
use jenkins_service.Sorting.{place, sort_by}
use jenkins_service.Store.{Store}
use jenkins_service.Model.Repository.{full_name}
use jenkins_service.Postgres.{
  Tables, no_rows, RepositoryRow, OwnedRow, DeliveryRow, RunRow, AuditRow,
}

abbrev pub mapped {ℓ} : {A B : Type ℓ} → (A → B) → Option A → Option B
mapped f none = none
mapped f (some a) = some (f a)

-- A predicate of every row of a table.
abbrev pub Rows {ℓ} : {R : Type 0} → (R → Type ℓ) → Dict R → Type ℓ
Rows P d = All P (values d)

module _ {R V : Type 0} (f : R → V) where
  unfoldable pub map_values : Dict R → Dict V
  map_values [] = []
  map_values ((k, r) ∷ d) = (k, f r) ∷ map_values d

  pub lookup-map_values :
      (k : String) (d : Dict R) → lookup k (map_values d) ≡ mapped f (lookup k d)
  unfolding lookup map_values
  lookup-map_values k [] = refl
  lookup-map_values k ((j, r) ∷ d) = ground (arith, lookup-map_values k d)

  pub is_some-map_values :
      (k : String) (d : Dict R) → is_some (lookup k (map_values d)) ≡ is_some (lookup k d)
  unfolding lookup map_values
  is_some-map_values k [] = refl
  is_some-map_values k ((j, r) ∷ d) = ground (arith, is_some-map_values k d)

  pub insert-map_values :
      (k : String) (r : R) (d : Dict R) → map_values (insert k r d) ≡ insert k (f r) (map_values d)
  unfolding insert map_values
  insert-map_values k r [] = refl
  insert-map_values k r ((j, q) ∷ d) = ground (arith, insert-map_values k r d)

  pub erase-map_values : (k : String) (d : Dict R) → map_values (erase k d) ≡ erase k (map_values d)
  unfolding erase map_values
  erase-map_values k [] = refl
  erase-map_values k ((j, q) ∷ d) = ground (arith, erase-map_values k d)

  pub values-map_values : (d : Dict R) → values (map_values d) ≡ map f (values d)
  unfolding map_values
  values-map_values [] = refl
  values-map_values ((j, q) ∷ d) = ap (◌∷◌ (f q)) (values-map_values d)

  pub take-map : (n : ℕ) (rows : List R) → map f (take n rows) ≡ take n (map f rows)
  take-map zero rows = refl
  take-map (suc n) [] = refl
  take-map (suc n) (r ∷ rows) = ap (◌∷◌ (f r)) (take-map n rows)

  module _ {ℓ} (P : R → Type ℓ) (le : R → R → Bool) (le' : V → V → Bool)
      (agree : (a b : R) → P a → P b → le a b ≡ le' (f a) (f b)) where
    place-map :
        (r : R) (rows : List R)
        → P r
        → All P rows
        → All P (place le r rows) × (map f (place le r rows) ≡ place le' (f r) (map f rows))
    unfolding place
    place-map r [] h hs = ((h, tt), refl)
    place-map r (q ∷ rows) h hs = elim (Bool-cases (le r q)) [
      | inl before ↦ rw before (rw (sym (agree r q h hs.0)) (rw before ((h, hs), refl)))
      | inr beyond ↦
          let rest = place-map r rows h hs.1 in
          rw beyond
            (rw (sym (agree r q h hs.0)) (rw beyond ((hs.0, rest.0), ap (◌∷◌ (f q)) rest.1)))
    ]

    -- An ORDER BY over columns that agree with the data sorts the data.
    pub sort_by-map :
        (rows : List R)
        → All P rows
        → All P (sort_by le rows) × (map f (sort_by le rows) ≡ sort_by le' (map f rows))
    unfolding sort_by
    sort_by-map [] hs = (tt, refl)
    sort_by-map (r ∷ rows) hs =
        let rest = sort_by-map rows hs.1 in
        rw (sym rest.1) (place-map r (sort_by le rows) hs.0 rest.0)

module _ {ℓ} {R : Type 0} (P : R → Type ℓ) where
  pub insert-Rows : (k : String) (r : R) (d : Dict R) → P r → Rows P d → Rows P (insert k r d)
  unfolding insert
  insert-Rows k r [] h hs = (h, tt)
  insert-Rows k r ((j, q) ∷ d) h hs = elim (Bool-cases (j == k)) [
    | inl same ↦ rw same (h, hs.1)
    | inr other ↦ rw other (hs.0, insert-Rows k r d h hs.1)
  ]

  pub erase-Rows : (k : String) (d : Dict R) → Rows P d → Rows P (erase k d)
  unfolding erase
  erase-Rows k [] hs = hs
  erase-Rows k ((j, q) ∷ d) hs = elim (Bool-cases (j == k)) [
    | inl same ↦ rw same hs.1
    | inr other ↦ rw other (hs.0, erase-Rows k d hs.1)
  ]

  pub lookup-Rows : (k : String) (d : Dict R) {r : R} → Rows P d → lookup k d ≡ some r → P r
  unfolding lookup
  lookup-Rows k [] {r} hs e = cc
  lookup-Rows k ((j, q) ∷ d) {r} hs e = elim (Bool-cases (j == k)) [
    | inl same ↦ rw (sym (some-injective q r (rw same at e))) hs.0
    | inr other ↦ lookup-Rows k d hs.1 (rw other at e)
  ]

-- the index from idempotency keys to ids
unfoldable pub keys_of : Dict RunRow → Dict String
keys_of [] = []
keys_of ((id, row) ∷ d) = (row.idempotency_key, id) ∷ keys_of d

unfoldable pub view : Tables → Store
view t = record {
  repositories = map_values (λ row. row.row_data) t.repositories;
  queue_items = map_values (λ row. row.row_data) t.queue_items;
  builds = map_values (λ row. row.row_data) t.builds;
  webhooks = map_values (λ row. row.row_data) t.webhook_deliveries;
  extension_runs = map_values (λ row. row.row_data) t.extension_runs;
  extension_keys = keys_of t.extension_runs;
  audit = map (λ row. row.row_data) (values t.audit_records);
}

abbrev pub IsNamed : RepositoryRow → Type 0
IsNamed row = row.full_name ≡ lower (full_name row.row_data)

-- The columns of a row agree with its data, for the two that the data gives.
abbrev pub IsOwned : {V : Type 0} → (V → String) → (V → ℕ) → OwnedRow V → Type 0
IsOwned repository created row =
    (row.repository_id ≡ repository row.row_data) × (row.created_at ≡ created row.row_data)

abbrev pub IsRun : RunRow → Type 0
IsRun row =
    (row.idempotency_key ≡ row.row_data.idempotency_key)
    × (row.created_at ≡ row.row_data.created_at)

-- Tables whose columns agree with their data.
pub record IsSound (t : Tables) : Type 0 where
  pub repositories : Rows IsNamed t.repositories
  pub queue_items : Rows (IsOwned (λ q. q.repository_id) (λ q. q.created_at)) t.queue_items
  pub builds : Rows (IsOwned (λ b. b.repository_id) (λ b. b.created_at)) t.builds
  pub webhook_deliveries :
      Rows (λ (row : DeliveryRow). row.received_at ≡ row.row_data.received_at) t.webhook_deliveries
  pub extension_runs : Rows IsRun t.extension_runs
  pub unique_runs : HasUniqueKeys t.extension_runs
  pub audit_records :
      Rows (λ (row : AuditRow). row.created_at ≡ row.row_data.created_at) t.audit_records

pub no_rows-IsSound : IsSound no_rows
no_rows-IsSound = record {
  repositories = tt;
  queue_items = tt;
  builds = tt;
  webhook_deliveries = tt;
  extension_runs = tt;
  unique_runs = tt;
  audit_records = tt;
}
