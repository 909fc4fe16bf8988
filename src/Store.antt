-- ===== src/Store.antt =====
-- store.py: the operations of the `Store` protocol, as `MemoryStore` carries them out. What the
-- code draws from outside, a `uuid4()` and each `now_utc()`, is an argument.
pub mod Invariant
pub mod Rebind
pub mod Steps
pub mod Queries
use jenkins_service.Prelude.{
  ℕ, String, ◌+++◌, ◌≡◌, refl, Bool, true, false, not, ◌&&◌, Option, none, some, List, [], ◌∷◌,
  ◌++◌, arith, ◌==◌, any, is_some, if◌then◌else◌, same_lower, lower, leb,
}
use jenkins_service.Exec.{
  Exec, Result, ok, err, conflict, not_found, key_error, pure, raise, gets, modify, ◌>>=◌, ◌>>◌,
}
use jenkins_service.Dict.{Dict, lookup, insert, erase, values}
use jenkins_service.Sorting.{sort_by, text_leb}
use jenkins_service.Model.Repository.{
  RepositoryCreate, RepositoryUpdate, Repository, full_name, create_full_name, apply_update,
}
use jenkins_service.Model.Pipeline.{QueueItem, Build}
use jenkins_service.Model.Extension.{ExtensionRun}
use jenkins_service.Model.Audit.{WebhookDelivery, AuditRecord}

pub record Store : Type 0 where
  pub repositories : Dict Repository
  pub queue_items : Dict QueueItem
  pub builds : Dict Build
  pub webhooks : Dict WebhookDelivery
  pub extension_runs : Dict ExtensionRun
  pub extension_keys : Dict String
  pub audit : List AuditRecord

-- `MemoryStore()`
abbrev pub empty : Store
empty = record {
  repositories = [];
  queue_items = [];
  builds = [];
  webhooks = [];
  extension_runs = [];
  extension_keys = [];
  audit = [];
}

-- `self.d[key]`, with the `KeyError` turned into a `NotFoundError`
abbrev pub require : {A : Type 0} → String → String → Option A → Result A
require what key none = err (not_found (what +++ key))
require what key (some a) = ok a

-- `Repository(**value.model_dump())`, with its drawn fields
abbrev pub new_repository : RepositoryCreate → String → ℕ → ℕ → Repository
new_repository value id created updated = record {
  owner = value.owner;
  name = value.name;
  default_branch = value.default_branch;
  enabled = value.enabled;
  id = id;
  created_at = created;
  updated_at = updated;
}

-- the test for a repository of the same name, in any case
unfoldable pub is_duplicate : String → Dict Repository → Bool
is_duplicate name repositories =
    any (λ item. same_lower (full_name item) name) (values repositories)

unfoldable pub create_repository : RepositoryCreate → String → ℕ → ℕ → Exec Store Repository
create_repository value id created updated s =
    if is_duplicate (create_full_name value) s.repositories
    then (err (conflict ("repository already registered: " +++ create_full_name value)), s)
    else (let result = new_repository value id created updated in
        (ok result, record s { repositories = insert id result s.repositories }))

-- `key=lambda item: item.full_name.lower()`
abbrev pub by_name : Repository → Repository → Bool
by_name a b = text_leb (lower (full_name a)) (lower (full_name b))

unfoldable pub list_repositories : Store → List Repository
list_repositories s = sort_by by_name (values s.repositories)

unfoldable pub get_repository : String → Exec Store Repository
get_repository id s = (require "repository not found: " id (lookup id s.repositories), s)

unfoldable pub update_repository : String → RepositoryUpdate → ℕ → Exec Store Repository
unfolding get_repository apply_update
update_repository id value now = do
  current ← get_repository id
  let updated = record (apply_update value current) { updated_at = now }
  modify (λ s. record s { repositories = insert id updated s.repositories })
  pure updated

unfoldable pub delete_repository : String → Exec Store Unit
delete_repository id s =
    if is_some (lookup id s.repositories)
    then (ok tt, record s { repositories = erase id s.repositories })
    else (err (not_found ("repository not found: " +++ id)), s)

unfoldable pub save_queue_item : QueueItem → Exec Store QueueItem
save_queue_item value s = (ok value, record s { queue_items = insert value.id value s.queue_items })

-- `key=lambda item: item.created_at, reverse=True`, for each kind of item
abbrev pub newest_first : {A : Type 0} → (A → ℕ) → A → A → Bool
newest_first created a b = leb (created b) (created a)

unfoldable pub list_queue_items : Store → List QueueItem
list_queue_items s = sort_by (newest_first (λ item. item.created_at)) (values s.queue_items)

unfoldable pub get_queue_item : String → Exec Store QueueItem
get_queue_item id s = (require "queue item not found: " id (lookup id s.queue_items), s)

unfoldable pub save_build : Build → Exec Store Build
save_build value s = (ok value, record s { builds = insert value.id value s.builds })

unfoldable pub get_build : String → Exec Store Build
get_build id s = (require "build not found: " id (lookup id s.builds), s)

unfoldable pub list_builds : Store → List Build
list_builds s = sort_by (newest_first (λ item. item.created_at)) (values s.builds)

-- `build.repository_id == repository_id and build.jenkins_job == old_job`
unfoldable pub is_bound : String → String → Build → Bool
is_bound repository_id old_job build =
    build.repository_id == repository_id && build.jenkins_job == old_job

abbrev pub rebind : String → String → String → Build → Build
rebind repository_id old_job new_job build =
    if is_bound repository_id old_job build then record build { jenkins_job = new_job } else build

unfoldable pub rebind_builds : String → String → String → Dict Build → Dict Build
rebind_builds repository_id old_job new_job [] = []
rebind_builds repository_id old_job new_job ((id, build) ∷ builds) =
    (id, rebind repository_id old_job new_job build)
    ∷ rebind_builds repository_id old_job new_job builds

unfoldable pub rebind_jenkins_job : String → String → String → Exec Store Unit
rebind_jenkins_job repository_id old_job new_job s =
    (ok tt, record s { builds = rebind_builds repository_id old_job new_job s.builds })

unfoldable pub record_webhook_once : WebhookDelivery → Exec Store Bool
record_webhook_once value s =
    if is_some (lookup value.delivery_id s.webhooks)
    then (ok false, s)
    else (ok true, record s { webhooks = insert value.delivery_id value s.webhooks })

unfoldable pub list_webhooks : Store → List WebhookDelivery
list_webhooks s = sort_by (newest_first (λ item. item.received_at)) (values s.webhooks)

-- `existing_id is not None and existing_id != value.id`
abbrev pub is_taken : Option String → String → Bool
is_taken none id = false
is_taken (some existing) id = not (existing == id)

-- `self.extension_runs[existing_id]`
abbrev pub run_at : Option String → Dict ExtensionRun → Result ExtensionRun
run_at none runs = err (key_error "None")
run_at (some id) runs = elim (lookup id runs) [ none ↦ err (key_error id) | some run ↦ ok run ]

unfoldable pub save_extension_run : ExtensionRun → Exec Store ExtensionRun
save_extension_run value s =
    let existing = lookup value.idempotency_key s.extension_keys in
    if is_taken existing value.id then (run_at existing s.extension_runs, s) else (
      ok value,
      record s {
        extension_runs = insert value.id value s.extension_runs;
        extension_keys = insert value.idempotency_key value.id s.extension_keys;
      },
    )

unfoldable pub get_extension_run : String → Exec Store ExtensionRun
get_extension_run id s = (require "extension run not found: " id (lookup id s.extension_runs), s)

unfoldable pub get_extension_run_by_key : String → Store → Option ExtensionRun
get_extension_run_by_key key s = elim (lookup key s.extension_keys) [
  | none ↦ none
  | some id ↦ lookup id s.extension_runs
]

unfoldable pub list_extension_runs : Store → List ExtensionRun
list_extension_runs s = sort_by (newest_first (λ item. item.created_at)) (values s.extension_runs)

unfoldable pub record_audit : AuditRecord → Exec Store Unit
record_audit value s = (ok tt, record s { audit = s.audit ++ value ∷ [] })

unfoldable pub list_audit : Store → List AuditRecord
list_audit s = sort_by (newest_first (λ item. item.created_at)) s.audit
