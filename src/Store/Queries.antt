-- ===== src/Store/Queries.antt =====
-- What the store answers: lists, and the operations that write at most once under a key.
use jenkins_service.Prelude.{
  ℕ, String, ◌≡◌, ◌≢◌, refl, true, false, none, some, arith, ◌==◌, eq_iff, eq_refl, is_some,
  if◌then◌else◌, Option-cases, inl, inr, lower, not, leb,
}
use mathlib.Core.List.{Perm}
use jenkins_service.Exec.{ok}
use jenkins_service.Dict.{lookup, values, lookup-insert}
use jenkins_service.Sorting.{IsSorted, sort_by-perm, sort_by-IsSorted, text_leb-total}
use jenkins_service.Model.Repository.{full_name, or_else}
use jenkins_service.Model.Pipeline.{Build}
use jenkins_service.Model.Extension.{ExtensionRun}
use jenkins_service.Model.Audit.{WebhookDelivery}
use jenkins_service.Store.{
  Store, by_name, newest_first, list_repositories, list_builds, save_build, get_build,
  record_webhook_once, save_extension_run, get_extension_run_by_key,
}

newest_first-total :
    {A : Type 0} (created : A → ℕ) (a b : A)
    → newest_first created a b ≡ false
    → newest_first created b a ≡ true
newest_first-total created a b h = ground arith

-- The listed builds are the stored ones, each as often, and each was created at the time of the
-- next one or after it.
pub list_builds-IsSorted :
    (s : Store)
    → Perm (list_builds s) (values s.builds)
      × IsSorted (λ a b. leb b.created_at a.created_at) (list_builds s)
unfolding list_builds
list_builds-IsSorted s = (
  sort_by-perm _ (values s.builds),
  sort_by-IsSorted _ (newest_first-total (λ (b : Build). b.created_at)) (values s.builds),
)

-- The listed repositories are the registered ones, in the order of their names in lower case.
pub list_repositories-IsSorted :
    (s : Store)
    → Perm (list_repositories s) (values s.repositories) × IsSorted by_name (list_repositories s)
unfolding list_repositories
list_repositories-IsSorted s = (
  sort_by-perm _ (values s.repositories),
  sort_by-IsSorted _ (λ a b. text_leb-total (lower (full_name a)) (lower (full_name b)))
      (values s.repositories),
)

-- A build that was saved is the one that is found, and the builds of other ids are untouched.
pub get_build-save_build :
    (b : Build) (id : String) (s : Store)
    → (get_build id (save_build b s).1).0 ≡ (if b.id == id then ok b else (get_build id s).0)
unfolding get_build save_build
get_build-save_build b id s = ground (arith, lookup-insert b.id id b s.builds)

record_webhook_once-known :
    (w : WebhookDelivery) (s : Store)
    → is_some (lookup w.delivery_id s.webhooks) ≡ true
    → record_webhook_once w s ≡ (ok false, s)
unfolding record_webhook_once
record_webhook_once-known w s h = rw h

record_webhook_once-stores :
    (v : WebhookDelivery) (s : Store)
    → ((record_webhook_once v s).0 ≡ ok (not (is_some (lookup v.delivery_id s.webhooks))))
      × (lookup v.delivery_id (record_webhook_once v s).1.webhooks
          ≡ some (or_else (lookup v.delivery_id s.webhooks) v))
unfolding record_webhook_once
record_webhook_once-stores v s = elim (Option-cases (lookup v.delivery_id s.webhooks)) [
  | inl new ↦ rw new (refl, simp (lookup-insert, eq_refl))
  | inr (old, known) ↦ rw known (refl, known)
]

-- A record of a delivery answers true exactly where its id was not known, and then it is what is
-- stored under the id; from then on the same delivery id answers false and changes nothing.
pub record_webhook_once-twice :
    (v w : WebhookDelivery) (s : Store)
    → w.delivery_id ≡ v.delivery_id
    → let s' = (record_webhook_once v s).1 in
      ((record_webhook_once v s).0 ≡ ok (not (is_some (lookup v.delivery_id s.webhooks))))
      × (lookup v.delivery_id s'.webhooks ≡ some (or_else (lookup v.delivery_id s.webhooks) v))
      × (record_webhook_once w s' ≡ (ok false, s'))
record_webhook_once-twice v w s e =
    let (answer, stored) = record_webhook_once-stores v s in
    (answer, stored, record_webhook_once-known w (record_webhook_once v s).1 (rw (e, stored) refl))

-- The first run that is saved under an idempotency key keeps it: a save of another run under that
-- key changes nothing and answers with the first, and so does the query by key.
pub save_extension_run-first_wins :
    (v w : ExtensionRun) (s : Store)
    → lookup v.idempotency_key s.extension_keys ≡ none
    → w.idempotency_key ≡ v.idempotency_key
    → v.id ≢ w.id
    → let s' = (save_extension_run v s).1 in
      ((save_extension_run v s).0 ≡ ok v)
      × (save_extension_run w s' ≡ (ok v, s'))
      × (get_extension_run_by_key v.idempotency_key s' ≡ some v)
unfolding save_extension_run get_extension_run_by_key
save_extension_run-first_wins v w s free same ne =
    rw (same, free)
      (
        refl,
        ground (
          arith,
          lookup-insert v.idempotency_key v.idempotency_key v.id s.extension_keys,
          lookup-insert v.id v.id v s.extension_runs,
          eq_refl v.idempotency_key,
          eq_refl v.id,
          eq_iff v.id w.id,
        ),
        ground (
          arith,
          lookup-insert v.idempotency_key v.idempotency_key v.id s.extension_keys,
          lookup-insert v.id v.id v s.extension_runs,
          eq_refl v.idempotency_key,
          eq_refl v.id,
        ),
      )
