-- ===== src/Service/Repositories.antt =====
-- service.py: registration, update, removal and scan of repositories.
pub mod Registers
use jenkins_service.Prelude.{
  ℕ, zero, suc, ◌+◌, String, ◌+++◌, ◌≡◌, refl, Bool, true, false, not, ◌&&◌, ◌||◌, Option, none,
  some, List, [], ◌∷◌, ◌++◌, any, lower, text_eq, starts_with, ends_with, codes, if◌then◌else◌,
}
use jenkins_service.Exec.{
  Exec, Error, value_error, Result, ok, err, pure, raise, try_catch, ◌>>=◌, ◌>>◌,
}
use jenkins_service.Model.Json.{Json, str, Fields, field, end}
use jenkins_service.Model.Scope.{Principal}
use jenkins_service.Model.Repository.{
  RepositoryCreate, RepositoryUpdate, Repository, full_name, create_full_name, apply_update,
}
use jenkins_service.Model.Audit.{AuditOutcome}
use jenkins_service.Model.Requests.{OperationAccepted}
use jenkins_service.Clients.Jobs.{job_name, legacy_job_path}
use jenkins_service.Store
use jenkins_service.Store.{Store}
use jenkins_service.Service.World.{
  Outside, World, Action, Call, ensure_job_call, delete_job_call, scan_call, on_store, tell,
  draw_id, now, audit,
}

-- `s[:-1]`
unfoldable pub without_last : List ℕ → List ℕ
without_last [] = []
without_last (c ∷ []) = []
without_last (c ∷ d ∷ s) = c ∷ without_last (d ∷ s)

-- one rule of the allowlist
unfoldable pub matches_rule : List ℕ → String → Bool
unfolding without_last
matches_rule lowered rule =
    text_eq lowered (lower rule)
    || ends_with (codes rule) (codes "/*") && starts_with lowered (without_last (lower rule))

module _ (o : Outside) where
  unfoldable pub repository_allowed : String → Bool
  unfolding matches_rule
  repository_allowed name = any (matches_rule (lower name)) o.github_allowlist

  -- `_rebind_legacy_job`
  unfoldable pub rebind_legacy_job : Repository → Action Unit
  unfolding Store.rebind_jenkins_job
  rebind_legacy_job repository = on_store (
      Store.rebind_jenkins_job repository.id
        ("repositories/" +++ job_name repository.owner repository.name)
        (legacy_job_path repository.owner repository.name))

  -- `ensure_job` for the default branch, and the move of the builds of the legacy job
  abbrev pub reconcile : Repository → Action Unit
  reconcile repository = do
    tell o (ensure_job_call repository.owner repository.name repository.default_branch none none)
    rebind_legacy_job repository

  -- the handler of a failed reconciliation: the registration is taken back
  abbrev pub take_back : Principal → Repository → Error → Action Unit
  take_back principal repository e = do
    on_store (Store.delete_repository repository.id)
    audit o principal "register_repository" (full_name repository) AuditOutcome.failed
        (field "reason" (str "Jenkins reconciliation failed") end)
    raise e

  -- A registration draws an id and two times, also where the store refuses it.
  unfoldable pub register_repository : Principal → RepositoryCreate → Action Repository
  unfolding Store.create_repository Store.delete_repository
  register_repository principal payload =
      if not (repository_allowed (create_full_name payload))
      then (do
        audit o principal "register_repository" (create_full_name payload) AuditOutcome.rejected
            (field "reason" (str "outside configured allowlist") end)
        raise (value_error "repository is outside the configured allowlist"))
      else (do
        id ← draw_id o
        created ← now o
        updated ← now o
        repository ← on_store (Store.create_repository payload id created updated)
        try_catch (reconcile repository) (take_back principal repository)
        audit o principal "register_repository" (full_name repository) AuditOutcome.succeeded end
        pure repository)

  unfoldable pub update_repository : Principal → RepositoryUpdate → String → Action Repository
  unfolding Store.get_repository Store.update_repository apply_update
  update_repository principal payload repository_id = do
    current ← on_store (Store.get_repository repository_id)
    reconcile (apply_update payload current)
    updated ← now o
    result ← on_store (Store.update_repository current.id payload updated)
    audit o principal "update_repository" (full_name result) AuditOutcome.succeeded end
    pure result

  unfoldable pub unregister_repository : Principal → String → Action OperationAccepted
  unfolding Store.get_repository Store.delete_repository
  unregister_repository principal repository_id = do
    repository ← on_store (Store.get_repository repository_id)
    tell o (delete_job_call repository.owner repository.name)
    on_store (Store.delete_repository repository.id)
    audit o principal "unregister_repository" (full_name repository) AuditOutcome.succeeded end
    pure (record { accepted = true; id = repository.id; detail = "repository unregistered" })

  unfoldable pub scan_repository : Principal → String → Action OperationAccepted
  unfolding Store.get_repository
  scan_repository principal repository_id = do
    repository ← on_store (Store.get_repository repository_id)
    tell o (scan_call repository.owner repository.name repository.default_branch)
    rebind_legacy_job repository
    audit o principal "scan_repository" (full_name repository) AuditOutcome.succeeded end
    pure
        (record { accepted = true; id = repository.id; detail = "repository hierarchy reconciled" })
