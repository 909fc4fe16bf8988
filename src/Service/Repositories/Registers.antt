-- ===== src/Service/Repositories/Registers.antt =====
-- What a registration does, on every branch.
use jenkins_service.Prelude.{
  ◌+◌, ◌≡◌, refl, true, false, none, [], ◌∷◌, ◌++◌, eq_refl, is_some, Bool-cases, inl, inr,
}
use jenkins_service.Exec.{Result, ok, err}
use jenkins_service.Dict.{lookup, insert, lookup-insert, erase-insert}
use jenkins_service.Model.Scope.{Principal}
use jenkins_service.Model.Repository.{RepositoryCreate, Repository, create_full_name}
use jenkins_service.Store
use jenkins_service.Store.{Store, new_repository, is_duplicate}
use jenkins_service.Service.World
use jenkins_service.Service.World.{Outside, World, Call, ensure_job_call}
use jenkins_service.Service.Repositories.{
  repository_allowed, rebind_legacy_job, register_repository,
}

module _ (o : Outside) (principal : Principal) (payload : RepositoryCreate) where
  -- the repository that a registration makes, and the call that prepares its Jenkins job
  abbrev pub made : World → Repository
  made w = new_repository payload (o.uuid w.ids) (o.clock w.times) (o.clock (w.times + 1))

  abbrev pub job_call : Call
  job_call = ensure_job_call payload.owner payload.name payload.default_branch none none

  abbrev pub Registers : World → Result Repository × World → Type 0
  Registers w (ok repository, w') =
      (repository_allowed o (create_full_name payload) ≡ true)
      × (is_duplicate (create_full_name payload) w.store.repositories ≡ false)
      × (repository ≡ made w)
      × (w'.store.repositories ≡ insert repository.id repository w.store.repositories)
      × (w'.calls ≡ w.calls ++ job_call ∷ [])
      × (o.unit_answer w.calls job_call ≡ ok tt)
  Registers w (err e, w') = w'.store.repositories ≡ w.store.repositories

  -- A registration that succeeds is of an allowed repository whose name no other one has; the
  -- repository is added to the registered ones, and its Jenkins job has been reconciled by one
  -- call that was answered well. One that raises, also when Jenkins fails, leaves the
  -- registered repositories as they were. The id drawn is new.
  pub register_repository-Registers :
      (w : World)
      → is_some (lookup (o.uuid w.ids) w.store.repositories) ≡ false
      → Registers w (register_repository o principal payload w)
  unfolding register_repository World.audit Store.create_repository Store.delete_repository
      rebind_legacy_job
  register_repository-Registers w fresh =
      elim (Bool-cases (repository_allowed o (create_full_name payload))) [
        | inr refused ↦ rw refused refl
        | inl allowed ↦
            elim (Bool-cases (is_duplicate (create_full_name payload) w.store.repositories)) [
              | inl duplicate ↦ rw (allowed, duplicate) refl
              | inr unique ↦ by_answer allowed unique (o.unit_answer w.calls job_call) refl
            ]
      ]
    where
      by_answer :
          repository_allowed o (create_full_name payload) ≡ true
          → is_duplicate (create_full_name payload) w.store.repositories ≡ false
          → (answer : Result (Unit {0})) → o.unit_answer w.calls job_call ≡ answer
          → Registers w (register_repository o principal payload w)
      by_answer allowed unique (ok u) e =
          rw (allowed, unique, e) (allowed, unique, refl, refl, refl, e)
      by_answer allowed unique (err e') e =
          rw
            (
              allowed,
              unique,
              e,
              lookup-insert (o.uuid w.ids) (o.uuid w.ids) (made w) w.store.repositories,
              eq_refl (o.uuid w.ids),
            )
            (erase-insert (o.uuid w.ids) (made w) w.store.repositories fresh)
