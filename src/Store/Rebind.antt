-- ===== src/Store/Rebind.antt =====
-- `rebind_jenkins_job` of store.py: the builds of one job move to another.
use jenkins_service.Prelude.{
  any, ◌∙◌, ◌==◌, ◌&&◌, String, ◌≡◌, ◌≢◌, refl, false, Option, none, some, [], ◌∷◌, arith, eq_iff,
  if◌then◌else◌,
}
use mathlib.Core.Option
use jenkins_service.Dict.{Dict, lookup, values, HasUniqueKeys, IsKeyed}
use jenkins_service.Model.Pipeline.{Build}
use jenkins_service.Store.{Store, rebind, is_bound, rebind_builds, rebind_jenkins_job}

abbrev rebound : String → String → String → Option Build → Option Build
rebound repository old new none = none
rebound repository old new (some build) = some (rebind repository old new build)

module _ (repository old new : String) where
  -- Each build that is found is the one found before, moved if it was bound to the old job.
  pub lookup-rebind_builds :
      (id : String) (d : Dict Build)
      → lookup id (rebind_builds repository old new d) ≡ rebound repository old new (lookup id d)
  unfolding lookup rebind_builds
  lookup-rebind_builds id [] = refl
  lookup-rebind_builds id ((j, b) ∷ d) = ground (arith, lookup-rebind_builds id d)

  rebind_builds_unique :
      (d : Dict Build) → HasUniqueKeys d → HasUniqueKeys (rebind_builds repository old new d)
  unfolding rebind_builds
  rebind_builds_unique [] h = tt
  rebind_builds_unique ((j, b) ∷ d) h =
      ground (arith, lookup-rebind_builds j d, rebind_builds_unique d h.1)

  pub rebind_builds-IsKeyed :
      (d : Dict Build)
      → IsKeyed (λ b. b.id) d
      → IsKeyed (λ b. b.id) (rebind_builds repository old new d)
  rebind_builds-IsKeyed d h = record {
    unique = rebind_builds_unique d h.unique;
    filed = λ id b e. filed id b (lookup id d) (h.filed id) (rw lookup-rebind_builds at e);
  }
    where
      filed :
          (id : String) (b : Build) (o : Option Build)
          → ((a : Build) → o ≡ some a → a.id ≡ id)
          → rebound repository old new o ≡ some b
          → b.id ≡ id
      filed id b none h e = cc
      filed id b (some a) h e = ground (arith, h a)

  no_bound :
      (d : Dict Build)
      → old ≢ new
      → any
          (λ b. b.repository_id == repository && b.jenkins_job == old)
          (values (rebind_builds repository old new d))
        ≡ false
  unfolding rebind_builds is_bound
  no_bound [] ne = refl
  no_bound ((j, b) ∷ d) ne = ground (
    arith,
    no_bound d,
    eq_iff b.jenkins_job old,
    eq_iff new old,
    eq_iff b.repository_id repository,
  )

  -- After the move to another job no stored build of the repository is bound to the old one, and
  -- under each id stands the build that stood there, with the new job in place of the old one where
  -- it was of the repository and bound to it, and as it was elsewhere; under an id that had no build
  -- none stands.
  pub rebind_jenkins_job-moves :
      (s : Store) (id : String)
      → old ≢ new
      → (any
            (λ b. b.repository_id == repository && b.jenkins_job == old)
            (values (rebind_jenkins_job repository old new s).1.builds)
          ≡ false)
        × (lookup id (rebind_jenkins_job repository old new s).1.builds
            ≡ Option.map
                (λ b.
                  if b.repository_id == repository && b.jenkins_job == old
                  then record b { jenkins_job = new }
                  else b)
                (lookup id s.builds))
  unfolding rebind_jenkins_job is_bound
  rebind_jenkins_job-moves s id ne =
      (no_bound s.builds ne, lookup-rebind_builds id s.builds ∙ moved (lookup id s.builds))
    where
      moved :
          (o : Option Build)
          → rebound repository old new o
            ≡ Option.map
                (λ b.
                  if b.repository_id == repository && b.jenkins_job == old
                  then record b { jenkins_job = new }
                  else b)
                o
      moved none = refl
      moved (some a) = refl
