-- ===== src/Tests/Stores.antt =====
-- store.py.
use mathlib.Core.List.{Perm}
use jenkins_service.Prelude.{
  leb, any, not, ◌==◌, ◌&&◌, if◌then◌else◌, String, ◌≡◌, ◌≢◌, refl, false, none, some, List, [],
  ◌∷◌, arith, eq_iff, is_some, if◌then◌else◌,
}
use mathlib.Core.Option
use jenkins_service.Model.Repository.{or_else}
use jenkins_service.Exec.{ok, err, conflict}
use jenkins_service.Dict.{lookup, insert, values}
use jenkins_service.Sorting.{IsSorted}
use jenkins_service.Store
use jenkins_service.Store.{Store, empty, is_bound, by_name, newest_first}
use jenkins_service.Store.Invariant.{IsValid}
use jenkins_service.Store.Steps.{Op, run, run-empty-IsValid}
use jenkins_service.Store.Rebind.{rebind_jenkins_job-moves}
use jenkins_service.Store.Queries.{
  list_builds-IsSorted, record_webhook_once-twice, save_extension_run-first_wins,
}
use jenkins_service.Fixtures.{create, build, store, delivery, run_of}
use jenkins_service.Prelude.{same_lower}
use jenkins_service.Prelude.{lower}
use jenkins_service.Model.Repository.{full_name_of}
use jenkins_service.Prelude.{to_lower}

abbrev script : List Op
script =
    Op.create create "r1" 1 1
    ∷ Op.create create "r2" 2 2
    ∷ Op.put_build build
    ∷ Op.put_webhook delivery
    ∷ Op.put_run (run_of "x1")
    ∷ Op.delete "r1"
    ∷ []

run-empty-IsValid_example : IsValid (run script empty)
run-empty-IsValid_example = run-empty-IsValid script

-- A name that differs in case only is taken.
taken_name :
    (Store.create_repository
      (record create { owner = "EXAMPLE" })
      "r2"
      2
      2
      (Store.create_repository create "r1" 1 1 empty).1).0
    ≡ err (conflict "repository already registered: EXAMPLE/Project")
unfolding Store.create_repository Store.is_duplicate insert same_lower lower full_name_of to_lower
taken_name = refl

list_builds-IsSorted_example :
    Perm (Store.list_builds store) (values store.builds)
    × IsSorted (λ a b. leb b.created_at a.created_at) (Store.list_builds store)
list_builds-IsSorted_example = list_builds-IsSorted store

old_not_new :
    ◌≢◌ {A = String} "repositories/example--project" "repositories/example--project--legacy"
old_not_new =
    ground (arith, eq_iff "repositories/example--project" "repositories/example--project--legacy")

rebind_jenkins_job-moves_example :
    let old : String = "repositories/example--project" in
    let new : String = "repositories/example--project--legacy" in
    (any
        (λ b. b.repository_id == "r1" && b.jenkins_job == old)
        (values (Store.rebind_jenkins_job "r1" old new store).1.builds)
      ≡ false)
    × (lookup "b1" (Store.rebind_jenkins_job "r1" old new store).1.builds
        ≡ Option.map
            (λ b.
              if b.repository_id == "r1" && b.jenkins_job == old
              then record b { jenkins_job = new }
              else b)
            (lookup "b1" store.builds))
rebind_jenkins_job-moves_example =
    rebind_jenkins_job-moves "r1" "repositories/example--project"
      "repositories/example--project--legacy" store "b1" old_not_new

record_webhook_once-twice_example :
    let s' = (Store.record_webhook_once delivery store).1 in
    ((Store.record_webhook_once delivery store).0 ≡ ok (not (is_some (lookup "d1" store.webhooks))))
    × (lookup "d1" s'.webhooks ≡ some (or_else (lookup "d1" store.webhooks) delivery))
    × (Store.record_webhook_once delivery s' ≡ (ok false, s'))
record_webhook_once-twice_example = record_webhook_once-twice delivery delivery store refl

no_key : lookup "key-1" store.extension_keys ≡ none
unfolding lookup
no_key = refl

other_run : ◌≢◌ {A = String} "x1" "x2"
other_run = ground (arith, eq_iff "x1" "x2")

save_extension_run-first_wins_example :
    let s' = (Store.save_extension_run (run_of "x1") store).1 in
    ((Store.save_extension_run (run_of "x1") store).0 ≡ ok (run_of "x1"))
    × (Store.save_extension_run (run_of "x2") s' ≡ (ok (run_of "x1"), s'))
    × (Store.get_extension_run_by_key "key-1" s' ≡ some (run_of "x1"))
save_extension_run-first_wins_example =
    save_extension_run-first_wins (run_of "x1") (run_of "x2") store no_key refl other_run
