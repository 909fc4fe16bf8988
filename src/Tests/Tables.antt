-- ===== src/Tests/Tables.antt =====
-- store.py: `PostgresStore` on small tables.
use jenkins_service.Prelude.{◌≡◌, refl, List, [], ◌∷◌}
use jenkins_service.Dict.{lookup, insert}
use jenkins_service.Store.{empty}
use jenkins_service.Store.Invariant.{IsValid}
use jenkins_service.Store.Steps.{Op, run}
use jenkins_service.Postgres
use jenkins_service.Postgres.{Tables, no_rows, violates_unique, upsert_owned, row_of_key}
use jenkins_service.Postgres.View.{view, IsSound, no_rows-IsSound}
use jenkins_service.Postgres.Refines.Steps.{
  AdmitsRun, run_rows-view, OpRefines, Admits-OpRefines, step_rows, run_rows, run_rows-empty,
}
use jenkins_service.Fixtures.{create, build, queue_item, delivery, run_of}

abbrev script : List Op
script =
    Op.create create "r1" 1 1
    ∷ Op.put_queue_item queue_item
    ∷ Op.put_build build
    ∷ Op.move_job "r1" "repositories/example--project" "repositories/other"
    ∷ Op.put_webhook delivery
    ∷ Op.put_run (run_of "x1")
    ∷ []

abbrev tables : Tables
tables = run_rows script no_rows

script_admitted : AdmitsRun script no_rows
unfolding step_rows Postgres.create_repository violates_unique Postgres.save_queue_item
    Postgres.save_build upsert_owned Postgres.rebind_jenkins_job Postgres.record_webhook_once
    Postgres.save_extension_run row_of_key lookup insert
script_admitted = (refl, ((refl, λ row e. cc), ((refl, λ row e. cc), (tt, (tt, (refl, tt))))))

tables-IsSound : IsSound tables
tables-IsSound = (run_rows-view script no_rows no_rows-IsSound script_admitted).1

-- Another run of the key that is taken.
Admits-OpRefines_example : OpRefines (Op.put_run (run_of "x2")) tables
unfolding run_rows step_rows Postgres.create_repository violates_unique Postgres.save_queue_item
    Postgres.save_build upsert_owned Postgres.rebind_jenkins_job Postgres.record_webhook_once
    Postgres.save_extension_run row_of_key lookup insert
Admits-OpRefines_example = Admits-OpRefines (Op.put_run (run_of "x2")) tables tables-IsSound refl

run_rows-empty_example :
    (view (run_rows script no_rows) ≡ run script empty) × IsValid (view (run_rows script no_rows))
run_rows-empty_example = run_rows-empty script script_admitted
