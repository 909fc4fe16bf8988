-- ===== src/Tests/Extensions.antt =====
-- service.py and extensions.py: an extension that runs, and one whose output is refused.
use jenkins_service.Prelude.{◌≡◌, refl, true, none, [], ◌∷◌}
use jenkins_service.Exec.{ok, err, value_error}
use jenkins_service.Dict.{lookup, insert}
use jenkins_service.Model.Json.{null, end}
use jenkins_service.Model.Repository.{Repository}
use jenkins_service.Model.Extension.{ExtensionManifest}
use jenkins_service.Model.Requests.{ExtensionActionRequest}
use jenkins_service.Extensions.{ExtensionCatalog, from_directory, collect, new_catalog, allowlisted}
use jenkins_service.Service.World.{World}
use jenkins_service.Service.Extensions.{Dumps, run_extension_action}
use jenkins_service.Service.Extensions.Runs.{Runs, run_extension_action-Runs}
use jenkins_service.Fixtures.{outside, world, operator, store}

abbrev manifest : ExtensionManifest
manifest = record {
  schema_version = "v1";
  id = "lint";
  image = "registry/lint@sha256:abc";
  compatible_contracts = [];
  actions = "check" ∷ [];
  input_schema = "input.json";
  output_schema = "output.json";
  github_actions = "check_run" ∷ [];
  required_secrets = [];
  network = "none";
  timeout_seconds = 60;
  memory_mb = 64;
  cpus = 1000;
}

abbrev catalog : ExtensionCatalog
catalog = record { manifests = ("lint", manifest) ∷ []; first_error = λ id index value. none }

abbrev dumps : Dumps
dumps = record { of_repository = λ repository. null; of_output = λ output. null }

abbrev payload : ExtensionActionRequest
payload = record {
  extension_id = "lint";
  action = "check";
  repository_id = "r1";
  build_id = none;
  inputs = end;
  idempotency_key = "key-2";
}

abbrev repository : Repository
repository = record {
  owner = "Example";
  name = "Project";
  default_branch = "main";
  enabled = true;
  id = "r1";
  created_at = 1;
  updated_at = 1;
}

abbrev registered : World
registered = record world { store = record store { repositories = ("r1", repository) ∷ [] } }

run_extension_action-Runs_example :
    Runs outside catalog dumps operator payload registered
      (run_extension_action outside catalog dumps operator payload registered)
run_extension_action-Runs_example =
    run_extension_action-Runs outside catalog dumps operator payload registered

-- A directory with one manifest, which is allowlisted; and one twice.
lint_is_read : from_directory (λ id index value. none) (manifest ∷ []) ("lint" ∷ []) ≡ ok catalog
unfolding from_directory collect new_catalog allowlisted lookup insert
lint_is_read = refl

lint_twice :
    from_directory (λ id index value. none) (manifest ∷ manifest ∷ []) ("lint" ∷ [])
    ≡ err (value_error "duplicate extension ID: lint")
unfolding from_directory collect new_catalog lookup insert
lint_twice = refl
