-- ===== src/Fixtures.antt =====
-- Small data for the tests: a repository, a build, a completion, and answers of the outside world.
use jenkins_service.Prelude.{◌*◌, String, true, none, some, [], ◌∷◌}
use jenkins_service.Exec.{ok, err, upstream}
use jenkins_service.Model.Scope.{Scope, Principal}
use jenkins_service.Model.Repository.{RepositoryCreate}
use jenkins_service.Model.Review.{default_policy}
use jenkins_service.Model.Pipeline.{Status, QueueState, QueueItem, PipelineResult, Build}
use jenkins_service.Model.Extension.{RunStatus, ExtensionRun, empty_output}
use jenkins_service.Model.Audit.{WebhookDelivery}
use jenkins_service.Model.Requests.{BuildCompletion}
use jenkins_service.Store.{Store, empty}
use jenkins_service.Service.World.{Outside, World}

abbrev pub operator : Principal
operator = record { token_id = "jenkins-callback"; scopes = Scope.operate ∷ [] }

abbrev pub create : RepositoryCreate
create = record { owner = "Example"; name = "Project"; default_branch = "main"; enabled = true }

abbrev pub sha : String
sha = "aaaaaaaaaaaaaaaaaaaaaaaaaaaaaaaaaaaaaaaa"

abbrev pub result_with : Status → PipelineResult
result_with status = record {
  repository = "example/project";
  commit_sha = sha;
  trusted_sha = none;
  base_sha = none;
  build_id = some "b1";
  pull_request = none;
  status = status;
  started_at = none;
  completed_at = none;
  checks = [];
  artifacts = [];
  extension_runs = [];
}

abbrev pub build : Build
build = record {
  id = "b1";
  repository_id = "r1";
  jenkins_job = "repositories/example--project";
  queue_item_id = some "q1";
  jenkins_queue_id = some 7;
  jenkins_build_number = none;
  branch = some "main";
  reused_from_build_id = none;
  review_policy = none;
  ai_review_log = none;
  result = result_with Status.queued;
  created_at = 5;
  updated_at = 5;
}

abbrev pub queue_item : QueueItem
queue_item = record {
  id = "q1";
  repository_id = "r1";
  build_id = some "b1";
  jenkins_queue_id = some 7;
  state = QueueState.queued;
  commit_sha = sha;
  base_sha = none;
  branch = some "main";
  pull_request = none;
  created_at = 5;
}

abbrev pub completion : BuildCompletion
completion = record {
  callback_id = "callback-1";
  timestamp = 10;
  build_id = "b1";
  result = result_with Status.passed;
  review = default_policy;
  diff = none;
}

abbrev pub delivery : WebhookDelivery
delivery = record {
  delivery_id = "d1";
  event = "push";
  repository = "example/project";
  accepted = true;
  reason = none;
  received_at = 3;
}

abbrev pub run_of : String → ExtensionRun
run_of id = record {
  id = id;
  extension_id = "openai-review";
  image_digest = "model";
  action = "v1";
  target = "example/project";
  idempotency_key = "key-1";
  status = RunStatus.running;
  output = none;
  created_at = 4;
  completed_at = none;
}

abbrev pub store : Store
store = record empty { builds = ("b1", build) ∷ []; queue_items = ("q1", queue_item) ∷ [] }

-- Every call is answered well, and the text of a draw does not depend on its number.
abbrev pub outside : Outside
outside = record {
  from_timestamp = λ ms. ok (ms * 1000);
  uuid = λ n. "fresh";
  clock = λ n. n;
  unit_answer = λ calls call. ok tt;
  number_answer = λ calls call. ok 7;
  queue_answer = λ calls id. ok none;
  state_answer = λ calls job number. ok none;
  result_answer = λ calls job number limit. ok none;
  log_answer = λ calls job number offset. err (upstream "no log");
  review_answer = λ calls call. ok none;
  diff_answer = λ calls call. err (upstream "no diff");
  broker_answer = λ calls call. err (upstream "no review");
  output_answer = λ calls call. ok empty_output;
  parse_result = λ text. none;
  branch_digest = λ branch. "0123456789abcdef";
  sha256 = λ text. "digest";
  log_digest = λ log. "digest";
  log_size = λ log. 100;
  decimal = λ n. "1";
  json_text = λ json. "1";
  error_name = λ e. "UpstreamError";
  redact = λ text. text;
  github_allowlist = "example/*" ∷ [];
  max_artifact_bytes = 1000;
  public_base_url = none;
  openai_model = "model";
  review_prompt_version = "v1";
  has_review_broker = true;
  request_id = "request";
}

abbrev pub world : World
world = record { store = store; calls = []; ids = 0; times = 0 }
