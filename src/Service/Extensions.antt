-- ===== src/Service/Extensions.antt =====
-- service.py: `run_extension_action`.
pub mod Calls
pub mod Runs
use jenkins_service.Prelude.{
  ℕ, String, ◌+++◌, Bool, true, false, Option, none, some, List, [], ◌∷◌, ◌==◌, nat_eq,
  if◌then◌else◌,
}
use Prim.Native.Char.{code}
use jenkins_service.Exec.{
  Exec, Error, Result, ok, err, value_error, runtime_error, pure, raise, lift, try_catch, ◌>>=◌,
  ◌>>◌,
}
use jenkins_service.Model.Json.{Json, null, str, arr, obj, Fields, field, end, get}
use jenkins_service.Model.Scope.{Principal}
use jenkins_service.Model.Repository.{Repository, full_name, or_else}
use jenkins_service.Model.Extension.{ExtensionManifest, ExtensionOutput, RunStatus, ExtensionRun}
use jenkins_service.Model.Audit.{AuditOutcome}
use jenkins_service.Model.Requests.{ExtensionActionRequest}
use jenkins_service.Extensions.{ExtensionCatalog, get_manifest, validate_output}
use jenkins_service.Store
use jenkins_service.Service.World.{
  Outside, World, Action, Call, run_extension, execute_action_call, on_store, query, ask, draw_id,
  now, audit,
}

-- `model_dump` of pydantic
pub record Dumps : Type 0 where
  pub of_repository : Repository → Json
  pub of_output : ExtensionOutput → Json

-- the text behind the last `@`
unfoldable pub after_at : String → Option String
after_at String.[] = none
after_at (String.◌∷◌ c s) = elim (after_at s) [
  | some rest ↦ some rest
  | none ↦ if nat_eq (code c) b'@' then some s else none
]

-- `image.rsplit("@", 1)[1]`
abbrev pub required_digest : Option String → Result String
required_digest none = err (runtime_error "IndexError")
required_digest (some digest) = ok digest

-- `action_request.get("type", "")`, as `execute_action` looks it up in a set: only a text can be in
-- it, and a list or an object has no hash
abbrev pub action_type : Option Json → Result String
action_type none = ok ""
action_type (some (str s)) = ok s
action_type (some (arr items)) = err (runtime_error "TypeError")
action_type (some (obj fields)) = err (runtime_error "TypeError")
action_type (some _) = err (value_error "GitHub action is not allowed")

abbrev pub text_or_null : Option String → Json
text_or_null none = null
text_or_null (some s) = str s

-- the detail of the audit record of an action
abbrev pub action_detail : ExtensionManifest → String → Option Json → Fields
action_detail manifest idempotency_key response_id = field "extension" (str manifest.id) (
    field "image" (str manifest.image) (
      field "idempotency_key" (str idempotency_key)
        (field "response_id" (or_else response_id null) end)))

module _ (o : Outside) (catalog : ExtensionCatalog) (dumps : Dumps) (principal : Principal) where
  -- an action that the output asks for
  unfoldable pub github_action : ExtensionManifest → Repository → String → Fields → Action Unit
  unfolding audit get
  github_action manifest repository idempotency_key action_request = do
    type ← lift (action_type (get "type" action_request))
    let call =
        execute_action_call (full_name repository) type action_request manifest.github_actions
    response_id ← ask call (λ calls. o.review_answer calls call)
    audit o principal ("github." +++ type) (full_name repository) AuditOutcome.succeeded
        (action_detail manifest idempotency_key response_id)

  unfoldable pub github_actions :
      ExtensionManifest → Repository → String → List Fields → Action Unit
  unfolding github_action
  github_actions manifest repository idempotency_key [] = pure tt
  github_actions manifest repository idempotency_key (request ∷ requests) = do
    github_action manifest repository idempotency_key request
    github_actions manifest repository idempotency_key requests

  module _ (payload : ExtensionActionRequest) where
    abbrev pub runner_call : ExtensionManifest → Repository → Call
    runner_call manifest repository = run_extension manifest payload.action (
        field "repository" (dumps.of_repository repository) (
          field "build_id" (text_or_null payload.build_id)
            (field "inputs" (obj payload.inputs) end)))

    -- the runner, the check of its output and the actions
    unfoldable pub run_actions : ExtensionManifest → Repository → Action ExtensionOutput
    unfolding validate_output github_actions
    run_actions manifest repository = do
      let call = runner_call manifest repository
      output ← ask call (λ calls. o.output_answer calls call)
      lift (validate_output catalog manifest.id (dumps.of_output output))
      github_actions manifest repository payload.idempotency_key output.requested_github_actions
      pure output

    -- the end of a run, and that of one that raised
    abbrev pub finish_run : ExtensionRun → ExtensionOutput → Action ExtensionRun
    finish_run run output = do
      completed ← now o
      let done : ExtensionRun = record run {
        output = some output;
        status = RunStatus.succeeded;
        completed_at = some completed;
      }
      on_store (Store.save_extension_run done)
      pure done

    abbrev pub fail_run : ExtensionRun → Repository → Error → Action ExtensionRun
    fail_run run repository e = do
      completed ← now o
      on_store (
          Store.save_extension_run
            (record run { status = RunStatus.failed; completed_at = some completed }))
      audit o principal "run_extension_action" (full_name repository) AuditOutcome.failed end
      raise e

    unfoldable pub execute_run : ExtensionManifest → Repository → ExtensionRun → Action ExtensionRun
    unfolding run_actions Store.save_extension_run audit
    execute_run manifest repository run = do
      done ←
          try_catch (run_actions manifest repository >>= finish_run run) (fail_run run repository)
      audit o principal "run_extension_action" (full_name repository) AuditOutcome.succeeded end
      pure done

    -- a run that is saved is executed, unless another holds its key
    abbrev pub after_save :
        ExtensionManifest → Repository → ExtensionRun → ExtensionRun → Action ExtensionRun
    after_save manifest repository run stored =
        if stored.id == run.id then execute_run manifest repository run else pure stored

    abbrev pub new_extension_run :
        ExtensionManifest → Repository → String → String → ℕ → ExtensionRun
    new_extension_run manifest repository digest id created = record {
      id = id;
      extension_id = manifest.id;
      image_digest = digest;
      action = payload.action;
      target = full_name repository;
      idempotency_key = payload.idempotency_key;
      status = RunStatus.running;
      output = none;
      created_at = created;
      completed_at = none;
    }

    unfoldable pub start_run : Action ExtensionRun
    unfolding Store.get_repository get_manifest after_at execute_run Store.save_extension_run
    start_run = do
      repository ← on_store (Store.get_repository payload.repository_id)
      manifest ← lift (get_manifest catalog payload.extension_id)
      digest ← lift (required_digest (after_at manifest.image))
      id ← draw_id o
      created ← now o
      let run : ExtensionRun = new_extension_run manifest repository digest id created
      stored ← on_store (Store.save_extension_run run)
      after_save manifest repository run stored

    -- `if previous is not None: return previous`
    abbrev pub previous_or : Option ExtensionRun → Action ExtensionRun
    previous_or (some previous) = pure previous
    previous_or none = start_run

    unfoldable pub run_extension_action : Action ExtensionRun
    unfolding start_run Store.get_extension_run_by_key
    run_extension_action =
        query (Store.get_extension_run_by_key payload.idempotency_key) >>= previous_or
