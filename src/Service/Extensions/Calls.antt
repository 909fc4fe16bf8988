-- ===== src/Service/Extensions/Calls.antt =====
-- service.py: which calls the actions of `run_extension_action` make, and what they leave in the store.
use jenkins_service.Prelude.{◌++◌, All, String, ◌+++◌, ◌≡◌, refl, ◌∙◌, List, [], ◌∷◌}
use jenkins_service.Exec.{Result, ok, err, pure, lift, resume, ◌>>=◌, ◌>>◌}
use jenkins_service.Model.Json.{Fields, get}
use jenkins_service.Model.Scope.{Principal}
use jenkins_service.Model.Repository.{Repository, full_name}
use jenkins_service.Model.Extension.{ExtensionManifest, ExtensionOutput}
use jenkins_service.Model.Audit.{AuditOutcome}
use jenkins_service.Model.Requests.{ExtensionActionRequest}
use jenkins_service.Extensions.{ExtensionCatalog, validate_output}
use jenkins_service.Store
use jenkins_service.Store.{Store}
use jenkins_service.Service.World.{Outside, World, Action, execute_action_call, ask, audit, Call}
use mathlib.Core.List.{append_assoc}
use jenkins_service.Service.Calls.{Makes, same-Adds, bind-Makes, ask-Makes, audit-Makes}
use jenkins_service.Service.Extensions.{
  Dumps, action_type, action_detail, github_action, github_actions, runner_call, run_actions,
}

-- The action leaves the index of the runs as it was, whether it returns or raises.
abbrev pub KeepsKeys : {A : Type 0} → Action A → Type 0
KeepsKeys m = (w : World) → (m w).1.store.extension_keys ≡ w.store.extension_keys

bind-KeepsKeys :
    {A B : Type 0} (m : Action A) (f : A → Action B)
    → KeepsKeys m
    → ((a : A) → KeepsKeys (f a))
    → KeepsKeys (m >>= f)
bind-KeepsKeys m f hm hf w = resumed (m w).0 (m w).1 (hm w)
  where
    resumed :
        (r : Result _) (u : World)
        → u.store.extension_keys ≡ w.store.extension_keys
        → (resume f r u).1.store.extension_keys ≡ w.store.extension_keys
    resumed (ok a) u h = hf a u ∙ h
    resumed (err e) u h = h

-- an action at GitHub
abbrev pub IsAction : Call → Type 0
IsAction (execute_action_call repository action request allowed) = Unit
IsAction _ = ⊥

module _ (o : Outside) (catalog : ExtensionCatalog) (dumps : Dumps) (principal : Principal) where
  audit-KeepsKeys :
      (action target : String) (outcome : AuditOutcome) (detail : Fields)
      → KeepsKeys (audit o principal action target outcome detail)
  unfolding audit Store.record_audit
  audit-KeepsKeys action target outcome detail w = refl

  github_action-KeepsKeys :
      (manifest : ExtensionManifest) (repository : Repository) (key : String) (request : Fields)
      → KeepsKeys (github_action o catalog dumps principal manifest repository key request)
  unfolding github_action
  github_action-KeepsKeys manifest repository key request =
      bind-KeepsKeys (lift (action_type (get "type" request))) _ (λ w. refl)
        (λ type.
          bind-KeepsKeys
            (ask (execute_action_call (full_name repository) type request manifest.github_actions)
              (λ calls.
                o.review_answer calls (
                  execute_action_call (full_name repository) type request manifest.github_actions)))
            _ (λ w. refl)
            (λ response_id.
              audit-KeepsKeys ("github." +++ type) (full_name repository) AuditOutcome.succeeded
                (action_detail manifest key response_id)))

  github_actions-KeepsKeys :
      (manifest : ExtensionManifest) (repository : Repository) (key : String)
      (requests : List Fields)
      → KeepsKeys (github_actions o catalog dumps principal manifest repository key requests)
  unfolding github_actions
  github_actions-KeepsKeys manifest repository key [] = λ w. refl
  github_actions-KeepsKeys manifest repository key (request ∷ requests) =
      bind-KeepsKeys (github_action o catalog dumps principal manifest repository key request)
        (λ _. github_actions o catalog dumps principal manifest repository key requests)
        (github_action-KeepsKeys manifest repository key request)
        (λ _. github_actions-KeepsKeys manifest repository key requests)

  github_action-Makes :
      (manifest : ExtensionManifest) (repository : Repository) (key : String) (request : Fields)
      → Makes IsAction (github_action o catalog dumps principal manifest repository key request)
  unfolding github_action
  github_action-Makes manifest repository key request =
      bind-Makes IsAction (lift (action_type (get "type" request))) _
        (λ w. same-Adds IsAction w w refl)
        (λ type.
          let call =
            execute_action_call (full_name repository) type request manifest.github_actions in
          bind-Makes IsAction (ask call (λ calls. o.review_answer calls call)) _
            (ask-Makes IsAction call (λ calls. o.review_answer calls call) tt)
            (λ response_id.
              audit-Makes o IsAction principal ("github." +++ type) (full_name repository)
                AuditOutcome.succeeded (action_detail manifest key response_id)))

  github_actions-Makes :
      (manifest : ExtensionManifest) (repository : Repository) (key : String)
      (requests : List Fields)
      → Makes IsAction (github_actions o catalog dumps principal manifest repository key requests)
  unfolding github_actions
  github_actions-Makes manifest repository key [] = λ w. same-Adds IsAction w w refl
  github_actions-Makes manifest repository key (request ∷ requests) =
      bind-Makes IsAction (github_action o catalog dumps principal manifest repository key request)
        (λ _. github_actions o catalog dumps principal manifest repository key requests)
        (github_action-Makes manifest repository key request)
        (λ _. github_actions-Makes manifest repository key requests)

  module _ (payload : ExtensionActionRequest) where
    -- The calls made are one of the extension runner, and behind it actions at GitHub.
    abbrev pub RanOnce : List Call → List Call → Type 0
    RanOnce before after =
        (manifest : ExtensionManifest) × (repository : Repository) × (actions : List Call) × (after
          ≡ before ++ runner_call o catalog dumps principal payload manifest repository ∷ actions)
        × All IsAction actions

    pub run_actions-RanOnce :
        (manifest : ExtensionManifest) (repository : Repository) (w : World)
        → RanOnce w.calls
            (run_actions o catalog dumps principal payload manifest repository w).1.calls
    unfolding run_actions
    run_actions-RanOnce manifest repository w = answered (o.output_answer w.calls call)
      where
        call : Call
        call = runner_call o catalog dumps principal payload manifest repository

        v : World
        v = record w { calls = w.calls ++ call ∷ [] }

        next : ExtensionOutput → Action ExtensionOutput
        next output = do
          lift (validate_output catalog manifest.id (dumps.of_output output))
          github_actions o catalog dumps principal manifest repository payload.idempotency_key
              output.requested_github_actions
          pure output

        next-Makes : (output : ExtensionOutput) → Makes IsAction (next output)
        next-Makes output =
            bind-Makes IsAction
              (lift (validate_output catalog manifest.id (dumps.of_output output))) _
              (λ u. same-Adds IsAction u u refl)
              (λ _.
                bind-Makes IsAction
                  (github_actions o catalog dumps principal manifest repository
                    payload.idempotency_key output.requested_github_actions)
                  (λ _. pure output)
                  (github_actions-Makes manifest repository payload.idempotency_key
                    output.requested_github_actions)
                  (λ _ u. same-Adds IsAction u u refl))

        answered : (r : Result ExtensionOutput) → RanOnce w.calls (resume next r v).1.calls
        answered (err e) = (manifest, repository, [], refl, tt)
        answered (ok output) =
            let added = next-Makes output v in
            (manifest, repository, added.0, added.1 ∙ simp append_assoc, added.2)

    pub run_actions-KeepsKeys :
        (manifest : ExtensionManifest) (repository : Repository)
        → KeepsKeys (run_actions o catalog dumps principal payload manifest repository)
    unfolding run_actions
    run_actions-KeepsKeys manifest repository =
        bind-KeepsKeys
          (ask (runner_call o catalog dumps principal payload manifest repository) (λ calls.
            o.output_answer calls
              (runner_call o catalog dumps principal payload manifest repository)))
          _ (λ w. refl)
          (λ output.
            bind-KeepsKeys (lift (validate_output catalog manifest.id (dumps.of_output output))) _
              (λ w. refl)
              (λ _.
                bind-KeepsKeys
                  (github_actions o catalog dumps principal manifest repository
                    payload.idempotency_key output.requested_github_actions)
                  (λ _. pure output)
                  (github_actions-KeepsKeys manifest repository payload.idempotency_key
                    output.requested_github_actions)
                  (λ _ w. refl)))
