-- ===== src/Clients/Jenkins/Operations.antt =====
-- clients.py: the operations of `JenkinsClient`. The lock of `ensure_job` is left out: one call runs
-- at a time.
use jenkins_service.Prelude.{
  ℕ, suc, String, ◌+++◌, Bool, Option, none, some, List, [], ◌∷◌, ◌++◌, ◌==◌, codes, split, lower,
  text_eq, nat_eq, opt_eq, if◌then◌else◌,
}
use jenkins_service.Exec.{
  ok, err, runtime_error, value_error, upstream, pure, raise, lift, try_catch, ◌>>=◌, ◌>>◌,
}
use jenkins_service.Model.Json.{Json, get, as_object, as_string}
use jenkins_service.Model.Repository.{or_else}
use jenkins_service.Clients.Http.{
  no_body, text, Request, Response, Network, Remote, request, raise_for_status, json_of, body_of,
  or_upstream, or_upstream_value, header, read_bounded, check_declared,
}
use jenkins_service.Clients.Jobs.{job_name, legacy_job_path, branch_job_name, managed_job_path}
use jenkins_service.Clients.Jenkins.{JenkinsClient, job_path, crumb, post, post_request, item}
use jenkins_service.Clients.Jenkins.Folder.{ensure_repository_folder, workflow_class}
use jenkins_service.Clients.Jenkins.Quoting.{groovy_single_quoted}

-- `branch or default_branch`
abbrev pub branch_or : Option String → String → String
branch_or none default_branch = default_branch
branch_or (some branch) default_branch = if branch == "" then default_branch else branch

-- `text or ""`
abbrev pub or_empty : Option String → String
or_empty value = or_else value ""

-- `s.rstrip(c)` of one character
unfoldable pub without_end : ℕ → List ℕ → List ℕ
without_end c [] = []
without_end c (x ∷ s) = elim (without_end c s) [
  | [] ↦ if nat_eq x c then [] else x ∷ []
  | y ∷ rest ↦ x ∷ y ∷ rest
]

-- the last of two parts or more
unfoldable pub last_part : List (List ℕ) → Option (List ℕ)
last_part [] = none
last_part (part ∷ []) = none
last_part (part ∷ next ∷ []) = some next
last_part (part ∷ next ∷ more ∷ parts) = last_part (next ∷ more ∷ parts)

-- the script of a job, which loads the pipeline of the controller's library
unfoldable pub job_script : String → String → String → String
unfolding groovy_single_quoted
job_script repository_url default_branch repository =
    "@Library('jenkins-service-contract') _\njenkinsServicePipeline(repositoryUrl: '"
    +++ (groovy_single_quoted repository_url
        +++ ("', trustedBranch: '"
            +++ (groovy_single_quoted default_branch
                +++ ("', repository: '" +++ (groovy_single_quoted repository +++ "')\n")))))

abbrev pub parameter_xml : String → String
parameter_xml name =
    "<hudson.model.StringParameterDefinition><name>"
    +++ (name
        +++ "</name><defaultValue></defaultValue><trim>true</trim></hudson.model.StringParameterDefinition>")

module _ (net : Network) where
  -- the XML of a job
  unfoldable pub job_xml : String → String → String
  job_xml display_name script =
      "<?xml version='1.1' encoding='UTF-8'?><flow-definition plugin='workflow-job'><actions/><description>Managed "
      +++ (net.escape display_name
          +++ (" pipeline. Do not edit.</description><displayName>"
              +++ (net.escape display_name
                  +++ ("</displayName><keepDependencies>false</keepDependencies><properties><hudson.model.ParametersDefinitionProperty><parameterDefinitions>"
                      +++ (parameter_xml "COMMIT_SHA"
                          +++ (parameter_xml "PULL_REQUEST"
                              +++ (parameter_xml "BASE_SHA"
                                  +++ (parameter_xml "BUILD_ID"
                                      +++ ("</parameterDefinitions></hudson.model.ParametersDefinitionProperty></properties><definition class='org.jenkinsci.plugins.workflow.cps.CpsFlowDefinition' plugin='workflow-cps'><script>"
                                          +++ (net.escape script
                                              +++ "</script><sandbox>true</sandbox></definition><triggers/><disabled>false</disabled></flow-definition>"))))))))))

  abbrev pub display_name_of : String → Option ℕ → String
  display_name_of branch none = branch
  display_name_of branch (some pull_request) = "PR-" +++ net.decimal pull_request

  -- `str(pull_request or "")`
  abbrev pub pull_request_text : Option ℕ → String
  pull_request_text (some (suc n)) = net.decimal (suc n)
  pull_request_text _ = ""

  -- `int(location.rstrip("/").rsplit("/", 1)[1])`, where it does not raise
  unfoldable pub queue_number : String → Option ℕ
  unfolding without_end split last_part
  queue_number location = elim (last_part (split b'/' (without_end b'/' (codes location)))) [
    | none ↦ none
    | some part ↦ net.read_int part
  ]

  module _ (jenkins : JenkinsClient) where
    -- where the XML of a job goes: to a new item, or to the configuration of the one there is
    unfoldable pub target_of : String → String → Response → Remote (String × List (String × String))
    unfolding raise_for_status json_of get as_object as_string
    target_of repository_name child_name existing =
        let job = "repositories/" +++ (repository_name +++ ("/" +++ child_name)) in
        if nat_eq existing.status_code 404
        then pure (
          "/job/" +++ (job_path net ("repositories/" +++ repository_name) +++ "/createItem"),
          ("name", child_name) ∷ [],
        )
        else (do
          raise_for_status existing
          value ← json_of net existing
          fields ← lift (elim (as_object (some value)) [
            | none ↦ err (runtime_error "AttributeError")
            | some fields ↦ ok fields
          ])
          if opt_eq ◌==◌ (as_string (get "_class" fields)) (some workflow_class)
              then pure ("/job/" +++ (job_path net job +++ "/config.xml"), [])
              else raise
                  (upstream ("managed Jenkins branch path has an unexpected item type: " +++ job)))

    unfoldable pub ensure_job : String → String → String → Option String → Option ℕ → Remote Unit
    unfolding item crumb request raise_for_status job_xml job_script
    ensure_job owner name default_branch branch pull_request = do
      ensure_repository_folder net jenkins owner name
      let repository = owner +++ ("/" +++ name)
      let child_name =
          branch_job_name net.branch_digest net.decimal (branch_or branch default_branch)
            pull_request
      let display_name = display_name_of (branch_or branch default_branch) pull_request
      let script =
          job_script (jenkins.github_web_url +++ ("/" +++ (repository +++ ".git"))) default_branch
            repository
      existing ←
          item net jenkins ("repositories/" +++ (job_name owner name +++ ("/" +++ child_name)))
      headers ← crumb net jenkins
      target ← target_of (job_name owner name) child_name existing
      try_catch
          (do
            response ← request net (
                post_request net jenkins target.0 target.1
                  (headers ++ ("Content-Type", "application/xml") ∷ [])
                  (text (job_xml display_name script)))
            raise_for_status response)
          (or_upstream
            ("failed to reconcile Jenkins job for " +++ (repository +++ (" " +++ display_name))))

    -- `doDelete` of an item that is there
    unfoldable pub delete_item : String → Remote Unit
    unfolding item raise_for_status post
    delete_item path = do
      existing ← item net jenkins path
      if nat_eq existing.status_code 404 then pure tt else (do
        raise_for_status existing
        post net jenkins ("/job/" +++ (job_path net path +++ "/doDelete")) []
        pure tt)

    unfoldable pub delete_job : String → String → Remote Unit
    unfolding delete_item
    delete_job owner name = do
      delete_item ("repositories/" +++ job_name owner name)
      delete_item (legacy_job_path owner name)

    unfoldable pub scan : String → String → String → Remote Unit
    unfolding ensure_job
    scan owner name default_branch = ensure_job owner name default_branch none none

    unfoldable pub trigger :
        String
        → String
        → String
        → Option ℕ
        → Option String
        → Option String
        → Option String
        → Remote ℕ
    unfolding post header
    trigger owner name commit_sha pull_request base_sha build_id none =
        raise (value_error "branch is required when triggering a managed Jenkins job")
    trigger owner name commit_sha pull_request base_sha build_id (some branch) = do
      let job = managed_job_path net.branch_digest net.decimal owner name branch pull_request
      response ← post net jenkins ("/job/" +++ (job_path net job +++ "/buildWithParameters")) (
          ("COMMIT_SHA", commit_sha)
          ∷ ("PULL_REQUEST", pull_request_text pull_request)
          ∷ ("BASE_SHA", or_empty base_sha)
          ∷ ("BUILD_ID", or_empty build_id)
          ∷ [])
      elim (queue_number (or_empty (header "location" response.headers))) [
        | none ↦ raise (upstream "Jenkins did not return a valid queue item location")
        | some number ↦ pure number
      ]

    unfoldable pub cancel : String → ℕ → Remote Unit
    unfolding post
    cancel job build_number = do
      post net jenkins
          ("/job/" +++ (job_path net job +++ ("/" +++ (net.decimal build_number +++ "/stop")))) []
      pure tt

    unfoldable pub cancel_queue : ℕ → Remote Unit
    unfolding post
    cancel_queue queue_id = do
      post net jenkins "/queue/cancelItem" (("id", net.decimal queue_id) ∷ [])
      pure tt

    abbrev pub get_request : String → List (String × String) → Request
    get_request path params = record {
      method = "GET";
      url = jenkins.base_url +++ path;
      params = params;
      headers = [];
      body = no_body;
    }

    -- the state that a request reads, where there is one
    unfoldable pub read_state : String → String → String → Remote (Option Json)
    unfolding request raise_for_status json_of
    read_state path tree message =
        try_catch
          (do
            response ← request net (get_request path (("tree", tree) ∷ []))
            if nat_eq response.status_code 404 then pure none else (do
              raise_for_status response
              value ← json_of net response
              pure (some value)))
          (or_upstream message)

    unfoldable pub queue_status : ℕ → Remote (Option Json)
    queue_status queue_id =
        read_state ("/queue/item/" +++ (net.decimal queue_id +++ "/api/json"))
          "cancelled,executable[number]"
          ("failed to read Jenkins queue item " +++ net.decimal queue_id)

    unfoldable pub build_status : String → ℕ → Remote (Option Json)
    build_status job build_number =
        read_state
          ("/job/" +++ (job_path net job +++ ("/" +++ (net.decimal build_number +++ "/api/json"))))
          "building,result,timestamp,duration"
          ("failed to read Jenkins build " +++ (job +++ (" #" +++ net.decimal build_number)))

    unfoldable pub pipeline_result : String → ℕ → ℕ → Remote (Option (List ℕ))
    unfolding request raise_for_status check_declared read_bounded
    pipeline_result job build_number max_bytes =
        let limit : String = "Jenkins pipeline result exceeds configured limit" in
        try_catch
          (do
            response ← request net (
                get_request
                  ("/job/"
                    +++ (job_path net job
                        +++ ("/"
                            +++ (net.decimal build_number
                                +++ "/artifact/artifacts/pipeline-result.json"))))
                  [])
            if nat_eq response.status_code 404 then pure none else (do
              raise_for_status response
              check_declared net limit max_bytes response
              content ← read_bounded limit max_bytes [] response.chunks
              pure (some content)))
          (or_upstream_value (
            "failed to read Jenkins pipeline result for "
            +++ (job +++ (" #" +++ net.decimal build_number))))

    -- `int(response.headers.get("x-text-size", start))`
    abbrev pub next_offset : ℕ → Option String → Remote ℕ
    next_offset start none = pure start
    next_offset start (some size) = elim (net.read_int (codes size)) [
      | none ↦ raise (value_error "invalid literal for int()")
      | some n ↦ pure n
    ]

    unfoldable pub progressive_log : String → ℕ → ℕ → Remote (String × ℕ × Bool)
    unfolding request raise_for_status header body_of
    progressive_log job build_number start =
        try_catch
          (do
            response ← request net (
                get_request
                  ("/job/"
                    +++ (job_path net job
                        +++ ("/" +++ (net.decimal build_number +++ "/logText/progressiveText"))))
                  (("start", net.decimal start) ∷ []))
            raise_for_status response
            next ← next_offset start (header "x-text-size" response.headers)
            pure (
              net.text_of (body_of response.chunks),
              next,
              text_eq (lower (or_else (header "x-more-data" response.headers) "false"))
                  (codes "true"),
            ))
          (or_upstream_value
            ("failed to read Jenkins log for " +++ (job +++ (" #" +++ net.decimal build_number))))
