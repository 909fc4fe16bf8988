-- ===== src/Clients/Jenkins/Folder.antt =====
-- clients.py: `_ensure_repository_folder`, which turns the item of a repository into a folder.
pub mod Settles
pub mod Bounds
use jenkins_service.Prelude.{
  ℕ, zero, suc, ◌+◌, String, ◌+++◌, Bool, true, false, not, ◌&&◌, ◌||◌, Option, none, some, List,
  [], ◌∷◌, ◌==◌, opt_eq, is_some, if◌then◌else◌,
}
use jenkins_service.Exec.{Exec, Error, transport, upstream, pure, raise, try_catch, ◌>>=◌, ◌>>◌}
use jenkins_service.Clients.Http.{Event, Network, Remote}
use jenkins_service.Clients.Jobs.{job_name, legacy_job_name}
use jenkins_service.Clients.Jenkins.{
  JenkinsClient, job_path, item_class, post, reconcile_pause, create_item,
}

abbrev pub folder_class : String
folder_class = "com.cloudbees.hudson.plugins.folder.Folder"

abbrev pub workflow_class : String
workflow_class = "org.jenkinsci.plugins.workflow.job.WorkflowJob"

-- the XML of a folder
abbrev pub folder_xml : String
folder_xml =
    "<?xml version='1.1' encoding='UTF-8'?><com.cloudbees.hudson.plugins.folder.Folder plugin='cloudbees-folder'><actions/><description>Managed repository branches. Do not edit.</description><properties/><folderViews class='com.cloudbees.hudson.plugins.folder.views.DefaultFolderViewHolder'><views><hudson.model.AllView><owner class='com.cloudbees.hudson.plugins.folder.Folder' reference='../../../..'/><name>All</name><filterExecutors>false</filterExecutors><filterQueue>false</filterQueue><properties class='hudson.model.View$PropertyList'/></hudson.model.AllView></views><tabBar class='hudson.views.DefaultViewsTabBar'/></folderViews><healthMetrics/><icon class='com.cloudbees.hudson.plugins.folder.icons.StockFolderIcon'/></com.cloudbees.hudson.plugins.folder.Folder>"

abbrev pub is_folder : Option String → Bool
is_folder c = opt_eq ◌==◌ c (some folder_class)

abbrev pub is_workflow : Option String → Bool
is_workflow c = opt_eq ◌==◌ c (some workflow_class)

-- `c in {None, workflow_class}`
abbrev pub is_migratable : Option String → Bool
is_migratable c = not (is_some c) || is_workflow c

module _ (owner name : String) where
  abbrev pub repository_name : String
  repository_name = job_name owner name

  abbrev pub repository_path : String
  repository_path = "repositories/" +++ repository_name

  abbrev pub legacy_path : String
  legacy_path = "repositories/" +++ legacy_job_name owner name

-- what an observation during the migration leads to: the end, the folder's creation, an error
-- or another attempt
pub data Observed : Type 0 where
  done migrated : Observed
  waiting : Observed
  changed_repository changed_legacy : Observed

abbrev pub observe : Option String → Option String → Observed
observe current legacy =
    if is_folder current
    then done
    else if not (is_some current) && is_workflow legacy
    then migrated
    else if not (is_migratable current)
    then changed_repository
    else if not (is_migratable legacy)
    then changed_legacy
    else waiting

-- `except httpx.HTTPError as exc: last_error = exc`
abbrev pub or_later : Error → Remote Unit
or_later (transport message) = pure tt
or_later e = raise e

module _ (net : Network) (jenkins : JenkinsClient) (owner name : String) where
  -- `doRename` of the job to its legacy name
  unfoldable pub rename : Remote Unit
  rename = do
    post net jenkins ("/job/" +++ (job_path net (repository_path owner name) +++ "/doRename"))
        (("newName", legacy_job_name owner name) ∷ [])
    pure tt

  -- what follows an observation: true for a `return`, false for a `break`
  abbrev pub migrate_on : ℕ → Remote Bool → Observed → Remote Bool
  migrate_on attempt again done = pure true
  migrate_on attempt again migrated = pure false
  migrate_on attempt again changed_repository = raise (
      upstream (
        "repository Jenkins path changed to an unexpected item type: "
        +++ repository_path owner name))
  migrate_on attempt again changed_legacy = raise (
      upstream
        ("legacy Jenkins path changed to an unexpected item type: " +++ legacy_path owner name))
  migrate_on attempt again waiting = do reconcile_pause jenkins attempt; again

  -- the attempts left of the migration
  unfoldable pub migrate : ℕ → ℕ → Remote Bool
  migrate zero attempt =
      raise (
        upstream
          ("Jenkins legacy job migration did not settle for " +++ (owner +++ ("/" +++ name))))
  migrate (suc left) attempt = do
    current ← item_class net jenkins (repository_path owner name)
    legacy ← item_class net jenkins (legacy_path owner name)
    migrate_on attempt (migrate left (suc attempt)) (observe current legacy)

  -- the attempts left of the creation
  unfoldable pub create : ℕ → ℕ → Remote Unit
  create zero attempt = do
    last ← item_class net jenkins (repository_path owner name)
    if is_folder last
        then pure tt
        else raise (
            upstream
              ("failed to reconcile Jenkins repository folder for " +++ (owner +++ ("/" +++ name))))
  create (suc left) attempt = do
    current ← item_class net jenkins (repository_path owner name)
    if is_folder current
        then pure tt
        else if is_some current
        then raise (
            upstream (
              "repository Jenkins path changed to an unexpected item type: "
              +++ (repository_path owner name)))
        else (do
          try_catch (create_item net jenkins "repositories" (repository_name owner name) folder_xml)
              or_later
          reconcile_pause jenkins attempt
          create left (suc attempt))

  -- the item is a job: it becomes the legacy job, unless there is one
  unfoldable pub move_legacy : Remote Bool
  unfolding migrate rename
  move_legacy = do
    legacy ← item_class net jenkins (legacy_path owner name)
    if is_migratable legacy
        then (do if is_some legacy then pure tt else rename; migrate 6 0)
        else raise (
            upstream
              ("legacy Jenkins path has an unexpected item type: " +++ (legacy_path owner name)))

  unfoldable pub ensure_repository_folder : Remote Unit
  unfolding create
  ensure_repository_folder = do
    current ← item_class net jenkins (repository_path owner name)
    if is_folder current
        then pure tt
        else if not (is_migratable current)
        then raise (
            upstream (
              "repository Jenkins path has an unexpected item type: "
              +++ (repository_path owner name)))
        else if is_workflow current
        then (do returned ← move_legacy; if returned then pure tt else create 6 0)
        else create 6 0
