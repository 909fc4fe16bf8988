-- ===== src/Lib.antt =====
-- A verification library of JenkinsService (paths are from the repository's root): the control
-- plane that registers repositories, triggers Jenkins pipelines, takes their signed completions,
-- runs AI reviews and publishes commit statuses. The code modelled is the Python package
-- src/jenkins_service.
-- The program's parts and their files:
--   Model: models.py. Records and enumerations keep the fields of the pydantic classes;
--     Model.Branch and Model.RelativePath are validate_branch_name and validate_relative_path,
--     Model.Scope is Principal.permits. A UUID and a SHA are texts, a time is a number of
--     microseconds.
--   Store: store.py, the Store protocol as MemoryStore carries it out. A dict is an association
--     list in insertion order (Dict), sorted is a stable sort (Sorting). Values are copied: what
--     MemoryStore shares between callers by reference is not seen before it is saved.
--   Postgres: store.py, PostgresStore. Each SQL statement is a function on the tables of
--     migrations/0001_initial.sql, with its constraints; a row holds the value in place of its
--     JSON. Postgres.View is the store that tables stand for, Postgres.Refines compares the two
--     implementations; the listings of PostgresStore are left out, as their order rests on the
--     collation of the database and is open for equal times.
--   Review: review.py. Finding holds the findings, Lines is splitlines and the hunk header, Diff is
--     parse_unified_diff and ParsedDiff.validate_result, Client is OpenAIReviewClient over the
--     network of Clients.Http, where a timeout is a request without an answer.
--   Clients: clients.py. Clients.Jobs has the names of Jenkins jobs. Clients.Http is what is used
--     of httpx: a method works on the list of the requests and pauses so far, and the record
--     Network answers each request by that list, or not at all, and holds JSON, decoding and
--     quoting. Clients.Jenkins is JenkinsClient, with _ensure_repository_folder in Folder,
--     _groovy_single_quoted in Quoting and the operations in Operations; Clients.GitHub is
--     GitHubClient, Clients.Broker is ReviewBrokerClient.
--   Service: service.py, class JenkinsService. World is what a method works on: the store, the
--     calls made so far, and how many ids and times were drawn. Each method is a function from a
--     world to a result and a world (Exec), so what is written before an exception stays written.
--     Status is _publish_ci_status, Completion is complete_build and _set_queue_state, ReviewLog is
--     _attach_review_log, AiReview is process_ai_review and its retries, Repositories is the
--     registration, update, removal and scan of repositories, Refresh is _refresh_build, builds and
--     cancel_pipeline, Extensions is run_extension_action, BuildLog is build, build_ai_review_log
--     and build_log (the reading of its start as an integer is left to the caller), Trigger is
--     trigger_pipeline, the reuse of a native build and retry_pipeline.
--   Security: security.py, SlidingWindowLimiter, whose clock is an argument. Security.Limiter is
--     the class, Security.Rate serves a list of requests and keeps the history of those let in.
--     Security.Tokens is TokenAuthenticator.authenticate, with the hash function as a parameter;
--     bearer tokens and signatures stand with their use in App.
--   Extensions: extensions.py, ExtensionCatalog, whose manifests come as they are read and whose
--     validation by schema is a parameter.
--   Webhook: webhook.py, what a delivery is recorded as and what it triggers.
--   App: app.py. Gate is security_middleware up to the call of the operation, with the limiter as
--     its state; Callbacks has github_webhook and build_completion, whose headers and body are a
--     record, and the background tasks, which run after the reply. A secret is none where its file
--     is missing.
-- How they interact: the methods of Service call the store by on_store and the clients by ask,
-- which records the call. The answers of Jenkins, GitHub, the review broker and the extension
-- runner, the ids and times drawn, SHA-256, redaction and the reading of JSON are fields of the
-- record Service.World.Outside, of which nothing is assumed: an answer may depend on all calls made
-- before it, and may be any error.
-- Bounds: the loop of _publish_ci_status has the three attempts of the code,
-- process_ai_review_with_retry as many as it is given, the two loops of _ensure_repository_folder
-- the six of the code, the loop of OpenAIReviewClient the number that its configuration gives; all
-- other loops run over lists. There is no fuel.
-- Not modelled: the connections of PostgresStore, the credentials of the clients, a transport that
-- fails in the middle of a body, the lock of ensure_job, the secret file and redaction of
-- security.py, contract.py, ExtensionRunnerClient, the extension runner and the review broker
-- processes; registry.py, mcp_server.py and the rest of app.py wire the service to FastAPI and MCP,
-- config.py reads settings. Field constraints that pydantic checks are left out, on input and on
-- the records that the code builds itself (AIReviewLog), but for the two validators named above.
-- str.lower is that of ASCII and of the Kelvin sign, which is exact in a comparison with an ASCII
-- text; str.upper is that of ASCII. Methods run one at a time.
mod Prelude
pub mod Dict
pub mod Exec
pub mod Sorting
pub mod Model
pub mod Store
pub mod Postgres
pub mod Review
pub mod Clients
pub mod Extensions
pub mod Service
pub mod Webhook
pub mod Security
pub mod App
mod Fixtures
mod Tests
