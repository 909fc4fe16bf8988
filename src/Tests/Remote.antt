-- ===== src/Tests/Remote.antt =====
-- clients.py: the clients against a small network.
use jenkins_service.Prelude.{
  split, ℕ, ◌+◌, String, ◌≡◌, refl, true, false, none, some, [], ◌∷◌, ◌++◌, ◌==◌, ◌⊎◌, ◌||◌, nat_eq,
  ◌≤◌, leb, length, codes, lower, to_lower, same_lower, if◌then◌else◌,
}
use jenkins_service.Exec.{Error, ok, err, value_error}
use jenkins_service.Model.Json.{Fields, num, str, obj, field, end, get, as_object}
use jenkins_service.Clients.Http.{
  Response, sent, Network, request, raise_for_status, body_of, json_of, header, read_bounded,
  check_declared,
}
use jenkins_service.Clients.Posts.{posts, Ends}
use jenkins_service.Clients.Jenkins.{JenkinsClient}
use jenkins_service.Clients.Jenkins.Folder.{
  ensure_repository_folder, repository_path, legacy_path, folder_class,
}
use jenkins_service.Clients.Jenkins.Folder.Settles.{IsSeen, ensure_repository_folder-Settled}
use jenkins_service.Clients.Jenkins.Folder.Bounds.{ensure_repository_folder-PostsAtMost}
use jenkins_service.Clients.Jenkins.Quoting.{
  groovy_single_quoted, read_literal, groovy_single_quoted-read_literal,
}
use jenkins_service.Clients.GitHub.{
  GitHubClient, status_json, set_status, execute_action, publish, action_path, is_among, post_json,
  pull_request_diff, verify_identity, read_diff, at,
}
use jenkins_service.Clients.GitHub.Diff.{IsDiff, pull_request_diff-IsDiff}
use jenkins_service.Clients.GitHub.Posts.{
  Refused, Posted, answer_of, status_path, set_status-Posted, execute_action-Posted,
}
use jenkins_service.Service.World.{StatusCall}
use jenkins_service.Service.AiReview.Logs.{utf8_length}
use jenkins_service.Review.Lines.{splitlines, hunk_header}
use jenkins_service.Review.Diff.{
  parse_line, right_side_path, is_unsafe_right, is_added, lines_at, add_line, set_default,
}
use jenkins_service.Review.Finding.{Severity, ReviewResult}
use jenkins_service.Review.Client.{loaded, ReviewClientConfig, Schemas, review, review_attempts}
use jenkins_service.Clients.GitHub.Paths.{Leads}
use jenkins_service.Review.Client.Reviews.{Reviewed, review-Reviewed}
use jenkins_service.Fixtures.{sha}

abbrev given : ℕ → Response
given status = record { status_code = status; headers = []; chunks = (1 ∷ []) ∷ (2 ∷ []) ∷ [] }

-- Nothing is there until something is posted; then all is a folder, and a pull request of `sha`.
abbrev network : Network
network = record {
  answer = λ past r. some (
      given (
        if leb 1 (posts past) || r.url == "/repos/a/b/pulls/7" || r.method == "POST"
        then 200
        else 404));
  read_json = λ content. some (
      obj (
        field "_class" (str folder_class) (
          field "base" (obj (field "sha" (str sha) end))
            (field "head" (obj (field "sha" (str sha) end)) end))));
  decode = λ content. some "+ a line";
  read_int = λ s. some 2;
  text_of = λ content. "";
  quote = λ part. if nat_eq (length part) 0 then "" else "x";
  escape = λ s. s;
  decimal = λ n. if nat_eq n 7 then "7" else "0";
  branch_digest = λ s. s;
}

abbrev jenkins : JenkinsClient
jenkins = record { base_url = ""; github_web_url = ""; reconcile_delay = 0 }

abbrev github : GitHubClient
github = record { api_url = "" }

ensure_repository_folder-Settled_example :
    Ends
      (λ u p.
        IsSeen network jenkins
          (repository_path "Example" "Project")
          (legacy_path "Example" "Project")
          p)
      (ensure_repository_folder network jenkins "Example" "Project" [])
ensure_repository_folder-Settled_example =
    ensure_repository_folder-Settled network jenkins "Example" "Project" []

ensure_repository_folder-PostsAtMost_example :
    posts (ensure_repository_folder network jenkins "Example" "Project" []).1 ≤ posts [] + 7
ensure_repository_folder-PostsAtMost_example =
    ensure_repository_folder-PostsAtMost network jenkins "Example" "Project" []

groovy_single_quoted-read_literal_example :
    read_literal false (codes (groovy_single_quoted "it's \\ here") ++ b'\'' ∷ codes ";")
    ≡ some (codes "it's \\ here", codes ";")
groovy_single_quoted-read_literal_example =
    groovy_single_quoted-read_literal "it's \\ here" (codes ";") refl

pull_request_diff-IsDiff_example :
    Ends
      (IsDiff network github "a/b" 7 sha sha 2)
      (pull_request_diff network github "a/b" 7 sha sha 2 [])
pull_request_diff-IsDiff_example = pull_request_diff-IsDiff network github "a/b" 7 sha sha 2 []

-- The pull request is asked for three times, and the diff fits its limit exactly.
diff_of_two_bytes : (pull_request_diff network github "a/b" 7 sha sha 2 []).0 ≡ ok "+ a line"
unfolding pull_request_diff verify_identity read_diff request raise_for_status json_of
    check_declared read_bounded header body_of at as_object get same_lower lower to_lower posts
diff_of_two_bytes = refl

abbrev passed : StatusCall
passed = record {
  repository = "a/b";
  sha = sha;
  context = "ci";
  state = "success";
  description = "passed";
  target_url = none;
}

set_status-Posted_example :
    ((is_among "success" ("pending" ∷ "success" ∷ "failure" ∷ "error" ∷ []) ≡ false)
      × (set_status network github passed []
          ≡ (err (value_error "unsupported GitHub status state: success"), [])))
    ⊎ ((is_among "success" ("pending" ∷ "success" ∷ "failure" ∷ "error" ∷ []) ≡ true)
        × Posted network.read_json "GitHub status publication failed: ci"
            (answer_of network github (status_path passed) (status_json passed) [])
            (set_status network github passed []).0
        × ((set_status network github passed []).1
            ≡ sent (post_json network github (status_path passed) (status_json passed)) ∷ []))
set_status-Posted_example = set_status-Posted network github passed []

abbrev comment : Fields
comment = field "issue_number" (num 7) (field "body" (obj (field "body" (str "hello") end)) end)

execute_action-Posted_example :
    ((e : Error) × Refused network github "a/b" "issue_comment" comment ("issue_comment" ∷ [])
      × (execute_action network github "a/b" "issue_comment" comment ("issue_comment" ∷ []) []
          ≡ (err e, [])))
    ⊎ ((is_among "issue_comment" ("issue_comment" ∷ []) ≡ true)
        × (path : String) × Leads network.decimal "a/b" comment "issue_comment" path
        × (body : Fields) × (as_object (get "body" comment) ≡ some body)
        × Posted network.read_json "GitHub action failed: issue_comment"
            (answer_of network github path (obj body) [])
            (execute_action network github "a/b" "issue_comment" comment
              ("issue_comment" ∷ [])
              []).0
        × ((execute_action network github "a/b" "issue_comment" comment ("issue_comment" ∷ []) []).1
            ≡ sent (post_json network github path (obj body)) ∷ []))
execute_action-Posted_example =
    execute_action-Posted network github "a/b" "issue_comment" comment ("issue_comment" ∷ []) []

-- A comment on an issue goes to the issue's path.
comment_is_posted :
    (execute_action network github "a/b" "issue_comment" comment ("issue_comment" ∷ []) []).1
    ≡ sent (
        post_json network github "/repos/a/b/issues/7/comments"
          (obj (field "body" (str "hello") end)))
      ∷ []
unfolding execute_action publish action_path request raise_for_status json_of get as_object body_of
    posts
comment_is_posted = refl

abbrev reviewed : ReviewResult
reviewed = record {
  summary = "fine";
  findings =
      record { severity = Severity.low; title = "t"; body = "b"; path = "a.py"; line = 1 } ∷ [];
}

-- The first answer is an error that is tried again, the second a review.
abbrev reviewer : Network
reviewer = record network {
  answer = λ past r. some (given (if leb 1 (posts past) then 200 else 503));
}

abbrev config : ReviewClientConfig
config = record {
  model = "m";
  reasoning_effort = "medium";
  prompt_version = "v1";
  max_diff_bytes = 200;
  max_context_bytes = 10;
  max_output_bytes = 2;
  max_output_tokens = 10;
  max_attempts = 3;
  retry_base = 250;
  responses_url = "";
}

abbrev schemas : Schemas
schemas = record {
  dump = λ fields. "";
  review_schema = obj end;
  read_review = λ s. some reviewed;
  load_response = λ content.
      loaded (obj (field "status" (str "completed") (field "output_text" (str "review") end)));
  stream_error = λ r. none;
}

abbrev diff : String
diff = "diff --git a/a.py b/a.py\n--- a/a.py\n+++ b/a.py\n@@ -0,0 +1 @@\n+x\n"

review-Reviewed_example :
    Reviewed reviewer schemas config diff "" [] (review reviewer schemas config diff "" [])
review-Reviewed_example = review-Reviewed reviewer schemas config diff "" []

second_attempt : (review reviewer schemas config diff "" []).0 ≡ ok reviewed
unfolding review review_attempts utf8_length splitlines parse_line right_side_path is_unsafe_right
    split hunk_header posts is_added lines_at add_line set_default
second_attempt = refl
