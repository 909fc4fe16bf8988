-- ===== src/Clients/Broker.antt =====
-- clients.py: `ReviewBrokerClient`.
use jenkins_service.Prelude.{ℕ, String, ◌+++◌, Bool, Option, none, some, []}
use jenkins_service.Exec.{Result, ok, err, lift, value_error, try_catch, ◌>>=◌, ◌>>◌}
use jenkins_service.Model.Json.{Json, str, num, obj, field, end}
use jenkins_service.Review.Finding.{ReviewResult}
use jenkins_service.Clients.Http.{
  json, Request, Network, Remote, request, raise_for_status, json_of,
}
use jenkins_service.Clients.GitHub.{at, or_unavailable}
use jenkins_service.Service.World.{BrokerReview}

pub record ReviewBrokerClient : Type 0 where
  pub base_url : String

-- `str` and `bool` of JSON values, `str.lower`, and `ReviewResult.model_validate`
pub record Readers : Type 0 where
  pub text : Json → String
  pub truth : Json → Bool
  pub lowered : String → String
  pub review_result : Json → Option ReviewResult

module _ (net : Network) (readers : Readers) (broker : ReviewBrokerClient) where
  abbrev pub review_request : String → ℕ → String → String → String → String → Request
  review_request repository pull_request base_sha head_sha diff context = record {
    method = "POST";
    url = broker.base_url +++ "/internal/v1/review";
    params = [];
    headers = [];
    body = json (
        obj (
          field "repository" (str repository) (
            field "pull_request" (num pull_request) (
              field "base_sha" (str (readers.lowered base_sha)) (
                field "head_sha" (str (readers.lowered head_sha))
                  (field "diff" (str diff) (field "relevant_context" (str context) end)))))));
  }

  -- the fields of the answer, in the order in which they are read
  abbrev pub read_review : Json → Result BrokerReview
  read_review payload = elim (at "model" payload) [
    | err e ↦ err e
    | ok model ↦ elim (at "prompt_version" payload) [
      | err e ↦ err e
      | ok prompt_version ↦ elim (at "blocking" payload) [
        | err e ↦ err e
        | ok blocking ↦ elim (at "review" payload) [
          | err e ↦ err e
          | ok value ↦ elim (readers.review_result value) [
            | none ↦ err (value_error "ValidationError")
            | some review ↦ ok (record {
              model = readers.text model;
              prompt_version = readers.text prompt_version;
              blocking = readers.truth blocking;
              review = review;
            })
          ]
        ]
      ]
    ]
  ]

  unfoldable pub review : String → ℕ → String → String → String → String → Remote BrokerReview
  unfolding request raise_for_status json_of at
  review repository pull_request base_sha head_sha diff context =
      try_catch
        (do
          response ←
              request net (review_request repository pull_request base_sha head_sha diff context)
          raise_for_status response
          payload ← json_of net response
          lift (read_review payload))
        (or_unavailable "review broker returned no valid review")
