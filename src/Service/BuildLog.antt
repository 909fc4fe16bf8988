-- ===== src/Service/BuildLog.antt =====
-- service.py: `build`, `build_ai_review_log` and `build_log`.
use jenkins_service.Prelude.{ℕ, String, ◌+++◌, Bool, Option, none, some}
use jenkins_service.Exec.{Result, ok, err, not_found, value_error, pure, lift, ◌>>=◌}
use jenkins_service.Model.Review.{AiReviewLog}
use jenkins_service.Model.Pipeline.{Build, is_active}
use jenkins_service.Store
use jenkins_service.Service.World.{Outside, Action, progressive_log_call, on_store, ask}
use jenkins_service.Service.Refresh.{refresh_build}

pub record LogText : Type 0 where
  pub text : String
  pub next : ℕ
  pub more : Bool

-- what `int` makes of a text
pub data Integer : Type 0 where
  not_integer : Integer
  natural : ℕ → Integer
  negative : ℕ → Integer

-- the offset that a text asks for
abbrev pub offset_of : Integer → Result ℕ
offset_of not_integer = err (value_error "invalid literal for int()")
offset_of (natural n) = ok n
offset_of (negative n) = err (value_error "log start offset must be non-negative")

module _ (o : Outside) where
  unfoldable pub build_of : String → Action Build
  unfolding Store.get_build refresh_build
  build_of build_id = on_store (Store.get_build build_id) >>= refresh_build o

  abbrev pub required_log : String → Option AiReviewLog → Result AiReviewLog
  required_log build_id none = err (not_found ("AI review log not found for build: " +++ build_id))
  required_log build_id (some log) = ok log

  unfoldable pub build_ai_review_log : String → Action AiReviewLog
  unfolding Store.get_build
  build_ai_review_log build_id = do
    found ← on_store (Store.get_build build_id)
    lift (required_log build_id found.ai_review_log)

  -- the log of a build, of its number
  abbrev pub read_log : Build → Integer → Option ℕ → Action LogText
  read_log found start none =
      pure (record { text = ""; next = 0; more = is_active found.result.status })
  read_log found start (some number) = do
    offset ← lift (offset_of start)
    log ←
        ask (progressive_log_call found.jenkins_job number offset)
          (λ calls. o.log_answer calls found.jenkins_job number offset)
    pure (record { text = o.redact log.0; next = log.1; more = log.2 })

  unfoldable pub build_log : String → Integer → Action LogText
  unfolding build_of
  build_log build_id start = do
    found ← build_of build_id
    read_log found start found.jenkins_build_number
