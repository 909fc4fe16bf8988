-- ===== src/Service/Status.antt =====
-- service.py: `_publish_ci_status`, the publication of a commit status with bounded retries.
pub mod Attempts
use jenkins_service.Prelude.{
  ℕ, zero, suc, ◌+◌, ◌*◌, ◌^◌, ◌≤◌, ◌≡◌, refl, String, ◌+++◌, Bool, true, false, Option, none, some,
  List, [], ◌∷◌, ◌++◌, if◌then◌else◌, ltb, arith,
}
use jenkins_service.Exec.{Exec, Error, upstream, Result, ok, err, pure, raise, ◌>>=◌, ◌>>◌}
use jenkins_service.Model.Json.{Json, str, Fields, field, end}
use jenkins_service.Model.Scope.{Principal}
use jenkins_service.Model.Audit.{AuditOutcome}
use jenkins_service.Service.World.{
  Outside, World, Action, StatusCall, Call, set_status_call, sleep, tell, pause, audit,
}

module _ (o : Outside) where
  -- `if attempt < 2: await asyncio.sleep(0.25 * (2**attempt))`
  abbrev pub back_off : ℕ → Action Unit
  back_off attempt = if ltb attempt 2 then pause (250 * 2 ^ attempt) else pure tt

  -- what an attempt's answer leads to: an end, the next attempt, or an error that is passed on
  abbrev pub settle :
      ℕ → (String → Action (Option String)) → Result (Unit {0}) → Action (Option String)
  settle attempt again (ok _) = pure none
  settle attempt again (err (upstream message)) = do back_off attempt; again message
  settle attempt again (err e) = raise e

  -- the attempts left of the loop, with the message of the last error: `none` is a publication
  unfoldable pub attempts : StatusCall → ℕ → ℕ → String → Action (Option String)
  attempts call zero attempt last = pure (some last)
  attempts call (suc left) attempt last = λ w.
      let (r, w') = tell o (set_status_call call) w in
      settle attempt (attempts call left (suc attempt)) r w'

  abbrev pub report : Principal → StatusCall → Option String → Action Bool
  report principal call none = pure true
  report principal call (some last) = do
    audit o principal "github.status" call.repository AuditOutcome.failed (
        field "context" (str call.context)
          (field "state" (str call.state) (field "reason" (str last) end)))
    pure false

  -- `f"{self.public_base_url}/api/v1/builds/{build_id}" if self.public_base_url else None`
  abbrev pub target_url : String → Option String
  target_url build_id = elim o.public_base_url [
    | none ↦ none
    | some base ↦ some (base +++ ("/api/v1/builds/" +++ build_id))
  ]

  unfoldable pub publish_ci_status :
      Principal → String → String → String → String → String → String → Action Bool
  unfolding attempts audit
  publish_ci_status principal repository commit_sha context state description build_id = do
    let call : StatusCall = record {
      repository = repository;
      sha = commit_sha;
      context = context;
      state = state;
      description = description;
      target_url = target_url build_id;
    }
    last ← attempts call 3 0 "None"
    report principal call last
