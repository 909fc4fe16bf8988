-- ===== src/Service/Completion/Replay.antt =====
-- A completion that is sent again.
use jenkins_service.Prelude.{
  ℕ, ◌+◌, String, ◌≡◌, refl, ◌∙◌, true, false, Option, none, some, eq_refl, arith, opt_eq, nat_eq,
  same_lower, same_lower_iff,
}
use jenkins_service.Exec.{ok}
use jenkins_service.Dict.{lookup, IsKeyed, insert-IsKeyed, lookup-insert}
use jenkins_service.Model.Scope.{Principal}
use jenkins_service.Model.Repository.{or_else}
use jenkins_service.Model.Pipeline.{Build, is_terminal}
use jenkins_service.Model.Requests.{BuildCompletion}
use jenkins_service.Service.World.{Outside, World}
use jenkins_service.Service.Completion.{
  is_recorded, is_same_identity, delivery_id, delivery_of, completed, complete_build,
}
use jenkins_service.Service.Completion.Parts.{is_recorded-eq}
use jenkins_service.Service.Completion.Effects.{Completes, complete_build-Completes}

same_lower_self : (s : String) → same_lower s s ≡ true
same_lower_self s = (same_lower_iff s s).1 refl

nat_opt_self : (n : Option ℕ) → opt_eq nat_eq n n ≡ true
nat_opt_self none = refl
nat_opt_self (some n) = ground arith

-- A result agrees with the build that took it over, if it named that build.
identity_of_completed :
    (completion : BuildCompletion) (build : Build) (updated : ℕ)
    → is_same_identity completion.result build ≡ true
    → is_same_identity completion.result (completed build completion updated) ≡ true
unfolding is_same_identity
identity_of_completed completion build updated h = ground (
  arith,
  same_lower_self completion.result.repository,
  same_lower_self completion.result.commit_sha,
  same_lower_self (or_else completion.result.base_sha ""),
  nat_opt_self completion.result.pull_request,
)

module _ (o : Outside) (principal : Principal) (completion : BuildCompletion) where
  recorded_lem :
      (w : World) (build : Build)
      → lookup completion.build_id w.store.builds ≡ some build
      → is_same_identity completion.result build ≡ true
      → is_terminal completion.result.status ≡ true
      → is_recorded (delivery_id completion) w.store ≡ true
      → complete_build o principal completion w ≡ (ok false, record w { times = w.times + 1 })
  unfolding complete_build
  recorded_lem w build e same terminal known = rw (e, same, terminal, known)

  -- A completion that was accepted and is sent again answers false. Only the clock is read: the
  -- store stays as it is and no call is made, so no status is published twice. The store is one in
  -- which builds and deliveries stand under their own ids.
  pub complete_build-again :
      (w w' : World)
      → IsKeyed (λ d. d.delivery_id) w.store.webhooks
      → IsKeyed (λ b. b.id) w.store.builds
      → complete_build o principal completion w ≡ (ok true, w')
      → complete_build o principal completion w' ≡ (ok false, record w' { times = w'.times + 1 })
  complete_build-again w w' keyed builds e =
      let done : Completes o principal completion w (ok true, w') =
        rw e at (complete_build-Completes o principal completion w keyed) in
      let (build, found, same, terminal, unseen, published, stored, hooks) = done in
      let updated = o.clock (w.times + 1) in
      let delivery = delivery_of completion (o.clock w.times) in
      let named : build.id ≡ completion.build_id = builds.filed completion.build_id build found in
      let keyed' : IsKeyed (λ d. d.delivery_id) w'.store.webhooks =
        rw hooks (insert-IsKeyed (λ d. d.delivery_id) delivery w.store.webhooks keyed) in
      recorded_lem w' (completed build completion updated) (rw (← named) stored)
        (identity_of_completed completion build updated same) terminal
        (is_recorded-eq (delivery_id completion) w'.store keyed'
          ∙ rw hooks (simp (lookup-insert, eq_refl)))
