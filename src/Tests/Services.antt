-- ===== src/Tests/Services.antt =====
-- service.py.
use jenkins_service.Prelude.{◌+◌, ◌≡◌, refl, true, false, []}
use jenkins_service.Exec.{ok}
use jenkins_service.Dict.{IsKeyed, lookup, insert, insert-IsKeyed, empty-IsKeyed}
use jenkins_service.Service.World.{World}
use jenkins_service.Service.Status.{publish_ci_status}
use jenkins_service.Service.Status.Attempts.{Published, publish_ci_status-Published}
use jenkins_service.Service.Completion.{complete_build}
use jenkins_service.Service.Completion.Effects.{Completes, complete_build-Completes}
use jenkins_service.Service.Completion.Replay.{complete_build-again}
use jenkins_service.Fixtures.{operator, build, completion, outside, world, sha, store}
use jenkins_service.Service.Completion.{is_same_identity}
use jenkins_service.Prelude.{same_lower}
use jenkins_service.Prelude.{lower}
use jenkins_service.Prelude.{to_lower}
use jenkins_service.Service.Completion.{is_recorded}
use jenkins_service.Sorting.{sort_by}
use jenkins_service.Service.Completion.{apply_completion}
use jenkins_service.Service.Completion.{record_completion}
use jenkins_service.Service.Completion.{set_queue_state}

publish_ci_status-Published_example :
    Published outside operator "example/project" sha "jenkinsservice/native-ci" "pending" "queued"
      "b1" world
      (publish_ci_status outside operator "example/project" sha "jenkinsservice/native-ci" "pending"
        "queued" "b1" world)
publish_ci_status-Published_example =
    publish_ci_status-Published outside operator "example/project" sha "jenkinsservice/native-ci"
      "pending" "queued" "b1" world

webhooks-IsKeyed : IsKeyed (λ d. d.delivery_id) store.webhooks
unfolding lookup
webhooks-IsKeyed = record { unique = tt; filed = λ k v e. cc }

builds-IsKeyed : IsKeyed (λ b. b.id) store.builds
unfolding insert
builds-IsKeyed = insert-IsKeyed (λ b. b.id) build [] (empty-IsKeyed _)

complete_build-Completes_example :
    Completes outside operator completion world (complete_build outside operator completion world)
complete_build-Completes_example =
    complete_build-Completes outside operator completion world webhooks-IsKeyed

accepted : (complete_build outside operator completion world).0 ≡ ok true
unfolding complete_build lookup is_same_identity same_lower lower to_lower is_recorded sort_by
    apply_completion publish_ci_status record_completion set_queue_state
accepted = refl

accepted_world : World
accepted_world = (complete_build outside operator completion world).1

accepted_pair : complete_build outside operator completion world ≡ (ok true, accepted_world)
unfolding accepted_world
accepted_pair = λ i. (accepted i, accepted_world)

complete_build-again_example :
    complete_build outside operator completion accepted_world
    ≡ (ok false, record accepted_world { times = accepted_world.times + 1 })
complete_build-again_example =
    complete_build-again outside operator completion world accepted_world webhooks-IsKeyed
      builds-IsKeyed accepted_pair
