-- ===== src/Service/Completion/Parts.antt =====
-- What the parts of `complete_build` leave as it was, and when a delivery counts as recorded.
use jenkins_service.Prelude.{
  String, ◌≡◌, refl, ◌∙◌, false, [], ◌∷◌, ◌==◌, eq_iff, eq_refl, any, is_some, arith,
}
use jenkins_service.Exec.{ok}
use jenkins_service.Dict.{Dict, lookup, values, HasUniqueKeys, IsKeyed, IsFiled}
use jenkins_service.Sorting.{any-sort_by}
use jenkins_service.Model.Pipeline.{QueueState, Build}
use jenkins_service.Model.Audit.{WebhookDelivery}
use jenkins_service.Store.{Store}
use jenkins_service.Service.World.{World}
use jenkins_service.Service.Completion.{set_queue_state, is_recorded}

tail-IsFiled :
    (k : String) (w : WebhookDelivery) (d : Dict WebhookDelivery)
    → is_some (lookup k d) ≡ false
    → IsFiled (λ w. w.delivery_id) ((k, w) ∷ d)
    → IsFiled (λ w. w.delivery_id) d
unfolding lookup
tail-IsFiled k w d u h j v e = ground (arith, h j v, eq_iff k j)

-- In a dict of deliveries under their own ids, one is found by its id exactly when it is listed.
any-values :
    (id : String) (d : Dict WebhookDelivery)
    → HasUniqueKeys d
    → IsFiled (λ w. w.delivery_id) d
    → any (λ w. w.delivery_id == id) (values d) ≡ is_some (lookup id d)
unfolding lookup
any-values id [] u h = refl
any-values id ((k, w) ∷ d) u h = ground (
  arith,
  h k w (simp eq_refl),
  any-values id d u.1 (tail-IsFiled k w d u.0 h),
  eq_iff k id,
  eq_iff w.delivery_id id,
)

pub is_recorded-eq :
    (id : String) (s : Store)
    → IsKeyed (λ w. w.delivery_id) s.webhooks
    → is_recorded id s ≡ is_some (lookup id s.webhooks)
unfolding is_recorded
is_recorded-eq id s h =
    any-sort_by _ _ (values s.webhooks) ∙ any-values id s.webhooks h.unique h.filed

-- Only the queue may have changed.
pub record KeepsBuilds (w w' : World) : Type 0 where
  pub builds : w'.store.builds ≡ w.store.builds
  pub webhooks : w'.store.webhooks ≡ w.store.webhooks
  pub calls : w'.calls ≡ w.calls

pub set_queue_state-KeepsBuilds :
    (build : Build) (state : QueueState) (w : World)
    → ((set_queue_state build state w).0 ≡ ok tt) × KeepsBuilds w (set_queue_state build state w).1
unfolding set_queue_state
set_queue_state-KeepsBuilds build state w = ground arith
