-- ===== src/Service/Calls.antt =====
-- Which calls a method of the service makes, from the calls of its parts.
use jenkins_service.Prelude.{
  ℕ, zero, suc, String, ◌≡◌, refl, sym, ◌∙◌, false, Option, none, some, List, [], ◌∷◌, ◌++◌, All,
  All-append, Bool-cases, inl, inr, ltb, ◌*◌, ◌^◌,
}
use mathlib.Core.List.{append_assoc, append-nil}
use jenkins_service.Exec.{
  Exec, Error, upstream, Result, ok, err, resume, handle_with, try_catch, ◌>>=◌,
}
use jenkins_service.Store.{Store}
use jenkins_service.Model.Json.{str, Fields, field, end}
use jenkins_service.Model.Scope.{Principal}
use jenkins_service.Model.Audit.{AuditOutcome}
use jenkins_service.Service.World
use jenkins_service.Service.World.{
  Outside, World, Action, Call, StatusCall, set_status_call, sleep, on_store, ask, audit,
}
use jenkins_service.Service.Status.{
  attempts, settle, report, back_off, target_url, publish_ci_status,
}

-- Between two worlds, calls that satisfy `P` were added to those made before.
abbrev pub Adds : (Call → Type 0) → World → World → Type 0
Adds P w w' = (new : List Call) × (w'.calls ≡ w.calls ++ new) × All P new

-- Wherever the method runs, it makes calls that satisfy `P` and no others.
abbrev pub Makes : {A : Type 0} → (Call → Type 0) → Action A → Type 0
Makes P m = (w : World) → Adds P w (m w).1

module _ (P : Call → Type 0) where
  pub same-Adds : (w w' : World) → w'.calls ≡ w.calls → Adds P w w'
  same-Adds w w' e = ([], e ∙ sym (append-nil w.calls), tt)

  pub Adds-trans : (u v w : World) → Adds P u v → Adds P v w → Adds P u w
  Adds-trans u v w a b =
      (a.0 ++ b.0, rw (b.1, a.1) (simp append_assoc), All-append P a.0 b.0 a.2 b.2)

  module _ {A B : Type 0} where
    pub bind-Makes :
        (m : Action A) (f : A → Action B)
        → Makes P m
        → ((a : A) → Makes P (f a))
        → Makes P (m >>= f)
    bind-Makes m f hm hf w = resumed (m w).0 (m w).1 (hm w)
      where
        resumed : (r : Result A) (v : World) → Adds P w v → Adds P w (resume f r v).1
        resumed (ok a) v h = Adds-trans w v (f a v).1 h (hf a v)
        resumed (err e) v h = h

  module _ {A : Type 0} where
    pub try_catch-Makes :
        (m : Action A) (h : Error → Action A)
        → Makes P m
        → ((e : Error) → Makes P (h e))
        → Makes P (try_catch m h)
    try_catch-Makes m h hm hh w = handled (m w).0 (m w).1 (hm w)
      where
        handled : (r : Result A) (v : World) → Adds P w v → Adds P w (handle_with h r v).1
        handled (ok a) v added = added
        handled (err e) v added = Adds-trans w v (h e v).1 added (hh e v)

    pub on_store-Makes : (m : Exec Store A) → Makes P (on_store m)
    on_store-Makes m w = same-Adds w (on_store m w).1 refl

    pub ask-Makes :
        (call : Call) (answer : List Call → Result A) → P call → Makes P (ask call answer)
    ask-Makes call answer h w = (call ∷ [], refl, (h, tt))

module _ (o : Outside) (P : Call → Type 0) where
  pub audit-Makes :
      (principal : Principal) (action target : String) (outcome : AuditOutcome) (detail : Fields)
      → Makes P (audit o principal action target outcome detail)
  unfolding World.audit
  audit-Makes principal action target outcome detail w =
      same-Adds P w (audit o principal action target outcome detail w).1 refl

  module _ (pauses : (ms : ℕ) → P (sleep ms)) where
    back_off-Makes : (attempt : ℕ) → Makes P (back_off o attempt)
    back_off-Makes attempt w = elim (Bool-cases (ltb attempt 2)) [
      | inl early ↦ rw early (sleep (250 * 2 ^ attempt) ∷ [], refl, (pauses _, tt))
      | inr final ↦ rw final (same-Adds P w w refl)
    ]

    attempts-Makes :
        (call : StatusCall) (left attempt : ℕ) (last : String)
        → P (set_status_call call)
        → Makes P (attempts o call left attempt last)
    unfolding attempts
    attempts-Makes call zero attempt last status w = same-Adds P w w refl
    attempts-Makes call (suc left) attempt last status w =
        Adds-trans P w v (attempts o call (suc left) attempt last w).1
          (set_status_call call ∷ [], refl, (status, tt))
          (settled (o.unit_answer w.calls (set_status_call call))
            (λ m. attempts-Makes call left (suc attempt) m status))
      where
        v : World
        v = record w { calls = w.calls ++ set_status_call call ∷ [] }

        settled :
            (r : Result (Unit {0}))
            → ((m : String) → Makes P (attempts o call left (suc attempt) m))
            → Adds P v (settle o attempt (attempts o call left (suc attempt)) r v).1
        settled (ok _) again = same-Adds P v v refl
        settled (err (upstream m)) again =
            bind-Makes P (back_off o attempt) (λ _. attempts o call left (suc attempt) m)
              (back_off-Makes attempt) (λ _. again m) v
        settled (err _) again = same-Adds P v v refl

    pub publish_ci_status-Makes :
        (principal : Principal) (repository sha context state description build_id : String)
        → P (
            set_status_call (record {
              repository = repository;
              sha = sha;
              context = context;
              state = state;
              description = description;
              target_url = target_url o build_id;
            }))
        → Makes P (publish_ci_status o principal repository sha context state description build_id)
    unfolding publish_ci_status
    publish_ci_status-Makes principal repository sha context state description build_id status =
        bind-Makes P (attempts o call 3 0 "None") (report o principal call)
          (attempts-Makes call 3 0 "None" status) reported
      where
        call : StatusCall
        call = record {
          repository = repository;
          sha = sha;
          context = context;
          state = state;
          description = description;
          target_url = target_url o build_id;
        }

        reported : (r : Option String) → Makes P (report o principal call r)
        reported none = λ w. same-Adds P w w refl
        reported (some last) =
            bind-Makes P
              (audit o principal "github.status" repository AuditOutcome.failed (
                field "context" (str context)
                  (field "state" (str state) (field "reason" (str last) end))))
              (λ _ w. (ok false, w))
              (audit-Makes principal "github.status" repository AuditOutcome.failed (
                field "context" (str context)
                  (field "state" (str state) (field "reason" (str last) end))))
              (λ _ w. same-Adds P w w refl)
