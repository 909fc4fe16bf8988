-- ===== src/Service/Status/Attempts.antt =====
-- How the attempts of a publication end.
use jenkins_service.Prelude.{
  ℕ, zero, suc, ◌*◌, ◌^◌, ◌≡◌, refl, sym, ap, ◌∙◌, String, Bool, true, false, Option, none, some,
  List, [], ◌∷◌, ◌++◌, if◌then◌else◌, ltb, Bool-cases, inl, inr,
}
use mathlib.Core.List.{append_assoc, append-nil}
use jenkins_service.Exec.{Error, upstream, Result, ok, err, resume}
use jenkins_service.Store.{Store}
use jenkins_service.Model.Json.{str, field, end}
use jenkins_service.Model.Scope.{Principal}
use jenkins_service.Model.Audit.{AuditRecord, AuditOutcome}
use jenkins_service.Service.World.{Outside, World, StatusCall, Call, set_status_call, sleep}
use jenkins_service.Service.Status.{attempts, settle, report, target_url, publish_ci_status}

abbrev pub is_upstream : Error → Bool
is_upstream (upstream message) = true
is_upstream _ = false

-- The calls of `left` attempts that all fail, the first of them with number `attempt`.
abbrev pub trace : StatusCall → ℕ → ℕ → List Call
trace call zero attempt = []
trace call (suc left) attempt =
    set_status_call call
    ∷ ((if ltb attempt 2 then sleep (250 * 2 ^ attempt) ∷ [] else [])
        ++ trace call left (suc attempt))

-- The store and the drawn values are untouched.
pub record SameStore (w w' : World) : Type 0 where
  pub store : w'.store ≡ w.store
  pub ids : w'.ids ≡ w.ids
  pub times : w'.times ≡ w.times

module _ (o : Outside) (call : StatusCall) where
  -- The last call was the publication, and it was answered.
  abbrev pub IsPublished : World → Type 0
  IsPublished w =
      (before : List Call) × (w.calls ≡ before ++ set_status_call call ∷ [])
      × (o.unit_answer before (set_status_call call) ≡ ok tt)

  abbrev Attempted : ℕ → ℕ → World → Result (Option String) × World → Type 0
  Attempted left attempt w (ok none, w') = IsPublished w' × SameStore w w'
  Attempted left attempt w (ok (some last), w') =
      (w'.calls ≡ w.calls ++ trace call left attempt) × SameStore w w'
  Attempted left attempt w (err e, w') = (is_upstream e ≡ false) × SameStore w w'

  -- One attempt more in front: its call, and its pause.
  prepend :
      (left attempt : ℕ) (w v : World) (pauses : List Call) (r : Result (Option String))
      (w' : World)
      → SameStore w v
      → v.calls ≡ (w.calls ++ set_status_call call ∷ []) ++ pauses
      → (if ltb attempt 2 then sleep (250 * 2 ^ attempt) ∷ [] else []) ≡ pauses
      → Attempted left (suc attempt) v (r, w')
      → Attempted (suc left) attempt w (r, w')
  prepend left attempt w v pauses (ok none) w' same calls ps h = (
    h.0,
    record {
      store = h.1.store ∙ same.store;
      ids = h.1.ids ∙ same.ids;
      times = h.1.times ∙ same.times;
    },
  )
  prepend left attempt w v pauses (ok (some last)) w' same calls ps h = (
    rw (h.0, calls, ps) (simp append_assoc),
    record {
      store = h.1.store ∙ same.store;
      ids = h.1.ids ∙ same.ids;
      times = h.1.times ∙ same.times;
    },
  )
  prepend left attempt w v pauses (err e) w' same calls ps h = (
    h.0,
    record {
      store = h.1.store ∙ same.store;
      ids = h.1.ids ∙ same.ids;
      times = h.1.times ∙ same.times;
    },
  )

  attempts-Attempted :
      (left attempt : ℕ) (last : String) (w : World)
      → Attempted left attempt w (attempts o call left attempt last w)
  unfolding attempts
  attempts-Attempted zero attempt last w =
      (sym (append-nil w.calls), record { store = refl; ids = refl; times = refl })
  attempts-Attempted (suc left) attempt last w =
      settled (o.unit_answer w.calls (set_status_call call)) refl
        (λ m v. attempts-Attempted left (suc attempt) m v)
    where
      after_call : World
      after_call = record w { calls = w.calls ++ set_status_call call ∷ [] }

      settled :
          (r : Result (Unit {0}))
          → o.unit_answer w.calls (set_status_call call) ≡ r
          → ((m : String) (v : World)
              → Attempted left (suc attempt) v (attempts o call left (suc attempt) m v))
          → Attempted
              (suc left)
              attempt
              w
              (settle o attempt (attempts o call left (suc attempt)) r after_call)
      settled (ok u) e ih = ((w.calls, refl, e), record { store = refl; ids = refl; times = refl })
      settled (err (upstream m)) e ih = elim (Bool-cases (ltb attempt 2)) [
        | inl early ↦
            let v : World = record after_call {
              calls = after_call.calls ++ sleep (250 * 2 ^ attempt) ∷ [];
            } in
            let next = attempts o call left (suc attempt) m v in
            rw early (
              prepend left attempt w v (sleep (250 * 2 ^ attempt) ∷ []) next.0 next.1
                (record { store = refl; ids = refl; times = refl }) refl (rw early) (ih m v))
        | inr final ↦
            let next = attempts o call left (suc attempt) m after_call in
            rw final (
              prepend left attempt w after_call [] next.0 next.1
                (record { store = refl; ids = refl; times = refl })
                (sym (append-nil after_call.calls)) (rw final) (ih m after_call))
      ]
      settled (err _) e ih = (refl, record { store = refl; ids = refl; times = refl })

module _ (o : Outside) (principal : Principal)
    (repository sha context state description build_id : String) where
  abbrev pub status_call : StatusCall
  status_call = record {
    repository = repository;
    sha = sha;
    context = context;
    state = state;
    description = description;
    target_url = target_url o build_id;
  }

  -- What a publication did, by how it ended.
  abbrev pub Published : World → Result Bool × World → Type 0
  Published w (ok true, w') = IsPublished o status_call w' × SameStore w w'
  Published w (ok false, w') =
      (w'.calls ≡ w.calls ++ trace status_call 3 0)
      × (record_ : AuditRecord) × (w'.store
          ≡ record w.store { audit = w.store.audit ++ record_ ∷ [] })
      × (record_.action ≡ "github.status")
      × (record_.outcome ≡ AuditOutcome.failed)
  Published w (err e, w') = (is_upstream e ≡ false) × SameStore w w'

  -- A publication that answers true has just been answered by GitHub and leaves the store as it
  -- was. One that answers false has made three attempts with pauses of 250 and 500 ms between
  -- them, and has added one audit record of the failure and nothing else to the store. An error
  -- that it raises is no upstream error, and the store is as it was.
  pub publish_ci_status-Published :
      (w : World)
      → Published w
          (publish_ci_status o principal repository sha context state description build_id w)
  unfolding publish_ci_status
  publish_ci_status-Published w =
      let (r, v) = attempts o status_call 3 0 "None" w in
      reported r v (attempts-Attempted o status_call 3 0 "None" w)
    where
      reported :
          (r : Result (Option String)) (v : World)
          → Attempted o status_call 3 0 w (r, v)
          → Published w (resume (report o principal status_call) r v)
      reported (ok none) v h = h
      reported (ok (some last)) v h =
          let added : AuditRecord = record {
            id = o.uuid v.ids;
            actor = principal.token_id;
            action = "github.status";
            target = repository;
            request_id = o.request_id;
            outcome = AuditOutcome.failed;
            detail =
                field "context" (str context)
                  (field "state" (str state) (field "reason" (str last) end));
            created_at = o.clock v.times;
          } in
          (
            h.0,
            added,
            ap (λ (s : Store). record s { audit = s.audit ++ added ∷ [] }) h.1.store,
            refl,
            refl,
          )
      reported (err e) v h = h
