-- ===== src/Clients/Jenkins/Folder/Settles.antt =====
-- Behind a reconciliation that succeeds, the item of the repository was seen to be a folder.
use jenkins_service.Prelude.{
  ℕ, zero, suc, String, ◌≡◌, refl, ap, ◌∙◌, Bool, true, false, Option, none, some, List, [], ◌∷◌,
  ◌++◌, is_some, if◌then◌else◌, Bool-cases, inl, inr, eq_iff, ◌⊎◌, arith,
}
use mathlib.Core.List.{append_assoc}
use jenkins_service.Exec.{Result, ok, err, resume, ◌>>=◌, pure, try_catch}
use jenkins_service.Clients.Http.{Response, Event, sent, Network, Remote, request}
use jenkins_service.Clients.Posts.{posts, Ends, bind-Ends}
use jenkins_service.Clients.Jenkins.{
  JenkinsClient, create_item, reconcile_pause, item_request, item_class, class_of,
}
use jenkins_service.Clients.Jenkins.Folder.{
  folder_class, is_folder, is_workflow, is_migratable, repository_path, repository_name, folder_xml,
  or_later, legacy_path, Observed, observe, done, migrated, waiting, changed_repository,
  changed_legacy, migrate_on, migrate, create, rename, move_legacy, ensure_repository_folder,
}

item_class-past_at :
    (net : Network) (jenkins : JenkinsClient) (path : String) (past : List Event)
    → (item_class net jenkins path past).1 ≡ past ++ sent (item_request net jenkins path) ∷ []
unfolding item_class request
item_class-past_at net jenkins path past = ground arith

module _ (net : Network) (jenkins : JenkinsClient) (path : String) where
  -- Behind `before`, the answer for the item says the class.
  pub record Said (before : List Event) (c : Option String) : Type 0 where
    pub response : Response
    pub answered : net.answer before (item_request net jenkins path) ≡ some response
    pub says : class_of net path response ≡ ok c

  pub item_class-past :
      (past : List Event)
      → (item_class net jenkins path past).1 ≡ past ++ sent (item_request net jenkins path) ∷ []
  item_class-past = item_class-past_at net jenkins path

  item_class-Said :
      (past : List Event) (c : Option String)
      → (item_class net jenkins path past).0 ≡ ok c
      → Said past c
  unfolding item_class request
  item_class-Said past c h = by_answer (net.answer past (item_request net jenkins path)) refl h
    where
      by_answer :
          (a : Option Response)
          → net.answer past (item_request net jenkins path) ≡ a
          → (item_class net jenkins path past).0 ≡ ok c
          → Said past c
      by_answer none e h = ground (arith, e, h)
      by_answer (some response) e h = record {
        response = response;
        answered = e;
        says = simp e at h;
      }

  is_folder_lem : (c : Option String) → is_folder c ≡ true → c ≡ some folder_class
  is_folder_lem none h = absurd (cc h)
  is_folder_lem (some name) h = ap some ((eq_iff name folder_class).0 h)

  -- The item was asked for and was a folder, and since then nothing was sent, or only a request for
  -- the item at the other path, which is no post.
  pub record IsSeen (other : String) (past : List Event) : Type 0 where
    pub before : List Event
    pub after : List Event
    pub splits : past ≡ before ++ sent (item_request net jenkins path) ∷ after
    pub said : Said before (some "com.cloudbees.hudson.plugins.folder.Folder")
    pub final : (after ≡ []) ⊎ (after ≡ sent (item_request net jenkins other) ∷ [])
    pub quiet : posts after ≡ 0

  seen :
      (other : String) (past : List Event) (c : Option String)
      → (item_class net jenkins path past).0 ≡ ok c
      → is_folder c ≡ true
      → IsSeen other (item_class net jenkins path past).1
  unfolding posts
  seen other past c h folder = record {
    before = past;
    after = [];
    splits = item_class-past past;
    said = item_class-Said past (some folder_class) (h ∙ ap ok (is_folder_lem c folder));
    final = inl refl;
    quiet = refl;
  }

  -- with a request for the other item behind it
  IsSeen-before :
      (other : String) (past : List Event) (c : Option String)
      → (item_class net jenkins path past).0 ≡ ok c
      → is_folder c ≡ true
      → IsSeen other (item_class net jenkins other (item_class net jenkins path past).1).1
  unfolding posts
  IsSeen-before other past c h folder = record {
    before = past;
    after = sent (item_request net jenkins other) ∷ [];
    splits =
        item_class-past_at net jenkins other (item_class net jenkins path past).1
        ∙ (ap (λ x. x ++ sent (item_request net jenkins other) ∷ []) (item_class-past past)
            ∙ simp append_assoc);
    said = item_class-Said past (some folder_class) (h ∙ ap ok (is_folder_lem c folder));
    final = inr refl;
    quiet = refl;
  }

-- a request for an item, and what follows it
after_item-Ends :
    {B : Type 0} (net : Network) (jenkins : JenkinsClient) (path : String)
    (P : B → List Event → Type 0) (f : Option String → Remote B) (past : List Event)
    → ((c : Option String)
        → (item_class net jenkins path past).0 ≡ ok c
        → Ends P (f c (item_class net jenkins path past).1))
    → Ends P ((item_class net jenkins path >>= f) past)
after_item-Ends net jenkins path P f past h = resumed (item_class net jenkins path past).0 refl
  where
    resumed :
        (r : Result (Option String))
        → (item_class net jenkins path past).0 ≡ r
        → Ends P (resume f r (item_class net jenkins path past).1)
    resumed (ok c) e = h c e
    resumed (err e') e = tt

module _ (net : Network) (jenkins : JenkinsClient) (owner name : String) where
  abbrev path : String
  path = repository_path owner name

  abbrev Settled : Unit {0} → List Event → Type 0
  Settled u past = IsSeen net jenkins path (legacy_path owner name) past

  abbrev Returned : Bool → List Event → Type 0
  Returned true past = IsSeen net jenkins path (legacy_path owner name) past
  Returned false past = Unit

  create-Settled :
      (left attempt : ℕ) (past : List Event)
      → Ends Settled (create net jenkins owner name left attempt past)
  unfolding create
  create-Settled zero attempt past = after_item-Ends net jenkins path Settled _ past (λ c e.
      elim (Bool-cases (is_folder c)) [
        | inl folder ↦ rw folder (seen net jenkins path (legacy_path owner name) past c e folder)
        | inr other ↦ rw other tt
      ])
  create-Settled (suc left) attempt past =
      let again : (u : Unit {0}) (v : List Event)
          → Ends Settled (create net jenkins owner name left (suc attempt) v) =
        λ u v. create-Settled left (suc attempt) v in
      after_item-Ends net jenkins path Settled _ past (λ c e. elim (Bool-cases (is_folder c)) [
        | inl folder ↦ rw folder (seen net jenkins path (legacy_path owner name) past c e folder)
        | inr other ↦ elim (Bool-cases (is_some c)) [
          | inl there ↦ rw (other, there) tt
          | inr missing ↦
              rw (other, missing)
                (bind-Ends Settled
                  (try_catch
                    (create_item net jenkins "repositories" (repository_name owner name) folder_xml)
                    or_later)
                  (λ _. reconcile_pause jenkins attempt >>= λ _.
                    create net jenkins owner name left (suc attempt))
                  (item_class net jenkins path past).1
                  (λ _ v.
                    bind-Ends Settled (reconcile_pause jenkins attempt)
                      (λ _. create net jenkins owner name left (suc attempt)) v again))
        ]
      ])

  observe-done :
      (current legacy : Option String) → observe current legacy ≡ done → is_folder current ≡ true
  observe-done current legacy h = ground arith

  migrate_on-Returned :
      (attempt : ℕ) (again : Remote Bool) (v : List Event) (x : Observed)
      → (x ≡ done → IsSeen net jenkins path (legacy_path owner name) v)
      → ((u : List Event) → Ends Returned (again u))
      → Ends Returned (migrate_on net jenkins owner name attempt again x v)
  migrate_on-Returned attempt again v done h ih = h refl
  migrate_on-Returned attempt again v migrated h ih = tt
  migrate_on-Returned attempt again v changed_repository h ih = tt
  migrate_on-Returned attempt again v changed_legacy h ih = tt
  migrate_on-Returned attempt again v waiting h ih =
      bind-Ends Returned (reconcile_pause jenkins attempt) (λ _. again) v (λ _ u. ih u)

  migrate-Returned :
      (left attempt : ℕ) (past : List Event)
      → Ends Returned (migrate net jenkins owner name left attempt past)
  unfolding migrate
  migrate-Returned zero attempt past = tt
  migrate-Returned (suc left) attempt past =
      let again : (u : List Event)
          → Ends Returned (migrate net jenkins owner name left (suc attempt) u) =
        λ u. migrate-Returned left (suc attempt) u in
      after_item-Ends net jenkins path Returned _ past (λ current e.
        let v = (item_class net jenkins path past).1 in
        after_item-Ends net jenkins (legacy_path owner name) Returned _ v (λ legacy e'.
          migrate_on-Returned attempt (migrate net jenkins owner name left (suc attempt))
            (item_class net jenkins (legacy_path owner name) v).1 (observe current legacy)
            (λ d.
              IsSeen-before net jenkins path (legacy_path owner name) past current e
                (observe-done current legacy d))
            again))

  move_legacy-Returned :
      (past : List Event) → Ends Returned (move_legacy net jenkins owner name past)
  unfolding move_legacy
  move_legacy-Returned past =
      after_item-Ends net jenkins (legacy_path owner name) Returned _ past (λ legacy e.
        let v = (item_class net jenkins (legacy_path owner name) past).1 in
        elim (Bool-cases (is_migratable legacy)) [
          | inr other ↦ rw other tt
          | inl migratable ↦ rw migratable (
              bind-Ends Returned (if is_some legacy then pure tt else rename net jenkins owner name)
                (λ _. migrate net jenkins owner name 6 0) v (λ _ u. migrate-Returned 6 0 u))
        ])

  Returned-Settled :
      (r : Result Bool) (v : List Event)
      → Ends Returned (r, v)
      → Ends Settled
          (resume (λ returned. if returned then pure tt else create net jenkins owner name 6 0) r v)
  Returned-Settled (ok true) v h = h
  Returned-Settled (ok false) v h = create-Settled 6 0 v
  Returned-Settled (err e) v h = tt

  -- Where the reconciliation of a repository's folder succeeds, Jenkins was asked for its item and
  -- said that it is a folder, and this was the last request of all or had only one for the item at
  -- the legacy path behind it: nothing was posted since.
  pub ensure_repository_folder-Settled :
      (past : List Event)
      → Ends
          (λ u p. IsSeen net jenkins (repository_path owner name) (legacy_path owner name) p)
          (ensure_repository_folder net jenkins owner name past)
  unfolding ensure_repository_folder
  ensure_repository_folder-Settled past = after_item-Ends net jenkins path Settled _ past (λ c e.
      let v = (item_class net jenkins path past).1 in
      elim (Bool-cases (is_folder c)) [
        | inl folder ↦ rw folder (seen net jenkins path (legacy_path owner name) past c e folder)
        | inr other ↦ elim (Bool-cases (is_migratable c)) [
          | inr wrong ↦ rw (other, wrong) tt
          | inl migratable ↦ elim (Bool-cases (is_workflow c)) [
            | inl job ↦
                let (r, u) = move_legacy net jenkins owner name v in
                rw (other, migratable, job) (Returned-Settled r u (move_legacy-Returned v))
            | inr missing ↦ rw (other, migratable, missing) (create-Settled 6 0 v)
          ]
        ]
      ])
