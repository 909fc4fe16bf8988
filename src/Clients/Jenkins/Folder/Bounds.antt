-- ===== src/Clients/Jenkins/Folder/Bounds.antt =====
-- How many requests a reconciliation of a repository's folder posts.
use jenkins_service.Prelude.{
  ℕ, zero, suc, String, ◌≡◌, Bool, List, [], ◌∷◌, ◌++◌, is_some, if◌then◌else◌, Bool-cases, inl,
  inr, arith, ltb, ◌*◌, ◌^◌, ◌+++◌,
}
use jenkins_service.Exec.{Result, ◌>>=◌, pure, try_catch}
use jenkins_service.Clients.Http.{
  Request, Response, Event, sent, slept, no_body, Network, Remote, request, wait, raise_for_status,
  or_upstream,
}
use jenkins_service.Clients.Posts.{
  posts, posts-append, PostsAtMost, bind-PostsAtMost, then-PostsAtMost, try_catch-PostsAtMost,
}
use jenkins_service.Clients.Jenkins.{
  JenkinsClient, create_item, reconcile_pause, item_request, item_class, crumb, crumb_request, post,
  post_request,
}
use jenkins_service.Clients.Jenkins.Folder.{
  is_folder, is_workflow, is_migratable, repository_path, repository_name, folder_xml, or_later,
  legacy_path, Observed, observe, done, migrated, waiting, changed_repository, changed_legacy,
  migrate_on, migrate, create, rename, move_legacy, ensure_repository_folder,
}
use jenkins_service.Clients.Jenkins.Folder.Settles.{item_class-past}

-- a method that does nothing
pure-PostsAtMost : {A : Type 0} (n : ℕ) (r : Result A) → PostsAtMost n (λ past. (r, past))
pure-PostsAtMost n r past = omega arith

request-PostsAtMost : (net : Network) (r : Request) → PostsAtMost 1 (request net r)
unfolding request posts
request-PostsAtMost net r past = ground (arith, posts-append past (sent r ∷ []))

module _ (net : Network) (jenkins : JenkinsClient) where
  item_class-PostsAtMost : (path : String) → PostsAtMost 0 (item_class net jenkins path)
  unfolding posts
  item_class-PostsAtMost path past =
      let e = item_class-past net jenkins path past in
      rw e (omega (arith, posts-append past (sent (item_request net jenkins path) ∷ [])))

  crumb-past :
      (past : List Event)
      → (crumb net jenkins past).1 ≡ past ++ sent (crumb_request net jenkins) ∷ []
  unfolding crumb request raise_for_status
  crumb-past past = ground arith

  crumb-PostsAtMost : PostsAtMost 0 (crumb net jenkins)
  unfolding posts
  crumb-PostsAtMost past =
      rw (crumb-past past)
        (omega (arith, posts-append past (sent (crumb_request net jenkins) ∷ [])))

  pause-PostsAtMost : (attempt : ℕ) → PostsAtMost 0 (reconcile_pause jenkins attempt)
  unfolding reconcile_pause wait posts
  pause-PostsAtMost attempt past = elim (Bool-cases (ltb 0 jenkins.reconcile_delay)) [
    | inl some_delay ↦
        rw some_delay
          (omega (arith, posts-append past (slept (jenkins.reconcile_delay * 2 ^ attempt) ∷ [])))
    | inr none_ ↦ rw none_ (omega arith)
  ]

  raise_for_status-PostsAtMost : (response : Response) → PostsAtMost 0 (raise_for_status response)
  unfolding raise_for_status
  raise_for_status-PostsAtMost response past = ground arith

  create_item-PostsAtMost :
      (parent name xml : String) → PostsAtMost 1 (create_item net jenkins parent name xml)
  unfolding create_item
  create_item-PostsAtMost parent name xml =
      bind-PostsAtMost 0 1 (crumb net jenkins) _ crumb-PostsAtMost (λ headers.
        bind-PostsAtMost 1 0 (request net _) raise_for_status (request-PostsAtMost net _)
          raise_for_status-PostsAtMost)

  post-PostsAtMost :
      (path : String) (params : List (String × String))
      → PostsAtMost 1 (post net jenkins path params)
  unfolding post
  post-PostsAtMost path params =
      try_catch-PostsAtMost 1 _ (or_upstream ("Jenkins request failed: " +++ path))
        (bind-PostsAtMost 0 1 (crumb net jenkins) _ crumb-PostsAtMost (λ headers.
          bind-PostsAtMost 1 0 (request net (post_request net jenkins path params headers no_body))
            _ (request-PostsAtMost net (post_request net jenkins path params headers no_body))
            (λ response.
              bind-PostsAtMost 0 0 (raise_for_status response) _
                (raise_for_status-PostsAtMost response) (λ _ past. omega arith))))
        (λ e past. ground arith)

module _ (net : Network) (jenkins : JenkinsClient) (owner name : String) where
  -- one attempt of the creation
  attempt-PostsAtMost :
      (left attempt : ℕ)
      → PostsAtMost left (create net jenkins owner name left (suc attempt))
      → PostsAtMost (suc left) (
          try_catch
            (create_item net jenkins "repositories" (repository_name owner name) folder_xml)
            or_later
          >>= λ _. reconcile_pause jenkins attempt >>= λ _.
              create net jenkins owner name left (suc attempt))
  attempt-PostsAtMost left attempt again =
      then-PostsAtMost 1 left (suc left)
        (try_catch (create_item net jenkins "repositories" (repository_name owner name) folder_xml)
          or_later)
        _ (omega arith)
        (try_catch-PostsAtMost 1
          (create_item net jenkins "repositories" (repository_name owner name) folder_xml) or_later
          (create_item-PostsAtMost net jenkins "repositories" (repository_name owner name)
            folder_xml)
          (λ e past. ground arith))
        (λ _.
          then-PostsAtMost 0 left left (reconcile_pause jenkins attempt) _ (omega arith)
            (pause-PostsAtMost net jenkins attempt) (λ _. again))

  create-PostsAtMost :
      (left attempt : ℕ) → PostsAtMost left (create net jenkins owner name left attempt)
  unfolding create
  create-PostsAtMost zero attempt =
      then-PostsAtMost 0 0 0 (item_class net jenkins (repository_path owner name)) _ (omega arith)
        (item_class-PostsAtMost net jenkins (repository_path owner name))
        (λ last past. ground arith)
  create-PostsAtMost (suc left) attempt =
      let again = attempt-PostsAtMost left attempt (create-PostsAtMost left (suc attempt)) in
      then-PostsAtMost 0 (suc left) (suc left) (item_class net jenkins (repository_path owner name))
        _ (omega arith) (item_class-PostsAtMost net jenkins (repository_path owner name))
        (λ current past. elim (Bool-cases (is_folder current)) [
          | inl folder ↦ rw folder (omega arith)
          | inr other ↦ elim (Bool-cases (is_some current)) [
            | inl there ↦ rw (other, there) (omega arith)
            | inr missing ↦ rw (other, missing) (again past)
          ]
        ])

  migrate_on-PostsAtMost :
      (attempt : ℕ) (again : Remote Bool) (x : Observed)
      → PostsAtMost 0 again
      → PostsAtMost 0 (migrate_on net jenkins owner name attempt again x)
  migrate_on-PostsAtMost attempt again done h = λ past. omega arith
  migrate_on-PostsAtMost attempt again migrated h = λ past. omega arith
  migrate_on-PostsAtMost attempt again changed_repository h = λ past. omega arith
  migrate_on-PostsAtMost attempt again changed_legacy h = λ past. omega arith
  migrate_on-PostsAtMost attempt again waiting h =
      then-PostsAtMost 0 0 0 (reconcile_pause jenkins attempt) (λ _. again) (omega arith)
        (pause-PostsAtMost net jenkins attempt) (λ _. h)

  migrate-PostsAtMost :
      (left attempt : ℕ) → PostsAtMost 0 (migrate net jenkins owner name left attempt)
  unfolding migrate
  migrate-PostsAtMost zero attempt = λ past. omega arith
  migrate-PostsAtMost (suc left) attempt =
      let again = migrate-PostsAtMost left (suc attempt) in
      then-PostsAtMost 0 0 0 (item_class net jenkins (repository_path owner name)) _ (omega arith)
        (item_class-PostsAtMost net jenkins (repository_path owner name))
        (λ current.
          then-PostsAtMost 0 0 0 (item_class net jenkins (legacy_path owner name)) _ (omega arith)
            (item_class-PostsAtMost net jenkins (legacy_path owner name))
            (λ legacy. migrate_on-PostsAtMost attempt _ (observe current legacy) again))

  rename-PostsAtMost : PostsAtMost 1 (rename net jenkins owner name)
  unfolding rename
  rename-PostsAtMost =
      then-PostsAtMost 1 0 1 (post net jenkins _ _) _ (omega arith)
        (post-PostsAtMost net jenkins _ _) (λ _ past. omega arith)

  move_legacy-PostsAtMost : PostsAtMost 1 (move_legacy net jenkins owner name)
  unfolding move_legacy
  move_legacy-PostsAtMost =
      then-PostsAtMost 0 1 1 (item_class net jenkins (legacy_path owner name)) _ (omega arith)
        (item_class-PostsAtMost net jenkins (legacy_path owner name))
        (λ legacy. elim (Bool-cases (is_migratable legacy)) [
          | inr other ↦ λ past. rw other (omega arith)
          | inl migratable ↦ λ past. rw migratable (
              then-PostsAtMost 1 0 1
                (if is_some legacy then pure tt else rename net jenkins owner name)
                (λ _. migrate net jenkins owner name 6 0) (omega arith)
                (λ v. ground (arith, rename-PostsAtMost v)) (λ _. migrate-PostsAtMost 6 0) past)
        ])

  -- A reconciliation posts at most seven requests, whatever Jenkins answers: one rename and six
  -- creations.
  pub ensure_repository_folder-PostsAtMost :
      PostsAtMost 7 (ensure_repository_folder net jenkins owner name)
  unfolding ensure_repository_folder
  ensure_repository_folder-PostsAtMost =
      then-PostsAtMost 0 7 7 (item_class net jenkins (repository_path owner name)) _ (omega arith)
        (item_class-PostsAtMost net jenkins (repository_path owner name))
        (λ current past. elim (Bool-cases (is_folder current)) [
          | inl folder ↦ rw folder (omega arith)
          | inr other ↦ elim (Bool-cases (is_migratable current)) [
            | inr wrong ↦ rw (other, wrong) (omega arith)
            | inl migratable ↦ elim (Bool-cases (is_workflow current)) [
              | inl job ↦
                  rw (other, migratable, job)
                    (then-PostsAtMost 1 6 7 (move_legacy net jenkins owner name)
                      (λ returned. if returned then pure tt else create net jenkins owner name 6 0)
                      (omega arith) move_legacy-PostsAtMost
                      (λ returned v. ground (arith, create-PostsAtMost 6 0 v)) past)
              | inr missing ↦
                  rw (other, migratable, missing) (omega (arith, create-PostsAtMost 6 0 past))
            ]
          ]
        ])
