-- ===== src/Clients/GitHub/Paths.antt =====
-- clients.py: the path that `GitHubClient.execute_action` posts an action to.
use jenkins_service.Prelude.{
  ℕ, suc, zero, String, ◌+++◌, ◌≡◌, refl, ap, ◌∙◌, sym, true, false, Option, none, some, Bool-cases,
  Option-cases, inl, inr, ◌⊎◌, ◌==◌, eq_iff, arith,
}
use jenkins_service.Exec.{ok, err, value_error}
use jenkins_service.Model.Json.{Json, null, bool, num, neg, real, str, arr, obj, Fields, get}
use jenkins_service.Clients.GitHub.{
  action_path, allowed_actions, is_among, is_sha, positive_text, sha_text,
}

module _ (decimal : ℕ → String) (repository : String) (payload : Fields) where
  -- The value is a positive number with that text; JSON's true counts as one.
  abbrev pub IsTarget : Option Json → String → Type 0
  IsTarget value target =
      ((n : ℕ) × (value ≡ some (num (suc n))) × (target ≡ decimal (suc n)))
      ⊎ ((value ≡ some (bool true)) × (target ≡ "True"))

  -- where an action goes: to the comments of the pull request or of the issue in the payload, to the
  -- check runs of the repository, or to the statuses of the commit in the payload
  abbrev pub Leads : String → String → Type 0
  Leads action path =
      ((action ≡ "review_comment")
        × (target : String) × IsTarget (get "pull_number" payload) target
        × (path ≡ "/repos/" +++ (repository +++ ("/pulls/" +++ (target +++ "/comments")))))
      ⊎ ((action ≡ "issue_comment")
          × (target : String) × IsTarget (get "issue_number" payload) target
          × (path ≡ "/repos/" +++ (repository +++ ("/issues/" +++ (target +++ "/comments")))))
      ⊎ ((action ≡ "check_run") × (path ≡ "/repos/" +++ (repository +++ "/check-runs")))
      ⊎ ((action ≡ "status")
          × (sha : String) × (get "sha" payload ≡ some (str sha))
          × (is_sha sha ≡ true)
          × (path ≡ "/repos/" +++ (repository +++ ("/statuses/" +++ sha))))

  positive_text-IsTarget :
      (value : Option Json) (target : String)
      → positive_text decimal value ≡ some target
      → IsTarget value target
  positive_text-IsTarget none target h = absurd (cc h)
  positive_text-IsTarget (some null) target h = absurd (cc h)
  positive_text-IsTarget (some (bool true)) target h = inr (refl, ground (arith, h))
  positive_text-IsTarget (some (bool false)) target h = absurd (cc h)
  positive_text-IsTarget (some (num zero)) target h = absurd (cc h)
  positive_text-IsTarget (some (num (suc n))) target h = inl (n, refl, ground (arith, h))
  positive_text-IsTarget (some (str s)) target h = absurd (cc h)
  positive_text-IsTarget (some (neg n)) target h = absurd (cc h)
  positive_text-IsTarget (some (real s)) target h = absurd (cc h)
  positive_text-IsTarget (some (arr s)) target h = absurd (cc h)
  positive_text-IsTarget (some (obj s)) target h = absurd (cc h)

  IsTarget-positive_text :
      (value : Option Json) (target : String)
      → IsTarget value target
      → positive_text decimal value ≡ some target
  IsTarget-positive_text value target (inl (n, e, t)) = rw (e, t) refl
  IsTarget-positive_text value target (inr (e, t)) = rw (e, t) refl

  sha_text_sound :
      (value : Option Json) (sha : String)
      → sha_text value ≡ some sha
      → (value ≡ some (str sha)) × (is_sha sha ≡ true)
  sha_text_sound none sha h = absurd (cc h)
  sha_text_sound (some null) sha h = absurd (cc h)
  sha_text_sound (some (bool b)) sha h = absurd (cc h)
  sha_text_sound (some (num n)) sha h = absurd (cc h)
  sha_text_sound (some (str s)) sha h = elim (Bool-cases (is_sha s)) [
    | inl good ↦
        let e : s ≡ sha = ground (arith, rw good at h) in
        (ap (λ t. some (str t)) e, sym (ap is_sha e) ∙ good)
    | inr bad ↦ absurd (cc (rw bad at h))
  ]
  sha_text_sound (some (neg n)) sha h = absurd (cc h)
  sha_text_sound (some (real s)) sha h = absurd (cc h)
  sha_text_sound (some (arr s)) sha h = absurd (cc h)
  sha_text_sound (some (obj s)) sha h = absurd (cc h)

  eq_sym : (s t : String) → (s == t) ≡ (t == s)
  eq_sym s t = ground (arith, eq_iff s t, eq_iff t s)

  pub Leads-action_path :
      (action path : String)
      → Leads action path
      → action_path decimal repository action payload ≡ ok path
  unfolding action_path
  Leads-action_path action path (inl (a, target, t, p)) =
      rw (a, IsTarget-positive_text _ target t, p) refl
  Leads-action_path action path (inr (inl (a, target, t, p))) =
      rw (a, IsTarget-positive_text _ target t, p) refl
  Leads-action_path action path (inr (inr (inl (a, p)))) = rw (a, p) refl
  Leads-action_path action path (inr (inr (inr (a, sha, e, good, p)))) = rw (a, e, good, p) refl

  pub action_path-Leads :
      (action path : String)
      → is_among action allowed_actions ≡ true
      → action_path decimal repository action payload ≡ ok path
      → Leads action path
  unfolding action_path
  action_path-Leads action path known h = elim (Bool-cases (action == "review_comment")) [
    | inl pull ↦
        let e : action ≡ "review_comment" = (eq_iff action "review_comment").0 pull in
        let leads =
          numbered "review_comment requires a positive pull_number"
            (λ target. "/repos/" +++ (repository +++ ("/pulls/" +++ (target +++ "/comments"))))
            (get "pull_number" payload) (rw pull at h) in
        inl (e, leads.0, leads.1, leads.2)
    | inr other ↦ elim (Bool-cases (action == "issue_comment")) [
      | inl issue ↦
          let e : action ≡ "issue_comment" = (eq_iff action "issue_comment").0 issue in
          let leads =
            numbered "issue_comment requires a positive issue_number"
              (λ target. "/repos/" +++ (repository +++ ("/issues/" +++ (target +++ "/comments"))))
              (get "issue_number" payload) (rw (other, issue) at h) in
          inr (inl (e, leads.0, leads.1, leads.2))
      | inr other' ↦ elim (Bool-cases (action == "check_run")) [
        | inl check ↦
            let e : action ≡ "check_run" = (eq_iff action "check_run").0 check in
            let p : path ≡ "/repos/" +++ (repository +++ "/check-runs") =
              ground (arith, rw (other, other', check) at h) in
            inr (inr (inl (e, p)))
        | inr other'' ↦
            let e : action ≡ "status" = ground (
              arith,
              known,
              other,
              other',
              other'',
              eq_iff action "status",
              eq_sym action "review_comment",
              eq_sym action "issue_comment",
              eq_sym action "check_run",
              eq_sym action "status",
            ) in
            let leads = commit (get "sha" payload) (rw (other, other', other'') at h) in
            inr (inr (inr (e, leads.0, leads.1, leads.2, leads.3)))
      ]
    ]
  ]
    where
      numbered :
          (message : String) (to : String → String) (value : Option Json)
          → (elim (positive_text decimal value) [
            | none ↦ err (value_error message)
            | some target ↦ ok (to target)
          ])
            ≡ ok path
          → (target : String) × IsTarget value target × (path ≡ to target)
      numbered message to value h = elim (Option-cases (positive_text decimal value)) [
        | inl none_given ↦ absurd (cc (rw none_given at h))
        | inr (target, e) ↦
            let p : path ≡ to target = ground (arith, rw e at h) in
            (target, positive_text-IsTarget value target e, p)
      ]

      commit :
          (value : Option Json)
          → (elim (sha_text value) [
            | none ↦ err (value_error "status requires a 40-character commit SHA")
            | some target ↦ ok ("/repos/" +++ (repository +++ ("/statuses/" +++ target)))
          ])
            ≡ ok path
          → (sha : String) × (value ≡ some (str sha))
            × (is_sha sha ≡ true)
            × (path ≡ "/repos/" +++ (repository +++ ("/statuses/" +++ sha)))
      commit value h = elim (Option-cases (sha_text value)) [
        | inl none_given ↦ absurd (cc (rw none_given at h))
        | inr (sha, e) ↦
            let p : path ≡ "/repos/" +++ (repository +++ ("/statuses/" +++ sha)) =
              ground (arith, rw e at h) in
            let (is_text, good) = sha_text_sound value sha e in (sha, is_text, good, p)
      ]
