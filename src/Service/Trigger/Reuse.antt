-- ===== src/Service/Trigger/Reuse.antt =====
-- Which build a trigger may reuse.
use jenkins_service.Prelude.{
  String, ◌≡◌, refl, ◌∙◌, Bool, true, false, Option, none, some, List, [], ◌∷◌, eq_iff, any,
  find_first, find_first_sound, same_lower_iff, lower, All, arith, Bool-cases, Option-cases, inl,
  inr, sym,
}
use mathlib.Core.Path.{subst}
use mathlib.Core.List.{Mem, mem-cons_self, mem-cons_of_mem}
use mathlib.Core.List.Perm
use jenkins_service.Dict.{values}
use jenkins_service.Sorting.{sort_by-perm, any-sort_by}
use jenkins_service.Model.Repository.{or_else}
use jenkins_service.Model.Pipeline.{Status, is_passed, Build}
use jenkins_service.Store
use jenkins_service.Store.{Store, newest_first}
use jenkins_service.Service.Trigger.{is_reusable, reusable_native_build}

pub find_first_mem :
    {A : Type 0} (p : A → Bool) (xs : List A) {a : A} → find_first p xs ≡ some a → Mem a xs
find_first_mem p [] {a} h = absurd (cc h)
find_first_mem p (x ∷ xs) {a} h = elim (Bool-cases (p x)) [
  | inl found ↦
      let e : x ≡ a = ground (arith, h, found) in subst (λ y. Mem y (x ∷ xs)) e mem-cons_self
  | inr other ↦ mem-cons_of_mem x (find_first_mem p xs (ground (arith, h, other)))
]

find_first-any :
    {A : Type 0} (p : A → Bool) (xs : List A) → find_first p xs ≡ none → any p xs ≡ false
find_first-any p [] h = refl
find_first-any p (x ∷ xs) h = ground (arith, find_first-any p xs)

is_passed_iff : (status : Status) → is_passed status ≡ true → status ≡ Status.passed
is_passed_iff status h = ground arith

module _ (repository_id commit_sha trusted_sha : String) (s : Store) where
  -- passed for the same repository and commits up to case, for no pull request, and no reuse
  abbrev pub Qualifies : Build → Type 0
  Qualifies build =
      (build.repository_id ≡ repository_id)
      × (lower build.result.commit_sha ≡ lower commit_sha)
      × (lower (or_else build.result.trusted_sha "") ≡ lower trusted_sha)
      × (build.result.pull_request ≡ none)
      × (build.result.status ≡ Status.passed)
      × (build.reused_from_build_id ≡ none)

  -- What a found build is, and what it means that none is found.
  abbrev pub Reuses : Option Build → Type 0
  Reuses none = All (λ build. ¬ Qualifies build) (values s.builds)
  Reuses (some build) = Mem build (values s.builds) × Qualifies build

  is_reusable_lem :
      (build : Build)
      → is_reusable repository_id commit_sha trusted_sha build ≡ true
      → Qualifies build
  unfolding is_reusable
  is_reusable_lem build h = ground (
    arith,
    h,
    eq_iff build.repository_id repository_id,
    is_passed_iff build.result.status,
    same_lower_iff build.result.commit_sha commit_sha,
    same_lower_iff (or_else build.result.trusted_sha "") trusted_sha,
  )

  Qualifies-is_reusable :
      (build : Build)
      → Qualifies build
      → is_reusable repository_id commit_sha trusted_sha build ≡ true
  unfolding is_reusable
  Qualifies-is_reusable build (r, c, t, p, s', f) =
      rw
        (
          (eq_iff build.repository_id repository_id).1 r,
          (same_lower_iff build.result.commit_sha commit_sha).1 c,
          (same_lower_iff (or_else build.result.trusted_sha "") trusted_sha).1 t,
          p,
          s',
          f,
        )
        refl

  none-Qualifies :
      (builds : List Build)
      → any (is_reusable repository_id commit_sha trusted_sha) builds ≡ false
      → All (λ build. ¬ Qualifies build) builds
  none-Qualifies [] h = tt
  none-Qualifies (build ∷ builds) h = (
    λ q. ground (arith, h, Qualifies-is_reusable build q),
    none-Qualifies builds (ground (arith, h)),
  )

  abbrev test : Build → Bool
  test = is_reusable repository_id commit_sha trusted_sha

  abbrev newest : Build → Build → Bool
  newest = newest_first (λ item. item.created_at)

  -- A build that is found for reuse is a stored build of the repository, of the same commit and
  -- trusted commit up to case, for no pull request, passed, and no reuse itself. Where none is
  -- found, none of the builds of the store (`MemoryStore`, which lists them all) is such a build.
  pub reusable_native_build-Reuses :
      Reuses (reusable_native_build repository_id commit_sha trusted_sha s)
  unfolding reusable_native_build Store.list_builds
  reusable_native_build-Reuses = elim (Option-cases (find_first test (Store.list_builds s))) [
    | inl e ↦ rw e (
        none-Qualifies (values s.builds) (
          sym (any-sort_by test newest (values s.builds))
          ∙ find_first-any test (Store.list_builds s) e))
    | inr (build, e) ↦
        let h = is_reusable_lem build (find_first_sound test (Store.list_builds s) e) in
        let stored =
          (Perm.mem_iff (sort_by-perm newest (values s.builds))).0
            (find_first_mem test (Store.list_builds s) e) in
        rw e (stored, h)
  ]
