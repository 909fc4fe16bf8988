-- ===== src/Tests/Models.antt =====
-- models.py and clients.py.
use jenkins_service.Prelude.{
  String, ◌≡◌, refl, true, false, none, [], ◌∷◌, length, codes, all, is_some, split, starts_with,
  contains, ◌≤◌,
}
use jenkins_service.Exec.{ok}
use jenkins_service.Model.Scope.{Scope, permits, granted, permits-eq-granted}
use jenkins_service.Model.Branch.{
  matches_branch, is_unsafe_branch, is_branch_char, is_plain_part, validate_branch_name,
  validate_branch_name-plain,
}
use jenkins_service.Model.RelativePath.{
  is_unsafe_path, validate_relative_path, walk, validate_relative_path-stays,
}
use jenkins_service.Clients.Jobs.{has_slash, branch_job_name, branch_job_name-no_slash}

permits-eq-granted_example :
    permits (record { token_id = "t"; scopes = Scope.extend ∷ Scope.operate ∷ [] }) Scope.operate
    ≡ granted Scope.operate (Scope.extend ∷ Scope.operate ∷ [])
permits-eq-granted_example =
    permits-eq-granted "t" (Scope.extend ∷ Scope.operate ∷ []) Scope.operate

branch_is_accepted : validate_branch_name "feature/x.y" ≡ ok "feature/x.y"
unfolding validate_branch_name matches_branch is_branch_char is_unsafe_branch split
branch_is_accepted = refl

validate_branch_name-plain_example :
    (◌≡◌ {A = String} "feature/x.y" "feature/x.y")
    × (1 ≤ length (codes "feature/x.y"))
    × (length (codes "feature/x.y") ≤ 255)
    × (all is_branch_char (codes "feature/x.y") ≡ true)
    × (all is_plain_part (split b'/' (codes "feature/x.y")) ≡ true)
validate_branch_name-plain_example = validate_branch_name-plain "feature/x.y" branch_is_accepted

accepted_path : validate_relative_path "a/./b" ≡ ok "a/./b"
unfolding validate_relative_path is_unsafe_path split
accepted_path = refl

validate_relative_path-stays_example :
    (◌≡◌ {A = String} "a/./b" "a/./b")
    × (starts_with (codes "a/./b") (codes "/") ≡ false)
    × (contains (codes "a/./b") (codes "\\") ≡ false)
    × (is_some (walk 0 (split b'/' (codes "a/./b"))) ≡ true)
validate_relative_path-stays_example = validate_relative_path-stays "a/./b" accepted_path

branch_job_name-no_slash_example :
    has_slash (branch_job_name (λ branch. "0123") (λ n. "12") "feature/x" none) ≡ false
branch_job_name-no_slash_example =
    branch_job_name-no_slash (λ branch. "0123") (λ n. "12") (λ branch. refl) (λ n. refl) "feature/x"
      none
