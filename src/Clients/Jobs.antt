-- ===== src/Clients/Jobs.antt =====
-- clients.py: the names and paths of the Jenkins jobs of a repository. `digest` stands for
-- `hashlib.sha256(branch.encode()).hexdigest()[:16]`, and `decimal` for the decimal text of a number.
use jenkins_service.Prelude.{
  ℕ, zero, suc, String, ◌≡◌, refl, ◌∙◌, Bool, false, ◌||◌, Option, none, some, ◌+++◌, codes,
  codes-append, string_take, slash_to_dash, any, nat_eq, arith, any-append, Bool-cases, inl, inr,
}
use Prim.Native.Char.{code}

unfoldable pub job_name : String → String → String
job_name owner name = owner +++ ("--" +++ name)

unfoldable pub legacy_job_name : String → String → String
unfolding job_name
legacy_job_name owner name = job_name owner name +++ "--legacy"

unfoldable pub legacy_job_path : String → String → String
unfolding legacy_job_name
legacy_job_path owner name = "repositories/" +++ legacy_job_name owner name

module _ (digest : String → String) (decimal : ℕ → String) where
  unfoldable pub branch_job_name : String → Option ℕ → String
  branch_job_name branch (some pull_request) = "PR-" +++ decimal pull_request
  branch_job_name branch none =
      "branch-" +++ (string_take 120 (slash_to_dash branch) +++ ("-" +++ digest branch))

  unfoldable pub managed_job_path : String → String → String → Option ℕ → String
  unfolding branch_job_name job_name
  managed_job_path owner name branch pull_request =
      "repositories/" +++ (job_name owner name +++ ("/" +++ branch_job_name branch pull_request))

-- `"/" in s`
abbrev pub has_slash : String → Bool
has_slash s = any (λ c. nat_eq c b'/') (codes s)

has_slash-append : (s t : String) → has_slash (s +++ t) ≡ (has_slash s || has_slash t)
has_slash-append s t = rw codes-append (any-append (λ c. nat_eq c b'/') (codes s) (codes t))

slash_to_dash-no_slash : (s : String) → has_slash (slash_to_dash s) ≡ false
unfolding slash_to_dash
slash_to_dash-no_slash String.[] = refl
slash_to_dash-no_slash (String.◌∷◌ c s) = elim (Bool-cases (nat_eq (code c) b'/')) [
  | inl slash ↦ rw slash (slash_to_dash-no_slash s)
  | inr other ↦ rw other (rw other (slash_to_dash-no_slash s))
]

string_take-no_slash :
    (n : ℕ) (s : String) → has_slash s ≡ false → has_slash (string_take n s) ≡ false
unfolding string_take
string_take-no_slash zero s h = refl
string_take-no_slash (suc n) String.[] h = refl
string_take-no_slash (suc n) (String.◌∷◌ c s) h = ground (arith, string_take-no_slash n s)

or_false : (a b : Bool) → a ≡ false → b ≡ false → (a || b) ≡ false
or_false a b p q = ground arith

no_slash-append :
    (s t : String) → has_slash s ≡ false → has_slash t ≡ false → has_slash (s +++ t) ≡ false
no_slash-append s t p q = has_slash-append s t ∙ or_false _ _ p q

-- The job of a branch or of a pull request is a direct child of the repository's folder: its name
-- has no slash, whatever the branch is, as long as digests and decimal numbers have none.
pub branch_job_name-no_slash :
    (digest : String → String) (decimal : ℕ → String)
    → ((branch : String) → has_slash (digest branch) ≡ false)
    → ((n : ℕ) → has_slash (decimal n) ≡ false)
    → (branch : String) (pull_request : Option ℕ)
    → has_slash (branch_job_name digest decimal branch pull_request) ≡ false
unfolding branch_job_name
branch_job_name-no_slash digest decimal dig dec branch (some n) =
    no_slash-append "PR-" (decimal n) refl (dec n)
branch_job_name-no_slash digest decimal dig dec branch none =
    no_slash-append "branch-" (string_take 120 (slash_to_dash branch) +++ ("-" +++ digest branch))
      refl
      (no_slash-append (string_take 120 (slash_to_dash branch)) ("-" +++ digest branch)
        (string_take-no_slash 120 (slash_to_dash branch) (slash_to_dash-no_slash branch))
        (no_slash-append "-" (digest branch) refl (dig branch)))
