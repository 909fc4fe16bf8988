-- ===== src/Model/Repository.antt =====
-- models.py: repositories. A `UUID` is its text, a `datetime` a count of microseconds.
use jenkins_service.Prelude.{ℕ, String, Bool, Option, none, some, ◌+++◌}

pub record RepositoryCreate : Type 0 where
  pub owner : String
  pub name : String
  pub default_branch : String
  pub enabled : Bool

pub record RepositoryUpdate : Type 0 where
  pub default_branch : Option String
  pub enabled : Option Bool

pub record Repository : Type 0 where
  pub owner : String
  pub name : String
  pub default_branch : String
  pub enabled : Bool
  pub id : String
  pub created_at : ℕ
  pub updated_at : ℕ

unfoldable pub full_name_of : String → String → String
full_name_of owner name = owner +++ ("/" +++ name)

-- `Repository.full_name`
abbrev pub full_name : Repository → String
full_name r = full_name_of r.owner r.name

-- `RepositoryCreate.full_name`
abbrev pub create_full_name : RepositoryCreate → String
create_full_name r = full_name_of r.owner r.name

abbrev pub or_else {ℓ} : {A : Type ℓ} → Option A → A → A
or_else none d = d
or_else (some a) d = a

-- `current.model_copy(update=value.model_dump(exclude_none=True))`
unfoldable pub apply_update : RepositoryUpdate → Repository → Repository
apply_update u r = record r {
  default_branch = or_else u.default_branch r.default_branch;
  enabled = or_else u.enabled r.enabled;
}
