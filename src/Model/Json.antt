-- ===== src/Model/Json.antt =====
-- JSON values as Python reads them; `real` keeps the text of a number that is no integer.
use jenkins_service.Prelude.{ℕ, String, Bool, Option, none, some, ◌==◌, if◌then◌else◌}

mutual
  pub data Json : Type 0 where
    null : Json
    bool : Bool → Json
    num : ℕ → Json
    neg : ℕ → Json
    real : String → Json
    str : String → Json
    arr : Items → Json
    obj : Fields → Json

  pub data Items : Type 0 where
    nil : Items
    cons : Json → Items → Items

  pub data Fields : Type 0 where
    end : Fields
    field : String → Json → Fields → Fields

-- `d.get(k)`; the last of two equal keys wins when the text is read, so keys are unique here
unfoldable pub get : String → Fields → Option Json
get k end = none
get k (field j v fs) = if j == k then some v else get k fs

-- `v if isinstance(v, dict) else None`
unfoldable pub as_object : Option Json → Option Fields
as_object (some (obj fs)) = some fs
as_object _ = none

-- `v if isinstance(v, list) else None`
unfoldable pub as_array : Option Json → Option Items
as_array (some (arr xs)) = some xs
as_array _ = none

-- `v if isinstance(v, str) else None`
unfoldable pub as_string : Option Json → Option String
as_string (some (str s)) = some s
as_string _ = none

-- `isinstance(v, int) and not isinstance(v, bool)`, for a number that is not negative
unfoldable pub as_natural : Option Json → Option ℕ
as_natural (some (num n)) = some n
as_natural _ = none
