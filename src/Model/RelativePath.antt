-- ===== src/Model/RelativePath.antt =====
-- models.py: `validate_relative_path`, and the parts of a `PurePosixPath`.
use jenkins_service.Prelude.{
  ℕ, zero, suc, String, ◌≡◌, refl, Bool, true, false, not, ◌||◌, Option, none, some, List, [], ◌∷◌,
  arith, if◌then◌else◌, any, keep, is_some, codes, text_eq, starts_with, contains, split, ◌==◌,
}
use jenkins_service.Exec.{value_error, Result, ok, err}

abbrev pub is_dot : List ℕ → Bool
is_dot part = text_eq part (codes ".")

abbrev pub is_dotdot : List ℕ → Bool
is_dotdot part = text_eq part (codes "..")

-- `PurePosixPath(s).parts` without the root: empty parts and `.` are dropped
unfoldable pub parts : List ℕ → List (List ℕ)
parts s = keep (λ part. not (text_eq part [] || is_dot part)) (split b'/' s)

-- `PurePosixPath(s).is_absolute()`
unfoldable pub is_absolute : List ℕ → Bool
is_absolute s = starts_with s (codes "/")

-- `path.is_absolute() or ".." in path.parts or "\\" in value`
unfoldable pub is_unsafe_path : List ℕ → Bool
unfolding parts is_absolute
is_unsafe_path s = is_absolute s || any is_dotdot (parts s) || contains s (codes "\\")

unfoldable pub validate_relative_path : String → Result String
validate_relative_path value =
    if value == ""
    then err (value_error "path must not be empty")
    else if is_unsafe_path (codes value)
    then err (value_error "path must be relative and may not traverse parent directories")
    else ok value

-- Opening a path one part at a time, from a directory `depth` levels below the root that must not
-- be left: `none` when a part leads above that root.
abbrev pub walk : ℕ → List (List ℕ) → Option ℕ
walk depth [] = some depth
walk zero (part ∷ rest) =
    let down = walk 1 rest in
    let stay = walk 0 rest in
    if is_dotdot part then none else if text_eq part [] || is_dot part then stay else down
walk (suc depth) (part ∷ rest) =
    let up = walk depth rest in
    let down = walk (suc (suc depth)) rest in
    let stay = walk (suc depth) rest in
    if is_dotdot part then up else if text_eq part [] || is_dot part then stay else down

-- `..` is neither of the parts that `PurePosixPath` drops.
is_dotdot-kept : (p : List ℕ) → is_dotdot p ≡ true → (text_eq p [] || is_dot p) ≡ false
is_dotdot-kept [] h = ground arith
is_dotdot-kept (c ∷ []) h = ground arith
is_dotdot-kept (c ∷ d ∷ p) h = ground arith

walk-stays :
    (depth : ℕ) (ps : List (List ℕ))
    → any is_dotdot (keep (λ part. not (text_eq part [] || is_dot part)) ps) ≡ false
    → is_some (walk depth ps) ≡ true
walk-stays depth [] h = refl
walk-stays zero (p ∷ ps) h = ground (arith, is_dotdot-kept p, walk-stays 0 ps, walk-stays 1 ps)
walk-stays (suc depth) (p ∷ ps) h =
    ground (arith, is_dotdot-kept p, walk-stays (suc depth) ps, walk-stays (suc (suc depth)) ps)

-- A path that the validator accepts is returned as it stands, does not start at the root, has no
-- backslash, and opened part by part from any directory it never leads above the directory it
-- started in.
pub validate_relative_path-stays :
    (value : String) {result : String}
    → validate_relative_path value ≡ ok result
    → (result ≡ value)
      × (starts_with (codes value) (codes "/") ≡ false)
      × (contains (codes value) (codes "\\") ≡ false)
      × (is_some (walk 0 (split b'/' (codes value))) ≡ true)
unfolding validate_relative_path is_unsafe_path
validate_relative_path-stays value h = (
  ground arith,
  ground arith,
  ground arith,
  walk-stays 0 (split b'/' (codes value)) (ground arith),
)
