-- ===== src/Model/Branch.antt =====
-- models.py: `validate_branch_name`, for the text of a Git branch.
use jenkins_service.Prelude.{
  ℕ, ◌≤◌, String, ◌≡◌, refl, Bool, true, false, not, ◌&&◌, ◌||◌, List, [], ◌∷◌, arith, leb, nat_eq,
  if◌then◌else◌, any, all, length, codes, between, text_eq, starts_with, contains, ends_with,
  onto_head, split,
}
use jenkins_service.Exec.{value_error, Result, ok, err}

abbrev pub is_alnum : ℕ → Bool
is_alnum c = between b'A' b'Z' c || between b'a' b'z' c || between b'0' b'9' c

-- `[A-Za-z0-9._/-]`
unfoldable pub is_branch_char : ℕ → Bool
is_branch_char c = is_alnum c || nat_eq c b'.' || nat_eq c b'_' || nat_eq c b'/' || nat_eq c b'-'

-- `[A-Za-z0-9][A-Za-z0-9._/-]{0,254}`, matched whole
unfoldable pub matches_branch : List ℕ → Bool
matches_branch [] = false
matches_branch (c ∷ s) = is_alnum c && all is_branch_char s && leb (length s) 254

-- the tests below the pattern
unfoldable pub is_unsafe_branch : List ℕ → Bool
is_unsafe_branch s =
    text_eq s (codes "HEAD")
    || contains s (codes "..")
    || contains s (codes "@{")
    || contains s (codes "//")
    || ends_with s (codes "/")
    || ends_with s (codes ".")
    || ends_with s (codes ".lock")
    || any (λ part. starts_with part (codes ".")) (split b'/' s)

unfoldable pub validate_branch_name : String → Result String
validate_branch_name value =
    if matches_branch (codes value)
    then (if is_unsafe_branch (codes value)
        then err (value_error "default_branch is not a safe Git branch name")
        else ok value)
    else err (value_error "default_branch contains unsupported characters")

-- A component of a path that names one directory entry: not empty, and not hidden, `.` or `..`.
abbrev pub is_plain_part : List ℕ → Bool
is_plain_part [] = false
is_plain_part (c ∷ s) = not (nat_eq c b'.')

abbrev is_filled : List ℕ → Bool
is_filled [] = false
is_filled (c ∷ s) = true

abbrev head_is_filled : List (List ℕ) → Bool
head_is_filled [] = false
head_is_filled (p ∷ ps) = is_filled p

abbrev tail_is_filled : List (List ℕ) → Bool
tail_is_filled [] = true
tail_is_filled (p ∷ ps) = all is_filled ps

onto_head-filled :
    (c : ℕ) (ps : List (List ℕ))
    → (head_is_filled (onto_head c ps) ≡ true)
      × (tail_is_filled (onto_head c ps) ≡ tail_is_filled ps)
onto_head-filled c [] = ground arith
onto_head-filled c (p ∷ ps) = ground arith

filled_of_parts :
    (ps : List (List ℕ))
    → head_is_filled ps ≡ true
    → tail_is_filled ps ≡ true
    → all is_filled ps ≡ true
filled_of_parts [] h t = refl
filled_of_parts (p ∷ ps) h t = ground arith

-- The first part is filled where the text does not begin with the separator.
head-filled :
    (s : List ℕ)
    → is_filled s ≡ true
    → starts_with s (codes "/") ≡ false
    → head_is_filled (split b'/' s) ≡ true
unfolding split
head-filled [] f a = cc
head-filled (c ∷ s) f a = ground (arith, onto_head-filled c (split b'/' s))

tail_step :
    (c : ℕ) (s : List ℕ)
    → tail_is_filled (split b'/' (c ∷ s))
      ≡ (if nat_eq c b'/' then all is_filled (split b'/' s) else tail_is_filled (split b'/' s))
unfolding split
tail_step c s = ground (arith, onto_head-filled c (split b'/' s))

-- A later part is filled where no two separators meet and none ends the text.
tail-filled :
    (s : List ℕ)
    → contains s (codes "//") ≡ false
    → ends_with s (codes "/") ≡ false
    → tail_is_filled (split b'/' s) ≡ true
tail-filled [] b e = unfold split in refl
tail-filled (c ∷ []) b e = unfold split in ground arith
tail-filled (c ∷ d ∷ s) b e = ground (
  arith,
  tail_step c (d ∷ s),
  tail-filled (d ∷ s),
  head-filled (d ∷ s),
  filled_of_parts (split b'/' (d ∷ s)),
)

plain_of_filled :
    (ps : List (List ℕ))
    → all is_filled ps ≡ true
    → any (λ part. starts_with part (codes ".")) ps ≡ false
    → all is_plain_part ps ≡ true
plain_of_filled [] f h = refl
plain_of_filled ([] ∷ ps) f h = cc
plain_of_filled ((c ∷ p) ∷ ps) f h = ground (arith, plain_of_filled ps)

alnum_not_slash : (c : ℕ) → is_alnum c ≡ true → nat_eq c b'/' ≡ false
alnum_not_slash c h = ground arith

alnum_branch_char : (c : ℕ) → is_alnum c ≡ true → is_branch_char c ≡ true
unfolding is_branch_char
alnum_branch_char c h = ground arith

parts-plain :
    (s : List ℕ)
    → matches_branch s ≡ true
    → is_unsafe_branch s ≡ false
    → all is_plain_part (split b'/' s) ≡ true
unfolding matches_branch is_unsafe_branch
parts-plain [] m u = cc
parts-plain (c ∷ s) m u =
    plain_of_filled (split b'/' (c ∷ s))
      (filled_of_parts (split b'/' (c ∷ s))
        (head-filled (c ∷ s) refl (ground (arith, alnum_not_slash c)))
        (tail-filled (c ∷ s) (ground arith) (ground arith)))
      (ground arith)

branch_shape :
    (s : List ℕ)
    → matches_branch s ≡ true
    → (1 ≤ length s) × (length s ≤ 255) × (all is_branch_char s ≡ true)
unfolding matches_branch
branch_shape [] m = cc
branch_shape (c ∷ s) m = ground (arith, alnum_branch_char c)

-- An accepted branch name is returned as it stands, is 1 to 255 characters of the accepted
-- alphabet, and each part between slashes is a plain directory entry: not empty and without a
-- leading dot, so no part is `.` or `..`.
pub validate_branch_name-plain :
    (value : String) {result : String}
    → validate_branch_name value ≡ ok result
    → (result ≡ value)
      × (1 ≤ length (codes value))
      × (length (codes value) ≤ 255)
      × (all is_branch_char (codes value) ≡ true)
      × (all is_plain_part (split b'/' (codes value)) ≡ true)
unfolding validate_branch_name
validate_branch_name-plain value h =
    ground (arith, branch_shape (codes value), parts-plain (codes value))
