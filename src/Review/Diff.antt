-- ===== src/Review/Diff.antt =====
-- review.py: `parse_unified_diff`, line by line, and `ParsedDiff.validate_result`.
pub mod Safe
pub mod Body
pub mod Locations
use jenkins_service.Prelude.{
  ℕ, zero, suc, ◌+◌, ◌-◌, String, Bool, true, false, not, ◌&&◌, ◌||◌, Option, none, some, List, [],
  ◌∷◌, if◌then◌else◌, nat_eq, leb, codes, text_eq, starts_with, split, any, drop, is_some,
}
use jenkins_service.Exec.{Error, diff_error, Result, ok, err}
use jenkins_service.Review.Finding.{ReviewFinding, ReviewResult}
use jenkins_service.Review.Lines.{splitlines, Header, hunk_header}

-- The added lines of each path, as the dict of sets that the parser fills.
abbrev pub Added : Type 0
Added = List (List ℕ × List ℕ)

unfoldable pub lines_at : List ℕ → Added → Option (List ℕ)
lines_at path [] = none
lines_at path ((p, lines) ∷ added) = if text_eq p path then some lines else lines_at path added

-- `added.setdefault(path, set())`
unfoldable pub set_default : List ℕ → Added → Added
set_default path [] = (path, []) ∷ []
set_default path ((p, lines) ∷ added) =
    if text_eq p path then (p, lines) ∷ added else (p, lines) ∷ set_default path added

-- `added[path].add(n)`; the path is known wherever the code does this
unfoldable pub add_line : List ℕ → ℕ → Added → Added
add_line path n [] = []
add_line path n ((p, lines) ∷ added) =
    if text_eq p path then (p, n ∷ lines) ∷ added else (p, lines) ∷ add_line path n added

-- `header.split("\t", 1)[0]`
unfoldable pub before_tab : List ℕ → List ℕ
before_tab [] = []
before_tab (c ∷ s) = if nat_eq c 9 then [] else c ∷ before_tab s

-- a part that a right-side path may not have
abbrev pub is_unsafe_part : List ℕ → Bool
is_unsafe_part part = text_eq part [] || text_eq part (codes ".") || text_eq part (codes "..")

unfoldable pub is_unsafe_right : List ℕ → Bool
is_unsafe_right path =
    text_eq path []
    || starts_with path (codes "/")
    || any (λ c. nat_eq c 0) path
    || any is_unsafe_part (split b'/' path)

unfoldable pub right_side_path : List ℕ → Result (List ℕ)
unfolding before_tab
right_side_path header =
    let raw = before_tab header in
    if text_eq raw (codes "/dev/null")
    then err (diff_error "deleted files cannot receive right-side comments")
    else if starts_with raw (codes "\"")
    then err (diff_error "quoted diff paths are not supported")
    else if not (starts_with raw (codes "b/"))
    then err (diff_error "right-side diff path must start with b/")
    else if is_unsafe_right (drop 2 raw)
    then err (diff_error "unsafe right-side diff path")
    else ok (drop 2 raw)

-- the variables of the loop; a count that would fall below 0 ends the parse at once
pub record Parser : Type 0 where
  pub added : Added
  pub current_path : Option (List ℕ)
  pub old_remaining : ℕ
  pub new_remaining : ℕ
  pub new_line : ℕ
  pub in_hunk : Bool

abbrev pub start : Parser
start = record {
  added = [];
  current_path = none;
  old_remaining = 0;
  new_remaining = 0;
  new_line = 0;
  in_hunk = false;
}

infixl 5 ◌>>=◌
abbrev pub ◌>>=◌ : {A B : Type 0} → Result A → (A → Result B) → Result B
ok a >>= f = f a
err e >>= f = err e

unfoldable pub finish_hunk : Parser → Result Parser
finish_hunk p =
    if p.in_hunk && not (nat_eq p.old_remaining 0 && nat_eq p.new_remaining 0)
    then err (diff_error "hunk body does not match its declared line counts")
    else ok (record p { in_hunk = false })

abbrev pub more_than_declared : {A : Type 0} → Result A
more_than_declared = err (diff_error "hunk contains more lines than declared")

-- a line that begins with a space
unfoldable pub context_line : Parser → Result Parser
context_line p =
    if nat_eq p.old_remaining 0 || nat_eq p.new_remaining 0
    then more_than_declared
    else ok (record p {
      old_remaining = p.old_remaining - 1;
      new_remaining = p.new_remaining - 1;
      new_line = p.new_line + 1;
    })

-- a line that begins with `-`
unfoldable pub deleted_line : Parser → Result Parser
deleted_line p =
    if nat_eq p.old_remaining 0
    then more_than_declared
    else ok (record p { old_remaining = p.old_remaining - 1 })

-- a line that begins with `+`
unfoldable pub added_line : Parser → Result Parser
added_line p = elim p.current_path [
  | none ↦ err (diff_error "added line has no right-side path")
  | some path ↦
      if nat_eq p.new_remaining 0
      then err (diff_error "hunk contains too many right-side lines")
      else ok (record p {
        added = add_line path p.new_line p.added;
        new_remaining = p.new_remaining - 1;
        new_line = p.new_line + 1;
      })
]

-- the marker of a line of a hunk's body
unfoldable pub body_line : List ℕ → Parser → Result Parser
unfolding context_line deleted_line added_line
body_line [] p = err (diff_error "malformed empty hunk line")
body_line (marker ∷ text) p =
    if nat_eq marker b' '
    then context_line p
    else if nat_eq marker b'-'
    then deleted_line p
    else if nat_eq marker b'+'
    then added_line p
    else err (diff_error "malformed unified diff hunk body")

-- `@@ `: the header of a hunk, once the hunk before it is finished
unfoldable pub open_hunk : List ℕ → Parser → Result Parser
open_hunk line p = elim p.current_path [
  | none ↦ err (diff_error "hunk appeared before a right-side file path")
  | some path ↦ elim (hunk_header line) [
    | none ↦ err (diff_error "malformed unified diff hunk header")
    | some h ↦ ok (record p {
      old_remaining = h.old_count;
      new_remaining = h.new_count;
      new_line = h.new_start;
      in_hunk = true;
    })
  ]
]

-- `+++ `: the right-side path of a file
unfoldable pub open_file : List ℕ → Parser → Result Parser
open_file line p = do
  path ← right_side_path (drop 4 line)
  ok (record p { current_path = some path; added = set_default path p.added })

-- one turn of the loop
unfoldable pub parse_line : List ℕ → Parser → Result Parser
unfolding finish_hunk open_hunk open_file body_line
parse_line line p =
    if starts_with line (codes "diff --git ")
    then (do q ← finish_hunk p; ok (record q { current_path = none }))
    else if not p.in_hunk && starts_with line (codes "+++ ")
    then open_file line p
    else if starts_with line (codes "@@ ")
    then (do q ← finish_hunk p; open_hunk line q)
    else if not p.in_hunk || starts_with line (codes "\\ No newline at end of file")
    then ok p
    else body_line line p

unfoldable pub parse_lines : List (List ℕ) → Parser → Result Parser
parse_lines [] p = ok p
parse_lines (line ∷ lines) p = do q ← parse_line line p; parse_lines lines q

unfoldable pub parse_unified_diff : List ℕ → Result Added
unfolding parse_lines
parse_unified_diff diff = do p ← parse_lines (splitlines diff) start; q ← finish_hunk p; ok q.added

-- `lines is None or finding.line not in lines`, denied
unfoldable pub is_added : ReviewFinding → Added → Bool
is_added finding added = elim (lines_at (codes finding.path) added) [
  | none ↦ false
  | some lines ↦ any (nat_eq finding.line) lines
]

unfoldable pub validate_result : List ReviewFinding → Added → Result (Unit {0})
validate_result [] added = ok tt
validate_result (finding ∷ findings) added =
    let rest = validate_result findings added in
    if is_added finding added
    then rest
    else err (diff_error "finding location is not an added line")
