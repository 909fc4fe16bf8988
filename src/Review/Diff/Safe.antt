-- ===== src/Review/Diff/Safe.antt =====
-- Every path that the parser records is safe to name in a comment.
use jenkins_service.Prelude.{
  ℕ, ◌≡◌, refl, Bool, true, false, not, ◌&&◌, ◌||◌, Option, none, some, List, [], ◌∷◌,
  if◌then◌else◌, codes, starts_with, All, drop, arith, text_eq_iff,
}
use jenkins_service.Exec.{Result, ok, err}
use jenkins_service.Review.Lines.{splitlines}
use jenkins_service.Review.Diff.{
  Added, lines_at, set_default, add_line, is_unsafe_right, right_side_path, Parser, start,
  finish_hunk, body_line, open_hunk, open_file, parse_line, parse_lines, parse_unified_diff, ◌>>=◌,
}

abbrev IsSafeEntry : List ℕ × List ℕ → Type 0
IsSafeEntry (path, lines) = is_unsafe_right path ≡ false

abbrev IsSafe : Added → Type 0
IsSafe added = All IsSafeEntry added

set_default-IsSafe :
    (path : List ℕ) (added : Added)
    → is_unsafe_right path ≡ false
    → IsSafe added
    → IsSafe (set_default path added)
unfolding set_default
set_default-IsSafe path [] s h = (s, tt)
set_default-IsSafe path ((p, lines) ∷ added) s h =
    ground (arith, set_default-IsSafe path added s h.1)

add_line-IsSafe :
    (path : List ℕ) (n : ℕ) (added : Added) → IsSafe added → IsSafe (add_line path n added)
unfolding add_line
add_line-IsSafe path n [] h = tt
add_line-IsSafe path n ((p, lines) ∷ added) h = ground (arith, add_line-IsSafe path n added h.1)

right_side_path-safe :
    (header : List ℕ) {path : List ℕ}
    → right_side_path header ≡ ok path
    → is_unsafe_right path ≡ false
unfolding right_side_path
right_side_path-safe header {path} h = ground arith

-- What an action on the parser leaves is safe, if it returns.
abbrev LeavesSafe : Result Parser → Type 0
LeavesSafe (ok p) = IsSafe p.added
LeavesSafe (err e) = Unit

finish_hunk-LeavesSafe : (p : Parser) → IsSafe p.added → LeavesSafe (finish_hunk p)
unfolding finish_hunk
finish_hunk-LeavesSafe p h = ground arith

body_line-LeavesSafe : (line : List ℕ) (p : Parser) → IsSafe p.added → LeavesSafe (body_line line p)
unfolding body_line
body_line-LeavesSafe [] p h = tt
body_line-LeavesSafe (c ∷ s) p h = go p.current_path refl
  where
    go : (o : Option (List ℕ)) → p.current_path ≡ o → LeavesSafe (body_line (c ∷ s) p)
    go none e = rw e (ground arith)
    go (some path) e = rw e (ground (arith, add_line-IsSafe path p.new_line p.added h))

open_hunk-added : (line : List ℕ) (p : Parser) → IsSafe p.added → LeavesSafe (open_hunk line p)
unfolding open_hunk
open_hunk-added line p h = ground arith

open_file-LeavesSafe : (line : List ℕ) (p : Parser) → IsSafe p.added → LeavesSafe (open_file line p)
unfolding open_file
open_file-LeavesSafe line p h = go (right_side_path (drop 4 line)) refl
  where
    go : (r : Result (List ℕ)) → right_side_path (drop 4 line) ≡ r → LeavesSafe (open_file line p)
    go (err e) same = rw same tt
    go (ok path) same =
        rw same (set_default-IsSafe path p.added (right_side_path-safe (drop 4 line) same) h)

-- An action that keeps safety may follow one that leaves it.
bind-LeavesSafe :
    (r : Result Parser) (f : Parser → Result Parser)
    → LeavesSafe r
    → ((p : Parser) → IsSafe p.added → LeavesSafe (f p))
    → LeavesSafe (r >>= f)
bind-LeavesSafe (ok p) f h k = k p h
bind-LeavesSafe (err e) f h k = tt

if_LeavesSafe :
    (b : Bool) (r t : Result Parser) → LeavesSafe r → LeavesSafe t → LeavesSafe (if b then r else t)
if_LeavesSafe true r t h k = h
if_LeavesSafe false r t h k = k

parse_line-LeavesSafe :
    (line : List ℕ) (p : Parser) → IsSafe p.added → LeavesSafe (parse_line line p)
parse_line-LeavesSafe line p h =
    unfold parse_line in
    (if_LeavesSafe (starts_with line (codes "diff --git ")) _ _
      (bind-LeavesSafe (finish_hunk p) _ (finish_hunk-LeavesSafe p h) (λ q k. k))
      (if_LeavesSafe (not p.in_hunk && starts_with line (codes "+++ ")) _ _
        (open_file-LeavesSafe line p h)
        (if_LeavesSafe (starts_with line (codes "@@ ")) _ _
          (bind-LeavesSafe (finish_hunk p) _ (finish_hunk-LeavesSafe p h) (open_hunk-added line))
          (if_LeavesSafe (not p.in_hunk || starts_with line (codes "\\ No newline at end of file"))
            _ _ h (body_line-LeavesSafe line p h)))))

parse_lines-LeavesSafe :
    (lines : List (List ℕ)) (p : Parser) → IsSafe p.added → LeavesSafe (parse_lines lines p)
unfolding parse_lines
parse_lines-LeavesSafe [] p h = h
parse_lines-LeavesSafe (line ∷ lines) p h =
    bind-LeavesSafe (parse_line line p) (parse_lines lines) (parse_line-LeavesSafe line p h)
      (parse_lines-LeavesSafe lines)

lines_at-safe :
    (path : List ℕ) (added : Added) {lines : List ℕ}
    → IsSafe added
    → lines_at path added ≡ some lines
    → is_unsafe_right path ≡ false
unfolding lines_at
lines_at-safe path [] h e = cc
lines_at-safe path ((p, ls) ∷ added) {lines} h e =
    ground (arith, text_eq_iff p path, lines_at-safe path added {lines = lines} h.1)

parsed-IsSafe :
    (r : Result Parser) {added : Added}
    → LeavesSafe r
    → (do p ← r; q ← finish_hunk p; ok q.added) ≡ ok added
    → IsSafe added
unfolding finish_hunk
parsed-IsSafe (err e) h same = cc
parsed-IsSafe (ok p) {added} h same = ground arith

-- Whatever text is parsed, each path for which the result holds lines is safe on the right side:
-- not empty, not absolute, without a NUL, and with no empty, `.` or `..` part.
pub parse_unified_diff-safe :
    (diff : List ℕ) {added : Added} (path : List ℕ) {lines : List ℕ}
    → parse_unified_diff diff ≡ ok added
    → lines_at path added ≡ some lines
    → is_unsafe_right path ≡ false
unfolding parse_unified_diff
parse_unified_diff-safe diff {added} path same found =
    lines_at-safe path added
      (parsed-IsSafe (parse_lines (splitlines diff) start)
        (parse_lines-LeavesSafe (splitlines diff) start tt) same)
      found
