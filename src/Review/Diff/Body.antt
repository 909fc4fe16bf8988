-- ===== src/Review/Diff/Body.antt =====
-- The parser on the body of a hunk, against a description of hunks: the lines of a body, in order,
-- and the positions that its added lines have on the right side.
use jenkins_service.Prelude.{
  ℕ, zero, suc, ◌+◌, ◌≡◌, sym, ap, ◌∙◌, true, ◌&&◌, some, List, [], ◌∷◌, ◌++◌, if◌then◌else◌,
  nat_eq, arith,
}
use mathlib.Core.List.{append-nil}
use jenkins_service.Exec.{Result, ok, err, diff_error}
use jenkins_service.Review.Diff.{
  Added, add_line, Parser, finish_hunk, parse_line, parse_lines, ◌>>=◌,
}

-- A line of a hunk with its text: on both sides, on the left, or on the right.
pub data Line : Type 0 where
  context deleted added : List ℕ → Line

abbrev pub print : Line → List ℕ
print (context text) = b' ' ∷ text
print (deleted text) = b'-' ∷ text
print (added text) = b'+' ∷ text

abbrev pub print_all : List Line → List (List ℕ)
print_all [] = []
print_all (line ∷ lines) = print line ∷ print_all lines

-- How many lines a body has on the left, and on the right.
abbrev pub old_count : List Line → ℕ
old_count [] = 0
old_count (context text ∷ lines) = suc (old_count lines)
old_count (deleted text ∷ lines) = suc (old_count lines)
old_count (added text ∷ lines) = old_count lines

abbrev pub new_count : List Line → ℕ
new_count [] = 0
new_count (context text ∷ lines) = suc (new_count lines)
new_count (deleted text ∷ lines) = new_count lines
new_count (added text ∷ lines) = suc (new_count lines)

-- The positions of the added lines, where the first line of the right side has number `n`.
abbrev pub positions : ℕ → List Line → List ℕ
positions n [] = []
positions n (context text ∷ lines) = positions (n + 1) lines
positions n (deleted text ∷ lines) = positions n lines
positions n (added text ∷ lines) = n ∷ positions (n + 1) lines

-- Those lines recorded for a path.
abbrev pub add_all : List ℕ → List ℕ → Added → Added
add_all path [] found = found
add_all path (n ∷ ns) found = add_all path ns (add_line path n found)

-- The parser inside a hunk of a file, with the counts that are still to come.
abbrev pub inside : List ℕ → ℕ → ℕ → ℕ → Added → Parser
inside path old new n found = record {
  added = found;
  current_path = some path;
  old_remaining = old;
  new_remaining = new;
  new_line = n;
  in_hunk = true;
}

parse_line-context :
    (path text : List ℕ) (old new n : ℕ) (found : Added)
    → parse_line (print (context text)) (inside path (suc old) (suc new) n found)
      ≡ ok (inside path old new (n + 1) found)
unfolding parse_line
parse_line-context path text old new n found = ground arith

parse_line-deleted :
    (path text : List ℕ) (old new n : ℕ) (found : Added)
    → parse_line (print (deleted text)) (inside path (suc old) new n found)
      ≡ ok (inside path old new n found)
unfolding parse_line
parse_line-deleted path text old new n found = ground arith

parse_line-added :
    (path text : List ℕ) (old new n : ℕ) (found : Added)
    → parse_line (print (added text)) (inside path old (suc new) n found)
      ≡ ok (inside path old new (n + 1) (add_line path n found))
unfolding parse_line
parse_line-added path text old new n found = ground arith

parse_lines-cons :
    (line : List ℕ) (lines : List (List ℕ)) (p : Parser) {q : Parser}
    → parse_line line p ≡ ok q
    → parse_lines (line ∷ lines) p ≡ parse_lines lines q
unfolding parse_lines
parse_lines-cons line lines p e = rw e

ap₃ :
    {A : Type 0} (f : ℕ → ℕ → ℕ → A) {a a' b b' c c' : ℕ}
    → a ≡ a'
    → b ≡ b'
    → c ≡ c'
    → f a b c ≡ f a' b' c'
ap₃ f p q r = λ i. f (p i) (q i) (r i)

-- A body that its header does not declare too short is read to its end, records exactly the
-- positions of its added lines for the file's path, and leaves the excess of the declared counts
-- to come. The lines behind it are read from there.
pub parse_lines-body :
    (path : List ℕ) (n : ℕ) (lines : List Line) (rest : List (List ℕ)) (found : Added)
    (old new a b : ℕ)
    → old ≡ old_count lines + a
    → new ≡ new_count lines + b
    → parse_lines (print_all lines ++ rest) (inside path old new n found)
      ≡ parse_lines rest
          (inside path a b (n + new_count lines) (add_all path (positions n lines) found))
parse_lines-body path n [] rest found old new a b p q =
    ap₃ (λ o w m. parse_lines rest (inside path o w m found)) (omega arith) (omega arith)
      (omega arith)
parse_lines-body path n (context text ∷ lines) rest found zero new a b p q = absurd (omega arith)
parse_lines-body path n (context text ∷ lines) rest found (suc old) zero a b p q =
    absurd (omega arith)
parse_lines-body path n (context text ∷ lines) rest found (suc old) (suc new) a b p q =
    parse_lines-cons _ _ _ (parse_line-context path text old new n found)
    ∙ parse_lines-body path (n + 1) lines rest found old new a b (omega arith) (omega arith)
    ∙ ap (λ m. parse_lines rest (inside path a b m (add_all path (positions (n + 1) lines) found)))
        (omega arith)
parse_lines-body path n (deleted text ∷ lines) rest found zero new a b p q = absurd (omega arith)
parse_lines-body path n (deleted text ∷ lines) rest found (suc old) new a b p q =
    parse_lines-cons _ _ _ (parse_line-deleted path text old new n found)
    ∙ parse_lines-body path n lines rest found old new a b (omega arith) (omega arith)
parse_lines-body path n (added text ∷ lines) rest found old zero a b p q = absurd (omega arith)
parse_lines-body path n (added text ∷ lines) rest found old (suc new) a b p q =
    parse_lines-cons _ _ _ (parse_line-added path text old new n found)
    ∙ parse_lines-body path (n + 1) lines rest (add_line path n found) old new a b (omega arith)
        (omega arith)
    ∙ ap
        (λ m.
          parse_lines rest
            (inside path a b m (add_all path (positions (n + 1) lines) (add_line path n found))))
        (omega arith)

-- The result of a parse that ends with the body of a hunk.
abbrev pub finished : Result Parser → Result Added
finished r = do p ← r; q ← finish_hunk p; ok q.added

-- A text that ends with a body is accepted exactly when the header declares as many lines as the
-- body has, on each side; it is refused when more are declared. What is recorded are the positions
-- of the added lines, counted from the start that the header gives.
pub finish_hunk-body :
    (path : List ℕ) (n : ℕ) (lines : List Line) (found : Added) (old new a b : ℕ)
    → old ≡ old_count lines + a
    → new ≡ new_count lines + b
    → finished (parse_lines (print_all lines) (inside path old new n found)) ≡ (
        if nat_eq old (old_count lines) && nat_eq new (new_count lines)
        then ok (add_all path (positions n lines) found)
        else err (diff_error "hunk body does not match its declared line counts"))
unfolding finish_hunk
finish_hunk-body path n lines found old new a b p q =
    ap (λ ls. finished (parse_lines ls (inside path old new n found)))
      (sym (append-nil (print_all lines)))
    ∙ ap finished (parse_lines-body path n lines [] found old new a b p q)
    ∙ unfold parse_lines in ground arith
