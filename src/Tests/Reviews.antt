-- ===== src/Tests/Reviews.antt =====
-- review.py.
use jenkins_service.Prelude.{◌↔◌, ◌⊎◌, All, split}
use jenkins_service.Prelude.{
  ℕ, ◌≡◌, refl, false, ◌&&◌, some, List, [], ◌∷◌, arith, codes, nat_eq, if◌then◌else◌,
}
use jenkins_service.Exec.{ok, err, diff_error}
use jenkins_service.Review.Finding.{Severity, ReviewFinding}
use jenkins_service.Review.Lines.{splitlines, hunk_header}
use jenkins_service.Review.Diff.{
  Added, lines_at, is_unsafe_right, validate_result, parse_line, parse_lines, parse_unified_diff,
  right_side_path, set_default, add_line, finish_hunk,
}
use jenkins_service.Review.Diff.Safe.{parse_unified_diff-safe}
use jenkins_service.Review.Diff.Body.{
  Line, context, deleted, added, print_all, old_count, new_count, positions, add_all, inside,
  finished, finish_hunk-body,
}
use jenkins_service.Review.Diff.Locations.{IsOnAdded, validate_result_iff}

abbrev diff : List ℕ
diff = codes "diff --git a/x.py b/x.py\n--- a/x.py\n+++ b/x.py\n@@ -1,2 +1,2 @@\n a\n-b\n+c\n"

abbrev parsed : Added
parsed = (codes "x.py", 2 ∷ []) ∷ []

parse_diff : parse_unified_diff diff ≡ ok parsed
unfolding parse_unified_diff splitlines parse_line hunk_header finish_hunk right_side_path
    is_unsafe_right split add_line set_default
parse_diff = refl

parse_unified_diff-safe_example : is_unsafe_right (codes "x.py") ≡ false
parse_unified_diff-safe_example = parse_unified_diff-safe diff (codes "x.py") parse_diff at_x
  where
    at_x : lines_at (codes "x.py") parsed ≡ some (2 ∷ [])
    at_x = unfold lines_at in refl

abbrev body : List Line
body = context (codes "a") ∷ deleted (codes "b") ∷ added (codes "c") ∷ []

finish_hunk-body_example :
    finished (parse_lines (print_all body) (inside (codes "x.py") 2 3 1 parsed)) ≡ (
      if nat_eq 2 (old_count body) && nat_eq 3 (new_count body)
      then ok (add_all (codes "x.py") (positions 1 body) parsed)
      else err (diff_error "hunk body does not match its declared line counts"))
finish_hunk-body_example =
    finish_hunk-body (codes "x.py") 1 body parsed 2 3 0 1 (omega arith) (omega arith)

abbrev finding : ReviewFinding
finding = record { severity = Severity.critical; title = "t"; body = "b"; path = "x.py"; line = 2 }

validate_result_iff_example :
    ((validate_result (finding ∷ []) parsed ≡ ok tt) ↔ All (IsOnAdded parsed) (finding ∷ []))
    × ((validate_result (finding ∷ []) parsed ≡ ok tt)
        ⊎ (validate_result (finding ∷ []) parsed
            ≡ err (diff_error "finding location is not an added line")))
validate_result_iff_example = validate_result_iff (finding ∷ []) parsed
