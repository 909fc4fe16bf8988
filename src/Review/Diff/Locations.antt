-- ===== src/Review/Diff/Locations.antt =====
-- What `validate_result` accepts.
use jenkins_service.Prelude.{
  ℕ, ◌≡◌, refl, ap, ◌∙◌, ◌⊎◌, inl, inr, ◌↔◌, true, false, Option, none, some, List, [], ◌∷◌, ◌++◌,
  All, any, codes, nat_eq, Bool-cases, arith,
}
use jenkins_service.Exec.{ok, err, diff_error}
use jenkins_service.Review.Finding.{ReviewFinding}
use jenkins_service.Review.Diff.{Added, lines_at, is_added, validate_result}

-- `n` stands in the list
pub record IsIn (n : ℕ) (lines : List ℕ) : Type 0 where
  pub front : List ℕ
  pub rest : List ℕ
  pub splits : lines ≡ front ++ n ∷ rest

-- The diff has the finding's path, and the finding's line is among the lines added there.
pub record IsOnAdded (added : Added) (finding : ReviewFinding) : Type 0 where
  pub lines : List ℕ
  pub has_path : lines_at (codes finding.path) added ≡ some lines
  pub has_line : IsIn finding.line lines

any-IsIn : (n : ℕ) (lines : List ℕ) → any (nat_eq n) lines ≡ true → IsIn n lines
any-IsIn n [] h = absurd (cc h)
any-IsIn n (m ∷ lines) h = elim (Bool-cases (nat_eq n m)) [
  | inl same ↦ record {
    front = [];
    rest = lines;
    splits = ap (λ k. k ∷ lines) (ground (arith, same));
  }
  | inr other ↦
      let tail = any-IsIn n lines (ground (arith, h, other)) in
      record { front = m ∷ tail.front; rest = tail.rest; splits = ap (λ l. m ∷ l) tail.splits }
]

split-any : (n : ℕ) (front rest : List ℕ) → any (nat_eq n) (front ++ n ∷ rest) ≡ true
split-any n [] rest = ground arith
split-any n (m ∷ front) rest = ground (arith, split-any n front rest)

is_added-IsOnAdded :
    (finding : ReviewFinding) (added : Added)
    → is_added finding added ≡ true
    → IsOnAdded added finding
unfolding is_added
is_added-IsOnAdded finding added = at (lines_at (codes finding.path) added) refl
  where
    at :
        (o : Option (List ℕ))
        → lines_at (codes finding.path) added ≡ o
        → (elim o [ none ↦ false | some lines ↦ any (nat_eq finding.line) lines ]) ≡ true
        → IsOnAdded added finding
    at none e h = absurd (cc h)
    at (some lines) e h = record {
      lines = lines;
      has_path = e;
      has_line = any-IsIn finding.line lines h;
    }

IsOnAdded-is_added :
    (finding : ReviewFinding) (added : Added)
    → IsOnAdded added finding
    → is_added finding added ≡ true
unfolding is_added
IsOnAdded-is_added finding added on =
    ap (λ o. elim o [ none ↦ false | some lines ↦ any (nat_eq finding.line) lines ]) on.has_path
    ∙ (ap (any (nat_eq finding.line)) on.has_line.splits
        ∙ split-any finding.line on.has_line.front on.has_line.rest)

-- A review passes exactly when every finding names a line that the diff adds at the finding's path;
-- otherwise it is refused, and by nothing else than the error for a wrong location.
pub validate_result_iff :
    (findings : List ReviewFinding) (added : Added)
    → ((validate_result findings added ≡ ok tt) ↔ All (IsOnAdded added) findings)
      × ((validate_result findings added ≡ ok tt)
          ⊎ (validate_result findings added
              ≡ err (diff_error "finding location is not an added line")))
unfolding validate_result
validate_result_iff [] added = ((λ e. tt, λ on. refl), inl refl)
validate_result_iff (finding ∷ findings) added =
    let rest = validate_result_iff findings added in
    elim (Bool-cases (is_added finding added)) [
      | inl good ↦
          rw good (
            (λ e. (is_added-IsOnAdded finding added good, rest.0.0 e), λ on. rest.0.1 on.1),
            rest.1,
          )
      | inr bad ↦ rw bad (
        (λ e. absurd (cc e), λ on. absurd (cc (bad, IsOnAdded-is_added finding added on.0))),
        inr refl,
      )
    ]
