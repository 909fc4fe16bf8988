-- ===== src/Review/Lines.antt =====
-- Texts as the diff parser of review.py reads them: lines, numbers and hunk headers. A digit is an
-- ASCII digit.
use jenkins_service.Prelude.{
  ℕ, ◌+◌, ◌-◌, ◌*◌, ◌≡◌, refl, Bool, true, false, ◌&&◌, ◌||◌, Option, none, some, List, [], ◌∷◌,
  if◌then◌else◌, nat_eq, between, codes, onto_head,
}

-- the characters at which `str.splitlines` breaks
unfoldable pub is_break : ℕ → Bool
is_break c =
    between 0x0a 0x0d c
    || between 0x1c 0x1e c
    || nat_eq c 0x85
    || nat_eq c 0x2028
    || nat_eq c 0x2029

-- `after_cr` holds behind a carriage return, whose line feed belongs to it
unfoldable pub lines_from : Bool → List ℕ → List (List ℕ)
unfolding is_break
lines_from after_cr [] = []
lines_from after_cr (c ∷ s) =
    let plain = lines_from false s in
    let broken = lines_from (nat_eq c 0x0d) s in
    if after_cr && nat_eq c 0x0a
    then plain
    else if is_break c
    then [] ∷ broken
    else onto_head c plain

-- `str.splitlines`
unfoldable pub splitlines : List ℕ → List (List ℕ)
unfolding lines_from
splitlines s = lines_from false s

abbrev pub is_digit : ℕ → Bool
is_digit c = between b'0' b'9' c

-- the rest of a run of digits, read after `n`
unfoldable pub digits_from : ℕ → List ℕ → ℕ × List ℕ
digits_from n [] = (n, [])
digits_from n (c ∷ s) =
    let more = digits_from (n * 10 + (c - b'0')) s in if is_digit c then more else (n, c ∷ s)

-- `\d+`
unfoldable pub number : List ℕ → Option (ℕ × List ℕ)
unfolding digits_from
number [] = none
number (c ∷ s) = if is_digit c then some (digits_from (c - b'0') s) else none

-- a literal piece of the pattern
unfoldable pub literal : List ℕ → List ℕ → Option (List ℕ)
literal [] s = some s
literal (p ∷ ps) [] = none
literal (p ∷ ps) (c ∷ s) = let rest = literal ps s in if nat_eq p c then rest else none

-- `(?:,(\d+))?` with `or "1"` for the count that is left out
unfoldable pub count : List ℕ → Option (ℕ × List ℕ)
unfolding number
count [] = some (1, [])
count (c ∷ s) = if nat_eq c b',' then number s else some (1, c ∷ s)

infixl 5 ◌>>=◌
abbrev pub ◌>>=◌ : {A B : Type 0} → Option A → (A → Option B) → Option B
none >>= f = none
some a >>= f = f a

-- the counts and the start of a hunk
pub record Header : Type 0 where
  pub old_start : ℕ
  pub old_count : ℕ
  pub new_start : ℕ
  pub new_count : ℕ

-- `(?: .*)?$`
abbrev pub is_section : List ℕ → Bool
is_section [] = true
is_section (c ∷ s) = nat_eq c b' '

-- `_HUNK_HEADER.fullmatch(line)` and the numbers of its groups
unfoldable pub hunk_header : List ℕ → Option Header
unfolding literal number count
hunk_header line = do
  s0 ← literal (codes "@@ -") line
  old ← number s0
  old_n ← count old.1
  s1 ← literal (codes " +") old_n.1
  new ← number s1
  new_n ← count new.1
  s2 ← literal (codes " @@") new_n.1
  if is_section s2
      then some (record {
        old_start = old.0;
        old_count = old_n.0;
        new_start = new.0;
        new_count = new_n.0;
      })
      else none

header_example :
    hunk_header (codes "@@ -10,2 +12 @@ def f():")
    ≡ some (record { old_start = 10; old_count = 2; new_start = 12; new_count = 1 })
unfolding hunk_header
header_example = refl

splitlines_example : splitlines (codes "a\r\nb\n") ≡ codes "a" ∷ codes "b" ∷ []
unfolding splitlines
splitlines_example = refl
