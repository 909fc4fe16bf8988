-- ===== src/Clients/Jenkins/Quoting.antt =====
-- clients.py: `_groovy_single_quoted`, and how Groovy reads a literal in single quotes.
use jenkins_service.Prelude.{
  ℕ, String, ◌+++◌, ◌≡◌, refl, ap, ◌∙◌, Bool, true, false, not, ◌||◌, Option, none, some, List, [],
  ◌∷◌, ◌++◌, codes, codes-append, nat_eq, all, if◌then◌else◌, Bool-cases, inl, inr, arith,
}
use text.Mathlib.TextLemmas.{nil-append, cons-append, append_assoc as text_assoc}
use Prim.Native.Char.{code}

-- `s.replace(a, b)` of one character by a text
unfoldable pub replace_char : ℕ → String → String → String
replace_char a b String.[] = String.[]
replace_char a b (String.◌∷◌ c s) =
    if nat_eq (code c) a then b +++ replace_char a b s else String.◌∷◌ c (replace_char a b s)

unfoldable pub groovy_single_quoted : String → String
unfolding replace_char
groovy_single_quoted value = replace_char b'\'' "\\'" (replace_char b'\\' "\\\\" value)

-- `some c` in front of the text that is read
abbrev pub read_char : ℕ → Option (List ℕ × List ℕ) → Option (List ℕ × List ℕ)
read_char c none = none
read_char c (some (s, rest)) = some (c ∷ s, rest)

-- Groovy's reading of a literal behind its opening quote, of the escapes `\\` and `\'`: the text
-- and what follows the closing quote. It is true behind a backslash. A line break ends no literal.
unfoldable pub read_literal : Bool → List ℕ → Option (List ℕ × List ℕ)
read_literal escaped [] = none
read_literal false (c ∷ s) =
    if nat_eq c b'\''
    then some ([], s)
    else if nat_eq c b'\n'
    then none
    else if nat_eq c b'\\'
    then read_literal true s
    else read_char c (read_literal false s)
read_literal true (c ∷ s) =
    if nat_eq c b'\'' || nat_eq c b'\\' then read_char c (read_literal false s) else none

abbrev pub has_no_break : String → Bool
has_no_break s = all (λ c. not (nat_eq c b'\n')) (codes s)

-- the escape of one character
abbrev quoted : ℕ → List ℕ
quoted c =
    if nat_eq c b'\\'
    then b'\\' ∷ b'\\' ∷ []
    else if nat_eq c b'\''
    then b'\\' ∷ b'\'' ∷ []
    else c ∷ []

abbrev quoted_all : List ℕ → List ℕ
quoted_all [] = []
quoted_all (c ∷ s) = quoted c ++ quoted_all s

replace_char-append :
    (a : ℕ) (b s t : String)
    → replace_char a b (s +++ t) ≡ replace_char a b s +++ replace_char a b t
unfolding replace_char
replace_char-append a b String.[] t = simp nil-append
replace_char-append a b (String.◌∷◌ c s) t = elim (Bool-cases (nat_eq (code c) a)) [
  | inl same ↦ simp (cons-append, same, replace_char-append a b s t, text_assoc)
  | inr other ↦ simp (cons-append, other, replace_char-append a b s t)
]

groovy_single_quoted-quoted_all :
    (s : String) → codes (groovy_single_quoted s) ≡ quoted_all (codes s)
unfolding groovy_single_quoted replace_char
groovy_single_quoted-quoted_all String.[] = refl
groovy_single_quoted-quoted_all (String.◌∷◌ c s) =
    let again = groovy_single_quoted-quoted_all s in
    elim (Bool-cases (nat_eq (code c) b'\\')) [
      | inl back ↦ rw back (
          ap codes (replace_char-append b'\'' "\\'" "\\\\" (replace_char b'\\' "\\\\" s))
          ∙ (codes-append "\\\\" (groovy_single_quoted s) ∙ ap (λ x. 92 ∷ 92 ∷ x) again))
      | inr other ↦ elim (Bool-cases (nat_eq (code c) b'\'')) [
        | inl quote ↦
            rw (other, quote)
              (codes-append "\\'" (groovy_single_quoted s) ∙ ap (λ x. 92 ∷ 39 ∷ x) again)
        | inr plain ↦ rw (other, plain) (ap (λ x. code c ∷ x) again)
      ]
    ]

read_quoted :
    (s rest : List ℕ)
    → all (λ c. not (nat_eq c b'\n')) s ≡ true
    → read_literal false (quoted_all s ++ b'\'' ∷ rest) ≡ some (s, rest)
unfolding read_literal
read_quoted [] rest h = refl
read_quoted (c ∷ s) rest h = ground (arith, h, read_quoted s rest)

-- A text without line breaks, escaped and put between single quotes, is read back by Groovy as it
-- was, and the reading ends at the closing quote.
pub groovy_single_quoted-read_literal :
    (value : String) (rest : List ℕ)
    → has_no_break value ≡ true
    → read_literal false (codes (groovy_single_quoted value) ++ b'\'' ∷ rest)
      ≡ some (codes value, rest)
groovy_single_quoted-read_literal value rest h =
    rw (groovy_single_quoted-quoted_all value) (read_quoted (codes value) rest h)
