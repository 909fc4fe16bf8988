-- ===== src/Prelude/Text.antt =====
-- Texts. Identifiers are native strings, compared whole; what the code walks is a list of code points.
use Prim.Native.Nat.{ℕ, zero, suc, ◌+◌, ◌-◌}
use Prim.Native.Char.{code}
use Prim.Native.String.{String, ◌++◌ as ◌+++◌}
use text.Mathlib.TextLemmas.{nil-append, cons-append}
use mathlib.Core.Path.{◌≡◌, refl, ap}
use mathlib.Core.Logic.{◌↔◌}
use mathlib.Core.Bool.{Bool, true, false, ◌&&◌, ◌||◌}
use mathlib.Core.List.{List, [], ◌∷◌, ◌++◌, map}
use native.Mathlib.Omega.{arith}
use jenkins_service.Prelude.Tests.{leb, nat_eq, if◌then◌else◌}

abbrev pub codes : String → List ℕ
codes String.[] = []
codes (String.◌∷◌ c s) = code c ∷ codes s

abbrev pub between : ℕ → ℕ → ℕ → Bool
between lo hi c = leb lo c && leb c hi

-- `str.lower` on ASCII and the Kelvin sign, the one other character that it takes to ASCII alone
unfoldable pub to_lower : ℕ → ℕ
to_lower c = if between b'A' b'Z' c then c + 32 else if nat_eq c 8490 then b'k' else c

-- `str.upper` on ASCII
unfoldable pub to_upper : ℕ → ℕ
to_upper c = if between b'a' b'z' c then c - 32 else c

abbrev pub text_eq : List ℕ → List ℕ → Bool
text_eq [] [] = true
text_eq (a ∷ s) (b ∷ t) = nat_eq a b && text_eq s t
text_eq _ _ = false

-- `s.startswith(p)`
abbrev pub starts_with : List ℕ → List ℕ → Bool
starts_with s [] = true
starts_with [] (b ∷ p) = false
starts_with (a ∷ s) (b ∷ p) = nat_eq a b && starts_with s p

unfoldable pub lower : String → List ℕ
lower s = map to_lower (codes s)

-- `a.lower() == b.lower()`
unfoldable pub same_lower : String → String → Bool
same_lower a b = text_eq (lower a) (lower b)

pub text_eq_iff : (s t : List ℕ) → (text_eq s t ≡ true) ↔ (s ≡ t)
text_eq_iff [] [] = ground arith
text_eq_iff [] (b ∷ t) = ground arith
text_eq_iff (a ∷ s) [] = ground arith
text_eq_iff (a ∷ s) (b ∷ t) = ground (arith, text_eq_iff s t)

pub text_eq_refl : (s : List ℕ) → text_eq s s ≡ true
text_eq_refl s = (text_eq_iff s s).1 refl

pub same_lower_iff : (a b : String) → (same_lower a b ≡ true) ↔ (lower a ≡ lower b)
unfolding same_lower
same_lower_iff a b = text_eq_iff (lower a) (lower b)

pub to_lower_idem : (c : ℕ) → to_lower (to_lower c) ≡ to_lower c
unfolding to_lower
to_lower_idem c = ground arith

-- `p in s`
abbrev pub contains : List ℕ → List ℕ → Bool
contains [] p = starts_with [] p
contains (c ∷ s) p = starts_with (c ∷ s) p || contains s p

-- `s.endswith(p)`
abbrev pub ends_with : List ℕ → List ℕ → Bool
ends_with [] p = text_eq [] p
ends_with (c ∷ s) p = text_eq (c ∷ s) p || ends_with s p

abbrev pub onto_head : ℕ → List (List ℕ) → List (List ℕ)
onto_head c [] = (c ∷ []) ∷ []
onto_head c (part ∷ parts) = (c ∷ part) ∷ parts

-- `s.split(sep)`
unfoldable pub split : ℕ → List ℕ → List (List ℕ)
split sep [] = [] ∷ []
split sep (c ∷ s) = let rest = split sep s in if nat_eq c sep then [] ∷ rest else onto_head c rest

-- `s.replace(a, b)` of one character
abbrev pub replace : ℕ → ℕ → List ℕ → List ℕ
replace a b [] = []
replace a b (c ∷ s) = (if nat_eq c a then b else c) ∷ replace a b s

-- `s[:n]`
unfoldable pub string_take : ℕ → String → String
string_take zero s = String.[]
string_take (suc n) String.[] = String.[]
string_take (suc n) (String.◌∷◌ c s) = String.◌∷◌ c (string_take n s)

-- `s.replace("/", "-")`
unfoldable pub slash_to_dash : String → String
slash_to_dash String.[] = String.[]
slash_to_dash (String.◌∷◌ c s) =
    String.◌∷◌ (if nat_eq (code c) b'/' then "-" else c) (slash_to_dash s)

pub codes-append : (s t : String) → codes (s +++ t) ≡ codes s ++ codes t
codes-append String.[] t = simp nil-append
codes-append (String.◌∷◌ c s) t = simp cons-append (ap (◌∷◌ (code c)) (codes-append s t))
