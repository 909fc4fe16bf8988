-- ===== src/Sorting.antt =====
-- Python's `sorted` with a key: a stable sort by a Boolean order.
use jenkins_service.Prelude.{
  ℕ, ◌≡◌, refl, Bool, true, false, List, [], ◌∷◌, arith, nat_eq, ltb, if◌then◌else◌, Bool-cases,
  inl, inr, ◌||◌, ◌&&◌, any,
}
use mathlib.Core.List.{Perm}
use mathlib.Core.List.Perm

-- lexicographic `<=` of texts
abbrev pub text_leb : List ℕ → List ℕ → Bool
text_leb [] t = true
text_leb (a ∷ s) [] = false
text_leb (a ∷ s) (b ∷ t) = ltb a b || nat_eq a b && text_leb s t

module _ {ℓ} {A : Type ℓ} where
  -- places `x`, which stood before all of the list, before its equals
  unfoldable pub place : (A → A → Bool) → A → List A → List A
  place le x [] = x ∷ []
  place le x (y ∷ ys) = if le x y then x ∷ y ∷ ys else y ∷ place le x ys

  unfoldable pub sort_by : (A → A → Bool) → List A → List A
  unfolding place
  sort_by le [] = []
  sort_by le (x ∷ xs) = place le x (sort_by le xs)

  -- Each entry is at most the next one.
  abbrev pub IsSorted : (A → A → Bool) → List A → Type 0
  IsSorted le [] = Unit
  IsSorted le (x ∷ []) = Unit
  IsSorted le (x ∷ y ∷ ys) = (le x y ≡ true) × IsSorted le (y ∷ ys)

  pub place-perm : (le : A → A → Bool) (x : A) (xs : List A) → Perm (place le x xs) (x ∷ xs)
  unfolding place
  place-perm le x [] = Perm.refl (x ∷ [])
  place-perm le x (y ∷ ys) = elim (Bool-cases (le x y)) [
    | inl before ↦ rw before (Perm.refl (x ∷ y ∷ ys))
    | inr beyond ↦ rw beyond (Perm.trans (Perm.cons y (place-perm le x ys)) (Perm.swap x y ys))
  ]

  pub sort_by-perm : (le : A → A → Bool) (xs : List A) → Perm (sort_by le xs) xs
  unfolding sort_by
  sort_by-perm le [] = Perm.refl []
  sort_by-perm le (x ∷ xs) =
      Perm.trans (place-perm le x (sort_by le xs)) (Perm.cons x (sort_by-perm le xs))

  any-place :
      (p : A → Bool) (le : A → A → Bool) (x : A) (xs : List A)
      → any p (place le x xs) ≡ (p x || any p xs)
  unfolding place
  any-place p le x [] = refl
  any-place p le x (y ∷ ys) = ground (arith, any-place p le x ys)

  -- A sorted list has an entry that passes a test exactly when the list has.
  pub any-sort_by :
      (p : A → Bool) (le : A → A → Bool) (xs : List A) → any p (sort_by le xs) ≡ any p xs
  unfolding sort_by
  any-sort_by p le [] = refl
  any-sort_by p le (x ∷ xs) = ground (arith, any-place p le x (sort_by le xs), any-sort_by p le xs)

  module _ (le : A → A → Bool) (total : (x y : A) → le x y ≡ false → le y x ≡ true) where
    place-IsSorted : (x : A) (xs : List A) → IsSorted le xs → IsSorted le (place le x xs)
    unfolding place
    place-IsSorted x [] h = tt
    place-IsSorted x (y ∷ []) h = ground (arith, total x y)
    place-IsSorted x (y ∷ z ∷ zs) h = ground (arith, total x y, place-IsSorted x (z ∷ zs))

    pub sort_by-IsSorted : (xs : List A) → IsSorted le (sort_by le xs)
    unfolding sort_by
    sort_by-IsSorted [] = tt
    sort_by-IsSorted (x ∷ xs) = place-IsSorted x (sort_by le xs) (sort_by-IsSorted xs)

pub text_leb-total : (s t : List ℕ) → text_leb s t ≡ false → text_leb t s ≡ true
text_leb-total [] t h = cc
text_leb-total (a ∷ s) [] h = refl
text_leb-total (a ∷ s) (b ∷ t) h = ground (arith, text_leb-total s t)
