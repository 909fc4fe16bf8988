-- ===== src/Dict.antt =====
-- A Python dict with text keys, in insertion order (store.py walks `dict.values()`).
use jenkins_service.Prelude.{
  String, ◌≡◌, refl, Bool, false, Option, none, some, List, [], ◌∷◌, arith, ◌==◌, eq_iff,
  if◌then◌else◌, is_some, any,
}

abbrev pub Dict {ℓ} : Type ℓ → Type ℓ
Dict V = List (String × V)

module _ {ℓ} {V : Type ℓ} where
  -- `d.get(k)`
  unfoldable pub lookup : String → Dict V → Option V
  lookup k [] = none
  lookup k ((j, v) ∷ d) = if j == k then some v else lookup k d

  -- `d[k] = v`: a key keeps its place, a new key goes to the end
  unfoldable pub insert : String → V → Dict V → Dict V
  insert k v [] = (k, v) ∷ []
  insert k v ((j, w) ∷ d) = if j == k then (j, v) ∷ d else (j, w) ∷ insert k v d

  -- `d.pop(k, None)`
  unfoldable pub erase : String → Dict V → Dict V
  erase k [] = []
  erase k ((j, v) ∷ d) = if j == k then d else (j, v) ∷ erase k d

  -- `d.values()`
  abbrev pub values : Dict V → List V
  values [] = []
  values ((j, v) ∷ d) = v ∷ values d

  -- No key stands twice, as in any Python dict.
  abbrev pub HasUniqueKeys : Dict V → Type 0
  HasUniqueKeys [] = Unit
  HasUniqueKeys ((k, v) ∷ d) = (is_some (lookup k d) ≡ false) × HasUniqueKeys d

  pub lookup-insert :
      (k j : String) (v : V) (d : Dict V)
      → lookup j (insert k v d) ≡ (if k == j then some v else lookup j d)
  unfolding lookup insert
  lookup-insert k j v [] = refl
  lookup-insert k j v ((i, w) ∷ d) =
      ground (arith, eq_iff k j, eq_iff i k, eq_iff i j, lookup-insert k j v d)

  pub insert-HasUniqueKeys :
      (k : String) (v : V) (d : Dict V) → HasUniqueKeys d → HasUniqueKeys (insert k v d)
  unfolding insert
  insert-HasUniqueKeys k v [] h = (unfold lookup in refl, tt)
  insert-HasUniqueKeys k v ((i, w) ∷ d) h =
      ground (arith, eq_iff i k, eq_iff k i, lookup-insert k i v d, insert-HasUniqueKeys k v d h.1)

  pub lookup-erase :
      (k j : String) (d : Dict V)
      → HasUniqueKeys d
      → lookup j (erase k d) ≡ (if k == j then none else lookup j d)
  unfolding lookup erase
  lookup-erase k j [] h = ground arith
  lookup-erase k j ((i, w) ∷ d) h =
      ground (arith, eq_iff k j, eq_iff i k, eq_iff i j, lookup-erase k j d h.1)

  -- A new key that is taken back leaves the dict as it was.
  pub erase-insert :
      (k : String) (v : V) (d : Dict V) → is_some (lookup k d) ≡ false → erase k (insert k v d) ≡ d
  unfolding erase insert lookup
  erase-insert k v [] h = ground (arith, eq_iff k k)
  erase-insert k v ((j, w) ∷ d) h = ground (arith, erase-insert k v d)

  pub erase-HasUniqueKeys : (k : String) (d : Dict V) → HasUniqueKeys d → HasUniqueKeys (erase k d)
  unfolding erase
  erase-HasUniqueKeys k [] h = tt
  erase-HasUniqueKeys k ((i, w) ∷ d) h =
      ground (arith, lookup-erase k i d h.1, erase-HasUniqueKeys k d h.1)

  -- What all values fail, a value that is found fails.
  pub any-lookup :
      (p : V → Bool) (d : Dict V) (k : String) {v : V}
      → any p (values d) ≡ false
      → lookup k d ≡ some v
      → p v ≡ false
  unfolding lookup
  any-lookup p [] k h e = cc
  any-lookup p ((j, w) ∷ d) k {v} h e = ground (arith, any-lookup p d k {v = v})

  -- Each value is filed under the key that it carries.
  abbrev pub IsFiled : (V → String) → Dict V → Type ℓ
  IsFiled key d = (k : String) (v : V) → lookup k d ≡ some v → key v ≡ k

  pub insert-IsFiled :
      (key : V → String) (v : V) (d : Dict V) → IsFiled key d → IsFiled key (insert (key v) v d)
  insert-IsFiled key v d h =
      λ k w e. ground (arith, lookup-insert (key v) k v d, eq_iff (key v) k, h k w)

  pub erase-IsFiled :
      (key : V → String) (k : String) (d : Dict V)
      → HasUniqueKeys d
      → IsFiled key d
      → IsFiled key (erase k d)
  erase-IsFiled key k d u h = λ j w e. ground (arith, lookup-erase k j d u, h j w)

  pub empty-IsFiled : (key : V → String) → IsFiled key []
  unfolding lookup
  empty-IsFiled key = λ k v e. cc

-- A dict of entities under their own keys.
pub record IsKeyed {ℓ} {V : Type ℓ} (key : V → String) (d : Dict V) : Type ℓ where
  pub unique : HasUniqueKeys d
  pub filed : IsFiled key d

module _ {ℓ} {V : Type ℓ} where
  pub insert-IsKeyed :
      (key : V → String) (v : V) (d : Dict V) → IsKeyed key d → IsKeyed key (insert (key v) v d)
  insert-IsKeyed key v d h = record {
    unique = insert-HasUniqueKeys (key v) v d h.unique;
    filed = insert-IsFiled key v d h.filed;
  }

  pub erase-IsKeyed :
      (key : V → String) (k : String) (d : Dict V) → IsKeyed key d → IsKeyed key (erase k d)
  erase-IsKeyed key k d h = record {
    unique = erase-HasUniqueKeys k d h.unique;
    filed = erase-IsFiled key k d h.unique h.filed;
  }

  pub empty-IsKeyed : (key : V → String) → IsKeyed key []
  empty-IsKeyed key = record { unique = tt; filed = empty-IsFiled key }
