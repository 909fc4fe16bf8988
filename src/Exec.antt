-- ===== src/Exec.antt =====
-- Methods that change a state and may raise. What was written before a raise stays written, so the
-- state comes back beside the error too.
use jenkins_service.Prelude.{◌≡◌, refl, ◌⊎◌, inl, inr, String, Bool, true, false}

-- The exceptions of the program, each with its message.
pub data Error : Type 0 where
  conflict not_found value_error diff_error upstream key_error transport runtime_error :
      String → Error

pub data Result {ℓ} (A : Type ℓ) : Type ℓ where
  ok : A → Result A
  err : Error → Result A

abbrev pub is_ok {ℓ} : {A : Type ℓ} → Result A → Bool
is_ok (ok _) = true
is_ok (err _) = false

pub Result-cases :
    {A : Type 0} (r : Result A) → ((a : A) × (r ≡ ok a)) ⊎ ((e : Error) × (r ≡ err e))
Result-cases (ok a) = inl (a, refl)
Result-cases (err e) = inr (e, refl)

abbrev pub Exec : Type 0 → Type 0 → Type 0
Exec S A = S → Result A × S

module _ {S A : Type 0} where
  abbrev pub pure : A → Exec S A
  pure a s = (ok a, s)

  abbrev pub raise : Error → Exec S A
  raise e s = (err e, s)

  abbrev pub lift : Result A → Exec S A
  lift r s = (r, s)

  abbrev pub gets : (S → A) → Exec S A
  gets f s = (ok (f s), s)

module _ {S : Type 0} where
  abbrev pub modify : (S → S) → Exec S Unit
  modify f s = (ok tt, f s)

  -- `if not test: raise e`
  abbrev pub ensure : Bool → Error → Exec S Unit
  ensure true e = pure tt
  ensure false e = raise e

module _ {S A B : Type 0} where
  abbrev pub resume : (A → Exec S B) → Result A → S → Result B × S
  resume f (ok a) s = f a s
  resume f (err e) s = (err e, s)

  infixl 5 ◌>>=◌ ◌>>◌
  abbrev pub ◌>>=◌ : Exec S A → (A → Exec S B) → Exec S B
  ◌>>=◌ m f s = let (r, s') = m s in resume f r s'

  abbrev pub ◌>>◌ : Exec S A → Exec S B → Exec S B
  m >> n = m >>= λ _. n

module _ {S A : Type 0} where
  abbrev pub handle_with : (Error → Exec S A) → Result A → S → Result A × S
  handle_with h (ok a) s = (ok a, s)
  handle_with h (err e) s = h e s

  -- `try: m except Exception as e: h(e)`
  abbrev pub try_catch : Exec S A → (Error → Exec S A) → Exec S A
  try_catch m h s = let (r, s') = m s in handle_with h r s'
