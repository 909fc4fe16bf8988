-- ===== src/Model/Scope.antt =====
-- models.py: `Scope`, `SCOPE_IMPLICATIONS` and `Principal.permits`.
use jenkins_service.Prelude.{String, ◌≡◌, Bool, true, false, ◌||◌, List, [], ◌∷◌, arith, any}

pub data Scope : Type 0 where
  read operate extend admin : Scope

abbrev pub scope_eq : Scope → Scope → Bool
scope_eq read read = true
scope_eq operate operate = true
scope_eq extend extend = true
scope_eq admin admin = true
scope_eq _ _ = false

-- `SCOPE_IMPLICATIONS[scope]`
unfoldable pub scope_implications : Scope → List Scope
scope_implications read = read ∷ []
scope_implications operate = read ∷ operate ∷ []
scope_implications extend = read ∷ extend ∷ []
scope_implications admin = read ∷ operate ∷ extend ∷ admin ∷ []

pub record Principal : Type 0 where
  pub token_id : String
  pub scopes : List Scope

-- `required in SCOPE_IMPLICATIONS[scope]`
unfoldable pub implies : Scope → Scope → Bool
unfolding scope_implications
implies scope required = any (scope_eq required) (scope_implications scope)

unfoldable pub permits : Principal → Scope → Bool
unfolding implies
permits p required = any (λ scope. implies scope required) p.scopes

abbrev pub holds : Scope → List Scope → Bool
holds s scopes = any (scope_eq s) scopes

-- What a scope needs, said by the scopes that grant it.
abbrev pub granted : Scope → List Scope → Bool
granted read [] = false
granted read (s ∷ scopes) = true
granted operate scopes = holds operate scopes || holds admin scopes
granted extend scopes = holds extend scopes || holds admin scopes
granted admin scopes = holds admin scopes

implies-cases : (s : Scope) (r : Scope) → implies s r ≡ granted r (s ∷ [])
unfolding implies
implies-cases read read = ground arith
implies-cases read operate = ground arith
implies-cases read extend = ground arith
implies-cases read admin = ground arith
implies-cases operate _ = ground arith
implies-cases extend _ = ground arith
implies-cases admin _ = ground arith

-- A principal is permitted an action exactly when one of its scopes grants it: any scope grants
-- `read`, the others are granted by themselves and by `admin`.
pub permits-eq-granted :
    (token_id : String) (scopes : List Scope) (required : Scope)
    → permits (record { token_id = token_id; scopes = scopes }) required ≡ granted required scopes
unfolding permits
permits-eq-granted t [] read = ground arith
permits-eq-granted t [] _ = ground arith
permits-eq-granted t (s ∷ ss) read = ground (arith, implies-cases s read)
permits-eq-granted t (s ∷ ss) operate =
    ground (arith, implies-cases s operate, permits-eq-granted t ss operate)
permits-eq-granted t (s ∷ ss) extend =
    ground (arith, implies-cases s extend, permits-eq-granted t ss extend)
permits-eq-granted t (s ∷ ss) admin =
    ground (arith, implies-cases s admin, permits-eq-granted t ss admin)
