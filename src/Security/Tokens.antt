-- ===== src/Security/Tokens.antt =====
-- security.py: `TokenAuthenticator.authenticate`. A digest is the text of its hexadecimal form; the
-- hash function is a parameter.
use jenkins_service.Prelude.{
  String, ◌≡◌, refl, ◌∙◌, ap, sym, ◌⊎◌, Bool, true, false, Option, none, some, List, [], ◌∷◌, ◌++◌,
  ◌==◌, All, if◌then◌else◌, inl, inr, arith,
}
use jenkins_service.Model.Scope.{Scope, Principal}

-- an entry of the secret
pub record Entry : Type 0 where
  pub token_id : String
  pub scopes : List Scope
  pub digest : String

-- the loop: each match takes the place of the one before
unfoldable pub last_match : String → List Entry → Option Entry → Option Entry
last_match candidate [] found = found
last_match candidate (entry ∷ entries) found =
    last_match candidate entries (if candidate == entry.digest then some entry else found)

abbrev pub principal_of : Entry → Principal
principal_of entry = record { token_id = entry.token_id; scopes = entry.scopes }

unfoldable pub authenticate : (String → String) → List Entry → String → Option Principal
unfolding last_match
authenticate hash_token entries token = elim (last_match (hash_token token) entries none) [
  | none ↦ none
  | some entry ↦ some (principal_of entry)
]

-- No entry has the digest.
abbrev pub Misses : String → List Entry → Type 0
Misses candidate entries = All (λ (entry : Entry). (candidate == entry.digest) ≡ false) entries

-- The entry is in the list, has the digest, and no later one has.
pub record IsLast (candidate : String) (entries : List Entry) (entry : Entry) : Type 0 where
  pub before : List Entry
  pub after : List Entry
  pub splits : entries ≡ before ++ entry ∷ after
  pub matches : (candidate == entry.digest) ≡ true
  pub misses : Misses candidate after

module _ (candidate : String) where
  -- what the loop ends with, from what it had found
  abbrev Ends : List Entry → Option Entry → Option Entry → Type 0
  Ends entries found none = Misses candidate entries × (found ≡ none)
  Ends entries found (some entry) =
      IsLast candidate entries entry ⊎ (Misses candidate entries × (found ≡ some entry))

  further :
      (entry : Entry) (entries : List Entry) (found next : Option Entry) (test : Bool)
      (r : Option Entry)
      → (candidate == entry.digest) ≡ test
      → (if test then some entry else found) ≡ next
      → Ends entries next r
      → Ends (entry ∷ entries) found r
  further entry entries found next true none e n h = absurd (cc (n, h.1))
  further entry entries found next false none e n h = ((e, h.0), n ∙ h.1)
  further entry entries found next test (some last) e n (inl h) = inl (record {
    before = entry ∷ h.before;
    after = h.after;
    splits = ap (λ es. entry ∷ es) h.splits;
    matches = h.matches;
    misses = h.misses;
  })
  further entry entries found next false (some last) e n (inr h) = inr ((e, h.0), n ∙ h.1)
  further entry entries found next true (some last) e n (inr h) =
      let same : entry ≡ last = ground (arith, n, h.1) in
      inl (record {
        before = [];
        after = entries;
        splits = ap (λ x. x ∷ entries) same;
        matches = ap (λ (x : Entry). candidate == x.digest) (sym same) ∙ e;
        misses = h.0;
      })

  last_match-Ends :
      (entries : List Entry) (found : Option Entry)
      → Ends entries found (last_match candidate entries found)
  unfolding last_match
  last_match-Ends [] none = (tt, refl)
  last_match-Ends [] (some entry) = inr (tt, refl)
  last_match-Ends (entry ∷ entries) found =
      let next = if candidate == entry.digest then some entry else found in
      further entry entries found next (candidate == entry.digest)
        (last_match candidate entries next) refl refl (last_match-Ends entries next)

-- What an answer means.
abbrev pub Authenticates : String → List Entry → Option Principal → Type 0
Authenticates candidate entries none = Misses candidate entries
Authenticates candidate entries (some principal) =
    (entry : Entry) × IsLast candidate entries entry × (principal ≡ principal_of entry)

-- A token is refused exactly where no entry has its digest; else the principal is that of the last
-- entry of the secret that has it.
pub authenticate-Authenticates :
    (hash_token : String → String) (entries : List Entry) (token : String)
    → Authenticates (hash_token token) entries (authenticate hash_token entries token)
unfolding authenticate
authenticate-Authenticates hash_token entries token =
    answered (last_match (hash_token token) entries none)
      (last_match-Ends (hash_token token) entries none)
  where
    answered :
        (r : Option Entry)
        → Ends (hash_token token) entries none r
        → Authenticates (hash_token token) entries (elim r as (λ r. Option Principal) [
          | none ↦ none
          | some entry ↦ some (principal_of entry)
        ])
    answered none h = h.0
    answered (some entry) (inl h) = (entry, h, refl)
    answered (some entry) (inr h) = absurd (cc (h.1))
