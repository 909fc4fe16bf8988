-- ===== src/Store/Invariant.antt =====
-- The invariant of the store, and the operations as steps that keep it.
use jenkins_service.Prelude.{
  String, ◌≡◌, sym, ◌∙◌, true, false, some, arith, eq_iff, is_some, same_lower, same_lower_iff,
}
use jenkins_service.Dict.{
  Dict, lookup, insert, erase, HasUniqueKeys, IsKeyed, insert-IsKeyed, erase-IsKeyed, empty-IsKeyed,
  lookup-insert, lookup-erase, any-lookup,
}
use jenkins_service.Model.Repository.{Repository, full_name}
use jenkins_service.Model.Extension.{ExtensionRun}
use jenkins_service.Store.{Store, empty, is_duplicate}

-- No two repositories have the same name in lower case.
abbrev pub HasUniqueNames : Dict Repository → Type 0
HasUniqueNames d =
    (i j : String) (a b : Repository)
    → lookup i d ≡ some a
    → lookup j d ≡ some b
    → same_lower (full_name a) (full_name b) ≡ true
    → i ≡ j

-- Each idempotency key leads to a stored run.
abbrev pub HasRuns : Dict String → Dict ExtensionRun → Type 0
HasRuns keys runs = (key id : String) → lookup key keys ≡ some id → is_some (lookup id runs) ≡ true

pub record AreRepositories (d : Dict Repository) : Type 0 where
  pub keyed : IsKeyed (λ r. r.id) d
  pub names : HasUniqueNames d

pub record AreRuns (keys : Dict String) (runs : Dict ExtensionRun) : Type 0 where
  pub keyed : IsKeyed (λ r. r.id) runs
  pub reached : HasRuns keys runs

pub record IsValid (s : Store) : Type 0 where
  pub repositories : AreRepositories s.repositories
  pub queue_items : IsKeyed (λ q. q.id) s.queue_items
  pub builds : IsKeyed (λ b. b.id) s.builds
  pub webhooks : IsKeyed (λ w. w.delivery_id) s.webhooks
  pub runs : AreRuns s.extension_keys s.extension_runs

pub empty-IsValid : IsValid empty
unfolding lookup
empty-IsValid = record {
  repositories = record { keyed = empty-IsKeyed _; names = λ i j a b p q e. cc };
  queue_items = empty-IsKeyed _;
  builds = empty-IsKeyed _;
  webhooks = empty-IsKeyed _;
  runs = record { keyed = empty-IsKeyed _; reached = λ k v e. cc };
}

same_lower_symm :
    (a b : Repository)
    → same_lower (full_name a) (full_name b) ≡ true
    → same_lower (full_name b) (full_name a) ≡ true
same_lower_symm a b e = (same_lower_iff _ _).1 (sym ((same_lower_iff _ _).0 e))

-- A repository whose name no other entry has may be written at its key.
insert-HasUniqueNames :
    (k : String) (r : Repository) (d : Dict Repository)
    → HasUniqueNames d
    → ((i : String) (a : Repository)
        → lookup i d ≡ some a
        → same_lower (full_name a) (full_name r) ≡ true
        → i ≡ k)
    → HasUniqueNames (insert k r d)
insert-HasUniqueNames k r d h free i j a b p q e = ground (
  arith,
  lookup-insert k i r d,
  lookup-insert k j r d,
  eq_iff k i,
  eq_iff k j,
  h i j a b,
  free i a,
  free j b,
  same_lower_symm a b,
)

erase-HasUniqueNames :
    (k : String) (d : Dict Repository)
    → HasUniqueKeys d
    → HasUniqueNames d
    → HasUniqueNames (erase k d)
erase-HasUniqueNames k d u h i j a b p q e =
    ground (arith, lookup-erase k i d u, lookup-erase k j d u, h i j a b)

-- A repository under a name that the test found free.
pub create-AreRepositories :
    (r : Repository) (d : Dict Repository)
    → is_duplicate (full_name r) d ≡ false
    → AreRepositories d
    → AreRepositories (insert r.id r d)
unfolding is_duplicate
create-AreRepositories r d free h = record {
  keyed = insert-IsKeyed (λ r. r.id) r d h.keyed;
  names =
      insert-HasUniqueNames r.id r d h.names
        λ i a p e. cc (any-lookup (λ item. same_lower (full_name item) (full_name r)) d i free p);
}

-- A repository that keeps its key, owner and name.
pub update-AreRepositories :
    (id : String) (current r : Repository) (d : Dict Repository)
    → lookup id d ≡ some current
    → r.id ≡ current.id
    → full_name r ≡ full_name current
    → AreRepositories d
    → AreRepositories (insert id r d)
update-AreRepositories id current r d found same_id same_name h =
    let key : r.id ≡ id = same_id ∙ h.keyed.filed id current found in
    record {
      keyed = rw (← key) (insert-IsKeyed (λ r. r.id) r d h.keyed);
      names =
          insert-HasUniqueNames id r d h.names
            λ i a p e. h.names i id a current p found (rw same_name at e);
    }

pub delete-AreRepositories :
    (id : String) (d : Dict Repository) → AreRepositories d → AreRepositories (erase id d)
delete-AreRepositories id d h = record {
  keyed = erase-IsKeyed (λ r. r.id) id d h.keyed;
  names = erase-HasUniqueNames id d h.keyed.unique h.names;
}

-- A run under a key that no other run has taken.
pub save-AreRuns :
    (run : ExtensionRun) (keys : Dict String) (runs : Dict ExtensionRun)
    → AreRuns keys runs
    → AreRuns (insert run.idempotency_key run.id keys) (insert run.id run runs)
save-AreRuns run keys runs h = record {
  keyed = insert-IsKeyed (λ r. r.id) run runs h.keyed;
  reached = λ key id e. ground (
    arith,
    lookup-insert run.idempotency_key key run.id keys,
    lookup-insert run.id id run runs,
    eq_iff run.id id,
    h.reached key id,
  );
}
