-- ===== src/Raft/Persist.antt =====
-- Stable storage: src/raft/persister.go, and persist, readPersist and readPersistSnapshot of
-- src/raft/raft.go. The byte encoding is encoding/gob's, behind the package labgob: a parameter.
use model_lib.Prelude.{
  ℕ, ◌≡◌, refl, ap, ◌≢◌, Bool, true, false, Option, none, some, List, [], ◌∷◌, if◌then◌else◌,
  length,
}
use model_lib.Prelude.Int.{ℤ, pos}
use model_lib.Raft.State.{LogEntry, Persister, Raft}

pub record PersistentState (C : Type 0) : Type 0 where
  pub current_term : ℤ
  pub voted_for : ℤ
  pub log : List (LogEntry C)
  pub snapshot_index : ℤ
  pub snapshot_term : ℤ

-- The five `Encode` calls as one, and the five `Decode` calls as one: `none` if any of them fails.
pub record Gob (C : Type 0) : Type 0 where
  pub encode : PersistentState C → List ℕ
  pub decode : List ℕ → Option (PersistentState C)

-- What encoding/gob promises: what was encoded is decoded again, and takes at least one byte.
pub record GobLaws {C : Type 0} (g : Gob C) : Type 0 where
  pub round_trip : (s : PersistentState C) → g.decode (g.encode s) ≡ some s
  pub some_bytes : (s : PersistentState C) → g.encode s ≢ []

unfoldable pub make_persister : Persister
make_persister = record { raftstate = []; snapshot = [] }

-- The store is a value, so `clone` and `Copy` have no aliasing to undo.
unfoldable pub clone : List ℕ → List ℕ
clone [] = []
clone (x ∷ orig) = x ∷ clone orig

pub copy : Persister → Persister
unfolding make_persister
copy ps = record make_persister { raftstate = ps.raftstate; snapshot = ps.snapshot }

unfoldable pub read_raft_state : Persister → List ℕ
read_raft_state ps = clone ps.raftstate

pub raft_state_size : Persister → ℤ
raft_state_size ps = pos (length ps.raftstate)

unfoldable pub save : List ℕ → List ℕ → Persister → Persister
save raftstate snapshot ps = record ps { raftstate = clone raftstate; snapshot = clone snapshot }

unfoldable pub read_snapshot : Persister → List ℕ
read_snapshot ps = clone ps.snapshot

pub snapshot_size : Persister → ℤ
snapshot_size ps = pos (length ps.snapshot)

pub clone_lem : (xs : List ℕ) → clone xs ≡ xs
unfolding clone
clone_lem [] = refl
clone_lem (x ∷ xs) = ap (◌∷◌ x) (clone_lem xs)

abbrev pub is_empty : List ℕ → Bool
is_empty [] = true
is_empty (x ∷ xs) = false

module _ {C : Type 0} ⦃g : Gob C⦄ where
  abbrev pub persistent_state : Raft C → PersistentState C
  persistent_state rf = record {
    current_term = rf.current_term;
    voted_for = rf.voted_for;
    log = rf.log;
    snapshot_index = rf.snapshot_index;
    snapshot_term = rf.snapshot_term;
  }

  unfoldable pub persist : Raft C → Raft C
  persist rf = record rf {
    persister = save (g.encode (persistent_state rf)) rf.snapshot rf.persister;
  }

  abbrev pub restore : Option (PersistentState C) → Raft C → Raft C
  restore none rf = rf
  restore (some s) rf = record rf {
    current_term = s.current_term;
    voted_for = s.voted_for;
    log = s.log;
    snapshot_index = s.snapshot_index;
    snapshot_term = s.snapshot_term;
  }

  unfoldable pub read_persist : List ℕ → Raft C → Raft C
  read_persist bytes rf = if is_empty bytes then rf else restore (g.decode bytes) rf

  unfoldable pub read_persist_snapshot : List ℕ → Raft C → Raft C
  read_persist_snapshot bytes rf = record rf { snapshot = bytes }

  pub read_persist-encode :
      (laws : GobLaws g) (s : PersistentState C) (rf : Raft C)
      → read_persist (g.encode s) rf ≡ restore (some s) rf
  unfolding read_persist
  read_persist-encode laws s rf = not_empty (g.encode s) (laws.some_bytes s) (laws.round_trip s)
    where
      not_empty :
          (bytes : List ℕ)
          → bytes ≢ []
          → g.decode bytes ≡ some s
          → (if is_empty bytes then rf else restore (g.decode bytes) rf) ≡ restore (some s) rf
      not_empty [] ne d = absurd (ne refl)
      not_empty (x ∷ bytes) ne d = ap (λ o. restore o rf) d
