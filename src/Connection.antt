-- ===== src/Connection.antt =====
-- The loop in which migrator/apply_migrations.py and
-- consumer_service/app/infrastructure/cassandra_repository.py connect to Cassandra.
pub mod First
use smart_warehouse_platform.Prelude.{ℕ, zero, suc, ◌+◌, List, [], ◌∷◌, ◌++◌, Option, none, some}

-- How one attempt ends: `Cluster(…)` raises, a later call on the cluster raises, or none does.
pub data Attempt : Type 0 where
  no_cluster no_session connected : Attempt

-- The attempt that connected, if one did, and the attempts whose clusters were made.
abbrev pub Connecting : Type 0
Connecting = Option ℕ × List ℕ

-- `for attempt in range(n, n + left)`: an exception is kept for the end, and the next one is tried.
-- The clusters that were made before are given.
unfoldable pub attempts : (ℕ → Attempt) → ℕ → ℕ → List ℕ → Connecting
attempts tries zero n made = (none, made)
attempts tries (suc left) n made = elim (tries n) [
  | no_cluster ↦ attempts tries left (suc n) made
  | no_session ↦ attempts tries left (suc n) (made ++ n ∷ [])
  | connected ↦ (some n, made ++ n ∷ [])
]
