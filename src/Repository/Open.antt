-- ===== src/Repository/Open.antt =====
-- How consumer_service/app/infrastructure/cassandra_repository.py opens and closes its connection. A
-- cluster and its session are known by the attempt that made them; the driver's calls are parameters.
use smart_warehouse_platform.Prelude.{
  ℕ, Bool, true, false, List, [], ◌∷◌, Option, none, some, ◌≡◌, refl, if◌then◌else◌,
}
use smart_warehouse_platform.Connection.{Attempt, attempts}
use smart_warehouse_platform.Connection.First.{IsFirst, attempts-IsFirst}

pub record CassandraRepository : Type 0 where
  pub cluster : Option ℕ
  pub session : Option ℕ

-- After the loop of `_connect_with_retry`: none is the `RuntimeError`.
abbrev pub connected_to : Option ℕ → Option CassandraRepository
connected_to none = none
connected_to (some n) = some (record { cluster = some n; session = some n })

unfoldable pub connect_with_retry : (ℕ → Attempt) → Option CassandraRepository
unfolding attempts
connect_with_retry tries = connected_to ((attempts tries 30 1 []).0)

-- `_prepare_statements`, given whether the server prepares each of the statements.
abbrev pub prepare_statements : (ℕ → Bool) → CassandraRepository → Option CassandraRepository
prepare_statements prepares repository = elim repository.session [
  | none ↦ none
  | some n ↦ if prepares n then some repository else none
]

-- `__init__`: none if it raises.
unfoldable pub new_repository : (ℕ → Attempt) → (ℕ → Bool) → Option CassandraRepository
unfolding connect_with_retry
new_repository tries prepares = elim (connect_with_retry tries) [
  | none ↦ none
  | some repository ↦ prepare_statements prepares repository
]

-- `healthcheck`, given whether the query on the session returns.
unfoldable pub healthcheck : (ℕ → Bool) → CassandraRepository → Bool
healthcheck returns repository = elim repository.session [ none ↦ false | some n ↦ returns n ]

abbrev pub listed : Option ℕ → List ℕ
listed none = []
listed (some n) = n ∷ []

-- `close`: the sessions and the clusters that it shuts down.
unfoldable pub close : CassandraRepository → List ℕ × List ℕ
close repository = (listed repository.session, listed repository.cluster)

-- What `__init__` gives when the loop finds an attempt, or none.
abbrev pub IsOpened : (ℕ → Attempt) → (ℕ → Bool) → Option ℕ → Option CassandraRepository → Type 0
IsOpened tries prepares none opened = IsFirst tries 30 1 none × (opened ≡ none)
IsOpened tries prepares (some n) none = IsFirst tries 30 1 (some n) × (prepares n ≡ false)
IsOpened tries prepares (some n) (some repository) =
    IsFirst tries 30 1 (some n)
    × (prepares n ≡ true)
    × (close repository ≡ (n ∷ [], n ∷ []))
    × ((returns : ℕ → Bool) → healthcheck returns repository ≡ returns n)

prepared-IsOpened :
    (tries : ℕ → Attempt) (prepares : ℕ → Bool) (n : ℕ) (test : Bool)
    → IsFirst tries 30 1 (some n)
    → prepares n ≡ test
    → IsOpened tries prepares
        (some n)
        (if test then some (record { cluster = some n; session = some n }) else none)
unfolding close healthcheck
prepared-IsOpened tries prepares n true first e = (first, e, refl, λ returns. refl)
prepared-IsOpened tries prepares n false first e = (first, e)

connected_to-IsOpened :
    (tries : ℕ → Attempt) (prepares : ℕ → Bool) (found : Option ℕ)
    → IsFirst tries 30 1 found
    → IsOpened tries prepares found (elim (connected_to found) [
      | none ↦ none
      | some repository ↦ prepare_statements prepares repository
    ])
connected_to-IsOpened tries prepares none first = (first, refl)
connected_to-IsOpened tries prepares (some n) first =
    prepared-IsOpened tries prepares n (prepares n) first refl

-- The repository connects at the first of its 30 attempts that does, and is made if the statements can
-- be prepared there. Its health check is a query on that session, and `close` shuts down that session
-- and that cluster. When no attempt connects, or a statement cannot be prepared, `__init__` raises.
pub new_repository-IsOpened :
    (tries : ℕ → Attempt) (prepares : ℕ → Bool)
    → IsOpened tries prepares ((attempts tries 30 1 []).0) (new_repository tries prepares)
unfolding new_repository
new_repository-IsOpened tries prepares =
    connected_to-IsOpened tries prepares _ (attempts-IsFirst tries 30 1 [])
