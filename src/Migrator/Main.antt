-- ===== src/Migrator/Main.antt =====
-- `main` of migrator/apply_migrations.py. A migration is the lines that reading its file gives, and
-- they come in the order of `sorted`; none is a file that cannot be read. The session is a parameter.
use Prim.Native.Char.{code}
use smart_warehouse_platform.Prelude.{
  String, ℕ, Bool, true, false, ◌&&◌, ◌||◌, List, [], ◌∷◌, nat_beq, Option, none, some,
  if◌then◌else◌,
}
use smart_warehouse_platform.Connection.{Attempt, attempts}
use smart_warehouse_platform.Migrator.{parse_statements}

abbrev pub is_prefix : String → String → Bool
is_prefix String.[] s = true
is_prefix (String.◌∷◌ c word) String.[] = false
is_prefix (String.◌∷◌ c word) (String.◌∷◌ d s) =
    let rest = is_prefix word s in nat_beq (code c) (code d) && rest

-- `word in s`
unfoldable pub is_in : String → String → Bool
is_in word String.[] = is_prefix word String.[]
is_in word (String.◌∷◌ c s) = let rest = is_in word s in is_prefix word (String.◌∷◌ c s) || rest

abbrev pub already_exists : String
already_exists = "already exists"

-- How `session.execute(statement)` ends, with the database it leaves: it returns, raises an
-- `InvalidRequest` of a text, or raises another exception.
pub data Execution {ℓ} (D : Type ℓ) : Type ℓ where
  executed : D → Execution D
  invalid_request : String → D → Execution D
  other_error : D → Execution D

-- The exception that leaves `main`.
pub data Failure : Type 0 where
  unable_to_connect unreadable other_failure : Failure
  invalid_statement : String → Failure

-- How the program ends, with the clusters that it made and those that it shut down.
pub record Ending {ℓ} (D : Type ℓ) : Type ℓ where
  pub failure : Option Failure
  pub database : D
  pub made : List ℕ
  pub shut_down : List ℕ

-- An exception ends the outer loop.
unfoldable pub after_migration {ℓ} :
    {D : Type ℓ} → Option Failure × D → (D → Option Failure × D) → Option Failure × D
after_migration (some failure, d) next = (some failure, d)
after_migration (none, d) next = next d

module _ {ℓ} {D : Type ℓ} (execute : D → String → Execution D) where
  -- The inner loop.
  unfoldable pub apply_statements : D → List String → Option Failure × D
  apply_statements d [] = (none, d)
  apply_statements d (statement ∷ rest) = elim (execute d statement) [
    | executed d' ↦ apply_statements d' rest
    | invalid_request text d' ↦
        let skipped = apply_statements d' rest in
        if is_in already_exists text then skipped else (some (invalid_statement text), d')
    | other_error d' ↦ (some other_failure, d')
  ]

  -- The outer loop.
  unfoldable pub apply_migrations : D → List (Option (List String)) → Option Failure × D
  unfolding apply_statements after_migration
  apply_migrations d [] = (none, d)
  apply_migrations d (none ∷ rest) = (some unreadable, d)
  apply_migrations d (some lines ∷ rest) =
      after_migration (apply_statements d (parse_statements lines)) (λ d'. apply_migrations d' rest)

  -- The branches after the `for` of the connection, its `else` and its `break`.
  unfoldable pub after_connecting : Option ℕ → List ℕ → List (Option (List String)) → D → Ending D
  unfolding apply_migrations
  after_connecting none made migrations d = record {
    failure = some unable_to_connect;
    database = d;
    made = made;
    shut_down = [];
  }
  after_connecting (some n) made migrations d =
      let (failure, d') = apply_migrations d migrations in
      record { failure = failure; database = d'; made = made; shut_down = n ∷ [] }

  unfoldable pub main : (ℕ → Attempt) → List (Option (List String)) → D → Ending D
  unfolding attempts after_connecting
  main tries migrations d =
      let (found, made) = attempts tries 30 1 [] in after_connecting found made migrations d
