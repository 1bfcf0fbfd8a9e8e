-- ===== src/Tests/Migrations.antt =====
-- The theorems on the connections to Cassandra at a concrete start.
use smart_warehouse_platform.Prelude.{
  String, ℕ, List, [], ◌∷◌, Option, none, some, nat_beq, Bool, true, false, ◌||◌, if◌then◌else◌,
}
use smart_warehouse_platform.Prelude.Eq.{◌==◌, string_eq}
use smart_warehouse_platform.Connection.{Attempt, no_cluster, no_session, connected, attempts}
use smart_warehouse_platform.Migrator.{parse_statements}
use smart_warehouse_platform.Migrator.Main.{
  Execution, executed, invalid_request, main, unreadable, is_in, apply_migrations,
}
use smart_warehouse_platform.Repository.Open.{IsOpened, new_repository, new_repository-IsOpened}
use smart_warehouse_platform.Migrator.Runs.{HasEnded, main-HasEnded}

-- A database is the statements that it has run.
abbrev has_run : List String → String → Bool
has_run [] s = false
has_run (r ∷ rs) s = r == s || has_run rs s

abbrev run : List String → String → Execution (List String)
run d s = if has_run d s then invalid_request "Table a already exists" d else executed (s ∷ d)

abbrev third_connects : ℕ → Attempt
third_connects n = if nat_beq n 1 then no_cluster else if nat_beq n 2 then no_session else connected

-- The second migration has a statement of the first, and the third cannot be read.
abbrev migrations : List (Option (List String))
migrations =
    some ("-- tables" ∷ "A;" ∷ "B;" ∷ []) ∷ some ("A;" ∷ "C;" ∷ []) ∷ none ∷ some ("D;" ∷ []) ∷ []

main-HasEnded_example : HasEnded run third_connects migrations [] (some 3) (record {
  failure = some unreadable;
  database = "C" ∷ "B" ∷ "A" ∷ [];
  made = 2 ∷ 3 ∷ [];
  shut_down = 3 ∷ [];
})
unfolding main attempts apply_migrations parse_statements is_in
main-HasEnded_example = main-HasEnded run third_connects migrations []

new_repository-IsOpened_example :
    IsOpened third_connects
      (λ n. true)
      (some 3)
      (some (record { cluster = some 3; session = some 3 }))
unfolding attempts new_repository
new_repository-IsOpened_example = new_repository-IsOpened third_connects (λ n. true)
