-- ===== src/Migrator/Runs.antt =====
-- What a run of the migrator leaves.
use smart_warehouse_platform.Prelude.{
  map, String, ℕ, true, false, List, [], ◌∷◌, ◌++◌, Option, none, some, ◌≡◌, refl, sym, ap, ◌∙◌,
  inl, inr, Bool-cases,
}
use mathlib.Core.List.{append_assoc}
use smart_warehouse_platform.Connection.{Attempt, attempts}
use smart_warehouse_platform.Connection.First.{IsFirst, attempts-IsFirst}
use smart_warehouse_platform.Migrator.{parse_statements}
use smart_warehouse_platform.Migrator.Main.{
  Execution, executed, invalid_request, other_error, is_in, already_exists, Failure,
  unable_to_connect, unreadable, other_failure, invalid_statement, apply_statements,
  after_migration, apply_migrations, Ending, after_connecting, main,
}

-- The work of the migrations: their statements, with none where a file cannot be read.
abbrev pub work_of : List (Option (List String)) → List (Option String)
work_of [] = []
work_of (none ∷ rest) = none ∷ work_of rest
work_of (some lines ∷ rest) = map some (parse_statements lines) ++ work_of rest

module _ {D : Type 0} (execute : D → String → Execution D) where
  -- Each statement in turn returns or is skipped as one that was applied before.
  pub data Runs : D → List (Option String) → D → Type 0 where
    nothing_left : (d : D) → Runs d [] d
    returned :
        (d d' last : D) (s : String) (rest : List (Option String))
        → execute d s ≡ executed d'
        → Runs d' rest last
        → Runs d (some s ∷ rest) last
    skipped :
        (d d' last : D) (text s : String) (rest : List (Option String))
        → execute d s ≡ invalid_request text d'
        → is_in already_exists text ≡ true
        → Runs d' rest last
        → Runs d (some s ∷ rest) last

  Runs-++ :
      (d d' last : D) (ss more : List (Option String))
      → Runs d ss d'
      → Runs d' more last
      → Runs d (ss ++ more) last
  Runs-++ d d' last ss more (nothing_left _) after = after
  Runs-++ d d' last _ more (returned _ d2 _ s rest e runs) after =
      returned d d2 last s (rest ++ more) e (Runs-++ d2 d' last rest more runs after)
  Runs-++ d d' last _ more (skipped _ d2 _ text s rest e seen runs) after =
      skipped d d2 last text s (rest ++ more) e seen (Runs-++ d2 d' last rest more runs after)

  -- The statement `s` stops a run of `ss` from `d`, after those before it.
  abbrev pub StopsAt : D → List (Option String) → Option String → D → Type 0
  StopsAt d ss s reached =
      (earlier : List (Option String)) × (later : List (Option String)) × (ss
        ≡ earlier ++ s ∷ later)
      × Runs d earlier reached

  -- What a loop leaves that did the work `ss` from `d`, by the exception that leaves it.
  abbrev pub Ran : D → List (Option String) → Option Failure × D → Type 0
  Ran d ss (none, last) = Runs d ss last
  Ran d ss (some (invalid_statement text), last) =
      (s : String) × (reached : D) × StopsAt d ss (some s) reached
      × (execute reached s ≡ invalid_request text last)
      × (is_in already_exists text ≡ false)
  Ran d ss (some other_failure, last) =
      (s : String) × (reached : D) × StopsAt d ss (some s) reached
      × (execute reached s ≡ other_error last)
  Ran d ss (some unreadable, last) = StopsAt d ss none last
  Ran d ss (some unable_to_connect, last) = ⊥

  stops_later :
      (d d' reached : D) (done ss : List (Option String)) (s : Option String)
      → Runs d done d'
      → StopsAt d' ss s reached
      → StopsAt d (done ++ ss) s reached
  stops_later d d' reached done ss s runs at = (
    done ++ at.0,
    at.1,
    ap (λ w. done ++ w) at.2 ∙ sym (append_assoc done at.0 (s ∷ at.1)),
    Runs-++ d d' reached done at.0 runs at.3,
  )

  stops_before :
      (d reached : D) (ss more : List (Option String)) (s : Option String)
      → StopsAt d ss s reached
      → StopsAt d (ss ++ more) s reached
  stops_before d reached ss more s at =
      (at.0, at.1 ++ more, ap (λ w. w ++ more) at.2 ∙ append_assoc at.0 (s ∷ at.1) more, at.3)

  -- Work that is done comes before what the rest of the loop does.
  Ran-after :
      (d d' : D) (done ss : List (Option String)) (r : Option Failure × D)
      → Runs d done d'
      → Ran d' ss r
      → Ran d (done ++ ss) r
  Ran-after d d' done ss (none, last) runs ran = Runs-++ d d' last done ss runs ran
  Ran-after d d' done ss (some (invalid_statement text), last) runs
        (s, reached, at, raised, unseen) =
      (s, reached, stops_later d d' reached done ss (some s) runs at, raised, unseen)
  Ran-after d d' done ss (some other_failure, last) runs (s, reached, at, raised) =
      (s, reached, stops_later d d' reached done ss (some s) runs at, raised)
  Ran-after d d' done ss (some unreadable, last) runs at =
      stops_later d d' last done ss none runs at
  Ran-after d d' done ss (some unable_to_connect, last) runs ran = ran

  -- Work that stops does nothing of what comes after.
  Ran-before :
      (d last : D) (ss more : List (Option String)) (e : Failure)
      → Ran d ss (some e, last)
      → Ran d (ss ++ more) (some e, last)
  Ran-before d last ss more (invalid_statement text) (s, reached, at, raised, unseen) =
      (s, reached, stops_before d reached ss more (some s) at, raised, unseen)
  Ran-before d last ss more other_failure (s, reached, at, raised) =
      (s, reached, stops_before d reached ss more (some s) at, raised)
  Ran-before d last ss more unreadable at = stops_before d last ss more none at
  Ran-before d last ss more unable_to_connect ran = ran

  -- The statement `s` is the first that is run.
  stops_here :
      (d : D) (s : Option String) (later : List (Option String)) → StopsAt d (s ∷ later) s d
  stops_here d s later = ([], later, refl, nothing_left d)

  statement-Ran :
      (x : Execution D) (d : D) (s : String) (rest : List String)
      → execute d s ≡ x
      → ((d' : D) → Ran d' (map some rest) (apply_statements execute d' rest))
      → Ran d (map some (s ∷ rest)) (apply_statements execute d (s ∷ rest))
  unfolding apply_statements
  statement-Ran (executed d') d s rest e ran =
      rw (e, apply_statements)
        (Ran-after d d' (some s ∷ []) (map some rest) _ (returned d d' d' s [] e (nothing_left d'))
          (ran d'))
  statement-Ran (invalid_request text d') d s rest e ran =
      elim (Bool-cases (is_in already_exists text)) [
        | inl seen ↦
            rw (e, apply_statements)
              (rw seen (
                Ran-after d d' (some s ∷ []) (map some rest) _
                  (skipped d d' d' text s [] e seen (nothing_left d')) (ran d')))
        | inr unseen ↦
            rw (e, apply_statements)
              (rw unseen (s, d, stops_here d (some s) (map some rest), e, unseen))
      ]
  statement-Ran (other_error d') d s rest e ran =
      rw (e, apply_statements) (s, d, stops_here d (some s) (map some rest), e)

  apply_statements-Ran :
      (ss : List String) (d : D) → Ran d (map some ss) (apply_statements execute d ss)
  unfolding apply_statements
  apply_statements-Ran [] d = nothing_left d
  apply_statements-Ran (s ∷ rest) d =
      statement-Ran (execute d s) d s rest refl (apply_statements-Ran rest)

  after_migration-Ran :
      (first : Option Failure × D) (d : D) (done rest : List (Option String))
      (next : D → Option Failure × D)
      → Ran d done first
      → ((d' : D) → Ran d' rest (next d'))
      → Ran d (done ++ rest) (after_migration first next)
  unfolding after_migration
  after_migration-Ran (some failure, d') d done rest next ran later =
      Ran-before d d' done rest failure ran
  after_migration-Ran (none, d') d done rest next ran later =
      Ran-after d d' done rest (next d') ran (later d')

  apply_migrations-Ran :
      (migrations : List (Option (List String))) (d : D)
      → Ran d (work_of migrations) (apply_migrations execute d migrations)
  unfolding apply_migrations
  apply_migrations-Ran [] d = nothing_left d
  apply_migrations-Ran (none ∷ rest) d = stops_here d none (work_of rest)
  apply_migrations-Ran (some lines ∷ rest) d =
      let done = map some (parse_statements lines) in
      after_migration-Ran _ d done (work_of rest) _
        (apply_statements-Ran (parse_statements lines) d) (apply_migrations-Ran rest)

  -- What is left when the connecting loop found an attempt, or found none.
  abbrev pub HasEnded :
      (ℕ → Attempt) → List (Option (List String)) → D → Option ℕ → Ending D → Type 0
  HasEnded tries migrations d none ending =
      IsFirst tries 30 1 none
      × (ending.failure ≡ some unable_to_connect)
      × (ending.database ≡ d)
      × (ending.shut_down ≡ [])
  HasEnded tries migrations d (some n) ending =
      IsFirst tries 30 1 (some n)
      × Ran d (work_of migrations) (ending.failure, ending.database)
      × (ending.shut_down ≡ n ∷ [])

  after_connecting-HasEnded :
      (tries : ℕ → Attempt) (migrations : List (Option (List String))) (d : D) (found : Option ℕ)
      (made : List ℕ)
      → IsFirst tries 30 1 found
      → HasEnded tries migrations d found (after_connecting execute found made migrations d)
  unfolding after_connecting
  after_connecting-HasEnded tries migrations d none made first = (first, refl, refl, refl)
  after_connecting-HasEnded tries migrations d (some n) made first =
      (first, apply_migrations-Ran migrations d, refl)

  -- `main` connects at the first of its 30 attempts that does. It then runs the statements of the
  -- migrations in their order, those that already exist skipped, to the end or to the first that
  -- raises or the first file that cannot be read, and shuts the cluster down, either way. When no
  -- attempt connects, it raises, with the database as it was and no cluster shut down.
  pub main-HasEnded :
      (tries : ℕ → Attempt) (migrations : List (Option (List String))) (d : D)
      → HasEnded tries migrations d ((attempts tries 30 1 []).0) (main execute tries migrations d)
  unfolding main
  main-HasEnded tries migrations d =
      after_connecting-HasEnded tries migrations d _ _ (attempts-IsFirst tries 30 1 [])
