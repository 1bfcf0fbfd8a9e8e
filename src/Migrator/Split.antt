-- ===== src/Migrator/Split.antt =====
-- What the splitting of a migration keeps.
use Prim.Native.Char.{Char, code}
use smart_warehouse_platform.Processor.Checks.{is_space}
use smart_warehouse_platform.Prelude.{
  ◌⊎◌, String, ◌≡◌, refl, sym, subst, Bool, true, false, List, [], ◌∷◌, ◌++◌, Bool-cases, inl, inr,
  ap, ◌∙◌,
}
use smart_warehouse_platform.Migrator.{
  strip_start, strip_end, is_comment, is_empty, strip, is_skipped, ends_statement, join_lines,
  without_semicolons, parse_lines, parse_statements,
}

-- Two dashes at the start of a line.
abbrev pub IsComment : String → Type 0
IsComment (String.◌∷◌ c (String.◌∷◌ d line)) = (code c ≡ 0x2d) × (code d ≡ 0x2d)
IsComment _ = ⊥

-- A line of white space only, or a comment after white space.
abbrev pub IsIgnored : String → Type 0
IsIgnored String.[] = Unit
IsIgnored (String.◌∷◌ c line) =
    ((is_space (code c) ≡ true) × IsIgnored line) ⊎ IsComment (String.◌∷◌ c line)

dash-is_space : (c : Char) → code c ≡ 0x2d → is_space (code c) ≡ false
dash-is_space c h = subst (λ n. is_space n ≡ false) (sym h) refl

strip_start-no_space :
    (c : Char) (s : String)
    → is_space (code c) ≡ false
    → strip_start (String.◌∷◌ c s) ≡ String.◌∷◌ c s
unfolding strip_start
strip_start-no_space c s h = rw h refl

strip_end-kept :
    (test : Char → Bool) (c : Char) (s : String)
    → test c ≡ false
    → strip_end test (String.◌∷◌ c s) ≡ String.◌∷◌ c (strip_end test s)
unfolding strip_end
strip_end-kept test c s h = elim (Bool-cases (is_empty (strip_end test s))) [
  | inl e ↦ rw e (rw h refl)
  | inr e ↦ rw e refl
]

strip-comment :
    (c d : Char) (s : String)
    → code c ≡ 0x2d
    → code d ≡ 0x2d
    → strip (String.◌∷◌ c (String.◌∷◌ d s))
      ≡ String.◌∷◌ c (String.◌∷◌ d (strip_end (λ x. is_space (code x)) s))
unfolding strip
strip-comment c d s first next =
    let test : Char → Bool = λ x. is_space (code x) in
    ap (strip_end test) (strip_start-no_space c (String.◌∷◌ d s) (dash-is_space c first))
    ∙ strip_end-kept test c (String.◌∷◌ d s) (dash-is_space c first)
    ∙ ap (String.◌∷◌ c) (strip_end-kept test d s (dash-is_space d next))

IsComment-skipped : (line : String) → IsComment line → is_skipped line ≡ true
unfolding is_skipped is_comment
IsComment-skipped (String.◌∷◌ c (String.◌∷◌ d s)) (first, next) =
    rw (strip-comment c d s first next) (rw first (rw next refl))
IsComment-skipped String.[] h = absurd h
IsComment-skipped (String.◌∷◌ c String.[]) h = absurd h

space-skipped :
    (c : Char) (line : String)
    → is_space (code c) ≡ true
    → is_skipped (String.◌∷◌ c line) ≡ is_skipped line
unfolding is_skipped strip strip_start
space-skipped c line e = rw e refl

IsIgnored-skipped : (line : String) → IsIgnored line → is_skipped line ≡ true
unfolding is_skipped strip strip_start strip_end
IsIgnored-skipped String.[] h = refl
IsIgnored-skipped (String.◌∷◌ c line) (inl (e, h)) =
    space-skipped c line e ∙ IsIgnored-skipped line h
IsIgnored-skipped (String.◌∷◌ c line) (inr comment) = IsComment-skipped (String.◌∷◌ c line) comment

parse_lines-skipped :
    (current before : List String) (line : String) (later : List String)
    → is_skipped line ≡ true
    → parse_lines current (before ++ line ∷ later) ≡ parse_lines current (before ++ later)
unfolding parse_lines
parse_lines-skipped current [] line later h = rw h refl
parse_lines-skipped current (first ∷ before) line later h = elim (Bool-cases (is_skipped first)) [
  | inl e ↦ rw e (parse_lines-skipped current before line later h)
  | inr e ↦ elim (Bool-cases (ends_statement (strip first))) [
    | inl ends ↦ rw e (rw ends (rw (parse_lines-skipped [] before line later h) refl))
    | inr goes_on ↦
        rw e (rw goes_on (parse_lines-skipped (current ++ first ∷ []) before line later h))
  ]
]

-- A line of white space, or a comment of two dashes after any white space, can be put anywhere into a
-- migration, or be taken out, also within a statement: the statements are the same.
pub parse_statements-IsIgnored :
    (before : List String) (line : String) (later : List String)
    → IsIgnored line
    → parse_statements (before ++ line ∷ later) ≡ parse_statements (before ++ later)
unfolding parse_statements
parse_statements-IsIgnored before line later h =
    parse_lines-skipped [] before line later (IsIgnored-skipped line h)

-- A statement's text, from its lines.
abbrev pub statement_of : List String → String
statement_of lines = without_semicolons (strip (join_lines lines))

abbrev pub AreContinued : List String → Type 0
AreContinued [] = Unit
AreContinued (line ∷ lines) =
    (is_skipped line ≡ false) × (ends_statement (strip line) ≡ false) × AreContinued lines
