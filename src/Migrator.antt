-- ===== src/Migrator.antt =====
-- migrator/apply_migrations.py: how a migration file is split into statements. Its lines are those
-- of `splitlines`.
pub mod Split
pub mod Main
pub mod Runs
use Prim.Native.Char.{Char, code}
use Prim.Native.String.{◌++◌ as push_str}
use smart_warehouse_platform.Prelude.{
  String, Bool, true, false, ◌&&◌, ◌||◌, List, [], ◌∷◌, ◌++◌, nat_beq, if◌then◌else◌,
}
use smart_warehouse_platform.Processor.Checks.{is_space, is_blank}

-- `s.strip()` without its end, and `s.rstrip` of the characters of a test.
unfoldable pub strip_start : String → String
strip_start String.[] = String.[]
strip_start (String.◌∷◌ c s) =
    let rest = strip_start s in if is_space (code c) then rest else String.◌∷◌ c s

abbrev pub is_empty : String → Bool
is_empty String.[] = true
is_empty (String.◌∷◌ c s) = false

unfoldable pub strip_end : (Char → Bool) → String → String
strip_end test String.[] = String.[]
strip_end test (String.◌∷◌ c s) =
    let rest = strip_end test s in if is_empty rest && test c then String.[] else String.◌∷◌ c rest

unfoldable pub strip : String → String
unfolding strip_start strip_end
strip s = strip_end (λ c. is_space (code c)) (strip_start s)

-- `line.startswith("--")`
unfoldable pub is_comment : String → Bool
is_comment (String.◌∷◌ c (String.◌∷◌ d s)) = nat_beq (code c) 0x2d && nat_beq (code d) 0x2d
is_comment _ = false

abbrev pub is_semicolon : Char → Bool
is_semicolon c = nat_beq (code c) 0x3b

-- `line.endswith(";")`
unfoldable pub ends_statement : String → Bool
ends_statement String.[] = false
ends_statement (String.◌∷◌ c s) =
    let rest = ends_statement s in if is_empty s then is_semicolon c else rest

-- `"\n".join(lines)`
unfoldable pub join_lines : List String → String
join_lines [] = ""
join_lines (line ∷ []) = line
join_lines (line ∷ rest) = push_str line (push_str "\n" (join_lines rest))

-- `line` is blank or a comment: `continue`.
unfoldable pub is_skipped : String → Bool
unfolding is_comment strip
is_skipped raw_line = is_empty (strip raw_line) || is_comment (strip raw_line)

abbrev pub without_semicolons : String → String
without_semicolons = strip_end is_semicolon

-- The loop, with the lines of the statement that is open.
unfoldable pub parse_lines : List String → List String → List String
unfolding is_skipped strip strip_end join_lines ends_statement
parse_lines current [] =
    let tail = strip (join_lines current) in
    if is_empty tail then [] else without_semicolons tail ∷ []
parse_lines current (raw_line ∷ rest) =
    let opened = current ++ raw_line ∷ [] in
    let skipped = parse_lines current rest in
    let closed = parse_lines [] rest in
    let continued = parse_lines opened rest in
    if is_skipped raw_line
    then skipped
    else if ends_statement (strip raw_line)
    then without_semicolons (strip (join_lines opened)) ∷ closed
    else continued

unfoldable pub parse_statements : List String → List String
unfolding parse_lines
parse_statements = parse_lines []
