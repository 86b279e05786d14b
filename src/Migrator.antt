-- ===== src/Migrator.antt =====
-- database/migrator.py: the scripts of database/migrations/, each run once. The database that runs a
-- statement is a parameter, and so is what a rollback leaves of a script that failed half way, since
-- MySQL commits a DDL statement at once.
pub mod Names
pub mod Once
use baste.Prelude.{
  ℕ, Bool, true, false, not, Option, none, some, List, [], ◌∷◌, ◌++◌, ◌==◌, if◌then◌else◌, map,
  keep,
}
use baste.Text.{Text}
use baste.Text.Lines.{splitlines, strip, is_empty}
use baste.Charge.{mem_text}

-- `stripped.startswith("--")`
unfoldable pub is_comment : Text → Bool
is_comment [] = false
is_comment (c ∷ []) = false
is_comment (c ∷ (d ∷ t)) = if c == b'-' then d == b'-' else false

-- The loop over the lines: the lines that are kept.
unfoldable pub script_lines : List Text → List Text
unfolding is_comment strip is_empty
script_lines [] = []
script_lines (line ∷ rest) =
    let more = script_lines rest in
    if is_comment (strip line) then more else if is_empty (strip line) then more else line ∷ more

-- `"\n".join(lines)`
unfoldable pub join_lines : List Text → Text
join_lines [] = []
join_lines (l ∷ []) = l
join_lines (l ∷ (k ∷ rest)) = l ++ 0x0a ∷ join_lines (k ∷ rest)

unfoldable pub to_first : ℕ → List Text → List Text
to_first c [] = (c ∷ []) ∷ []
to_first c (s ∷ rest) = (c ∷ s) ∷ rest

-- `cleaned.split(";")`
unfoldable pub split_semicolons : Text → List Text
unfolding to_first
split_semicolons [] = [] ∷ []
split_semicolons (c ∷ t) =
    let more = split_semicolons t in if c == b';' then [] ∷ more else to_first c more

unfoldable pub split_statements : Text → List Text
unfolding script_lines join_lines split_semicolons
split_statements sql_text =
    keep (λ s. not (is_empty s))
      (map strip (split_semicolons (join_lines (script_lines (splitlines sql_text)))))

pub record Script : Type 0 where
  pub name : Text
  pub text : Text

-- The database: `applied` are the names in schema_migrations, the rest is `schema`.
pub record State (S : Type 0) : Type 0 where
  pub schema : S
  pub applied : List Text

-- INSERT INTO schema_migrations; the name is its primary key.
unfoldable pub insert_name : Text → List Text → Option (List Text)
insert_name name applied = if mem_text name applied then none else some (applied ++ name ∷ [])

-- The first run, over scripts that were applied by hand: their names are inserted in one transaction.
unfoldable pub insert_baseline : List Script → List Text → Option (List Text)
insert_baseline [] applied = some applied
insert_baseline (f ∷ rest) applied = elim (insert_name f.name applied) [
  | none ↦ none
  | some more ↦ insert_baseline rest more
]

-- The scripts whose names are not in the table.
unfoldable pub pending : List Text → List Script → List Script
pending applied all_files = keep (λ f. not (mem_text f.name applied)) all_files

unfoldable pub is_nil : List Text → Bool
is_nil [] = true
is_nil (_ ∷ _) = false

module _ {S : Type 0} (run : Text → S → Option S) (rollback : S → S → S) where
  -- The statements of a script, until one raises.
  unfoldable pub run_statements : List Text → S → Bool × S
  run_statements [] s = (true, s)
  run_statements (stmt ∷ rest) s = elim (run stmt s) [
    | none ↦ (false, s)
    | some s' ↦ run_statements rest s'
  ]

  unfoldable pub commit_script : State S → S → Option (List Text) → Bool × State S
  commit_script m s none = (false, record m { schema = rollback m.schema s })
  commit_script m s (some more) = (true, record { schema = s; applied = more })

  -- `false` where an exception was raised.
  unfoldable pub record_script : Script → State S → Bool × S → Bool × State S
  unfolding commit_script
  record_script f m (false, s) = (false, record m { schema = rollback m.schema s })
  record_script f m (true, s) = commit_script m s (insert_name f.name m.applied)

  unfoldable pub run_script : Script → State S → Bool × State S
  unfolding run_statements record_script
  run_script f m = record_script f m (run_statements (split_statements f.text) m.schema)

  unfoldable pub run_pending : List Script → State S → Bool × State S
  run_pending [] m = (true, m)
  run_pending (f ∷ rest) m =
      let ran = run_script f m in
      elim ran.0 [ true ↦ run_pending rest ran.1 | false ↦ (false, ran.1) ]

  unfoldable pub baseline : Option (List Text) → State S → Bool × State S
  baseline none m = (false, m)
  baseline (some names) m = (true, record m { applied = names })

  -- `all_files` is the sorted content of the folder, empty where there is none.
  unfoldable pub run_migrations : List Script → State S → Bool × State S
  unfolding baseline is_nil pending run_pending
  run_migrations [] m = (true, m)
  run_migrations (f ∷ files) m = elim (is_nil m.applied) [
    | true ↦ baseline (insert_baseline (f ∷ files) []) m
    | false ↦ run_pending (pending m.applied (f ∷ files)) m
  ]
