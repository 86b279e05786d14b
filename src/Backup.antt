-- ===== src/Backup.antt =====
-- services/backup_service.py: the dump of the listed tables, and its restore in one transaction. A row
-- is its list of columns and values; reading and writing the JSON file is left out. Which rows a table
-- accepts, with the foreign keys off, is a parameter.
pub mod RoundTrip
use baste.Prelude.{
  ℕ, Bool, true, false, not, Option, none, some, List, [], ◌∷◌, ◌++◌, if◌then◌else◌, ltb, length,
  keep,
}
use baste.Text.{Text, text_eq}
use mathlib.Core.List.{reverse}
use baste.Charge.{mem_text}

abbrev pub tables_in_dependency_order : List Text
tables_in_dependency_order =
    (b'r' ∷ b'e' ∷ b's' ∷ b'e' ∷ b'l' ∷ b'l' ∷ b'e' ∷ b'r' ∷ b's' ∷ [])
    ∷ (b'r' ∷ b'e' ∷ b's' ∷ b'e' ∷ b'l' ∷ b'l' ∷ b'e' ∷ b'r' ∷ b'_' ∷ b'o' ∷ b'p' ∷ b'e' ∷ b'r'
        ∷ b'a' ∷ b't' ∷ b'o' ∷ b'r' ∷ b's' ∷ [])
    ∷ (b'w' ∷ b'a' ∷ b'l' ∷ b'l' ∷ b'e' ∷ b't' ∷ b'_' ∷ b't' ∷ b'r' ∷ b'a' ∷ b'n' ∷ b's' ∷ b'a'
        ∷ b'c' ∷ b't' ∷ b'i' ∷ b'o' ∷ b'n' ∷ b's' ∷ [])
    ∷ (b'c' ∷ b'a' ∷ b't' ∷ b'e' ∷ b'g' ∷ b'o' ∷ b'r' ∷ b'i' ∷ b'e' ∷ b's' ∷ [])
    ∷ (b'p' ∷ b'a' ∷ b'c' ∷ b'k' ∷ b'a' ∷ b'g' ∷ b'e' ∷ b's' ∷ [])
    ∷ (b'c' ∷ b'u' ∷ b's' ∷ b't' ∷ b'o' ∷ b'm' ∷ b'e' ∷ b'r' ∷ b's' ∷ [])
    ∷ (b'o' ∷ b'r' ∷ b'd' ∷ b'e' ∷ b'r' ∷ b's' ∷ [])
    ∷ (b'd' ∷ b'i' ∷ b's' ∷ b'p' ∷ b'u' ∷ b't' ∷ b'e' ∷ b's' ∷ [])
    ∷ (b'a' ∷ b'c' ∷ b't' ∷ b'i' ∷ b'v' ∷ b'i' ∷ b't' ∷ b'y' ∷ b'_' ∷ b'l' ∷ b'o' ∷ b'g' ∷ b's'
        ∷ [])
    ∷ (b'c' ∷ b'a' ∷ b't' ∷ b'e' ∷ b'g' ∷ b'o' ∷ b'r' ∷ b'y' ∷ b'_' ∷ b'p' ∷ b'r' ∷ b'i' ∷ b'c'
        ∷ b'e' ∷ b'_' ∷ b'f' ∷ b'l' ∷ b'o' ∷ b'o' ∷ b'r' ∷ b's' ∷ [])
    ∷ (b'd' ∷ b'i' ∷ b's' ∷ b'c' ∷ b'o' ∷ b'u' ∷ b'n' ∷ b't' ∷ b'_' ∷ b'c' ∷ b'o' ∷ b'd' ∷ b'e'
        ∷ b's' ∷ [])
    ∷ (b'r' ∷ b'e' ∷ b'f' ∷ b'e' ∷ b'r' ∷ b'r' ∷ b'a' ∷ b'l' ∷ b's' ∷ [])
    ∷ (b'r' ∷ b'e' ∷ b'f' ∷ b'e' ∷ b'r' ∷ b'r' ∷ b'a' ∷ b'l' ∷ b'_' ∷ b'l' ∷ b'i' ∷ b'n' ∷ b'k'
        ∷ b's' ∷ [])
    ∷ (b'f' ∷ b'o' ∷ b'r' ∷ b'c' ∷ b'e' ∷ b'd' ∷ b'_' ∷ b'j' ∷ b'o' ∷ b'i' ∷ b'n' ∷ b'_' ∷ b'c'
        ∷ b'h' ∷ b'a' ∷ b'n' ∷ b'n' ∷ b'e' ∷ b'l' ∷ b's' ∷ [])
    ∷ (b'b' ∷ b'l' ∷ b'a' ∷ b'c' ∷ b'k' ∷ b'l' ∷ b'i' ∷ b's' ∷ b't' ∷ [])
    ∷ (b'c' ∷ b'r' ∷ b'y' ∷ b'p' ∷ b't' ∷ b'o' ∷ b'_' ∷ b's' ∷ b'e' ∷ b't' ∷ b't' ∷ b'i' ∷ b'n'
        ∷ b'g' ∷ b's' ∷ [])
    ∷ (b'b' ∷ b'r' ∷ b'o' ∷ b'a' ∷ b'd' ∷ b'c' ∷ b'a' ∷ b's' ∷ b't' ∷ b's' ∷ [])
    ∷ (b'g' ∷ b'l' ∷ b'o' ∷ b'b' ∷ b'a' ∷ b'l' ∷ b'_' ∷ b's' ∷ b'e' ∷ b't' ∷ b't' ∷ b'i' ∷ b'n'
        ∷ b'g' ∷ b's' ∷ [])
    ∷ (b'c' ∷ b'h' ∷ b'a' ∷ b'r' ∷ b'g' ∷ b'e' ∷ b'_' ∷ b'c' ∷ b'o' ∷ b'd' ∷ b'e' ∷ b's' ∷ [])
    ∷ (b'b' ∷ b'a' ∷ b'c' ∷ b'k' ∷ b'u' ∷ b'p' ∷ b'_' ∷ b'l' ∷ b'o' ∷ b'g' ∷ b's' ∷ [])
    ∷ []

abbrev pub Row : Type 0
Row = List (Text × Text)

-- The database: the rows of a table, by its name.
abbrev pub Tables : Type 0
Tables = Text → List Row

-- The `tables` of a dump: a dict.
abbrev pub Dump : Type 0
Dump = List (Text × List Row)

unfoldable pub dump_tables : List Text → Tables → Dump
dump_tables [] d = []
dump_tables (t ∷ rest) d = (t, d t) ∷ dump_tables rest d

unfoldable pub create_backup_dict : Tables → Dump
unfolding dump_tables
create_backup_dict d = dump_tables tables_in_dependency_order d

unfoldable pub known_tables_found : Dump → List Text
unfolding mem_text
known_tables_found [] = []
known_tables_found ((t, _) ∷ rest) =
    let more = known_tables_found rest in
    if mem_text t tables_in_dependency_order then t ∷ more else more

-- The last test of `validate_backup_file`; the others are about the JSON.
unfoldable pub is_valid_backup : Dump → Bool
unfolding known_tables_found
is_valid_backup data_tables = not (ltb (length (known_tables_found data_tables)) 3)

-- `data["tables"].get(table, [])`
unfoldable pub get_rows : Text → Dump → List Row
get_rows t [] = []
get_rows t ((u, rows) ∷ rest) = if text_eq t u then rows else get_rows t rest

unfoldable pub set_table : Text → List Row → Tables → Tables
set_table t rows d u = if text_eq u t then rows else d u

-- DELETE FROM, for every table.
unfoldable pub clear_tables : List Text → Tables → Tables
unfolding set_table
clear_tables [] d = d
clear_tables (t ∷ rest) d = clear_tables rest (set_table t [] d)

unfoldable pub no_columns : Row → Bool
no_columns [] = true
no_columns (_ ∷ _) = false

-- The transaction: a restore that raises leaves the database as it was.
unfoldable pub commit_or_keep : Tables → Option Tables → Bool × Tables
commit_or_keep d none = (false, d)
commit_or_keep d (some d') = (true, d')

module _ (accepts : Text → Row → Bool) where
  -- The loop over the rows of a table; `none` where an INSERT raises.
  unfoldable pub insert_rows : Text → List Row → Tables → Option Tables
  unfolding no_columns set_table
  insert_rows t [] d = some d
  insert_rows t (row ∷ rest) d = elim (no_columns row) [
    | true ↦ insert_rows t rest d
    | false ↦ elim (accepts t row) [
      | true ↦ insert_rows t rest (set_table t (d t ++ row ∷ []) d)
      | false ↦ none
    ]
  ]

  unfoldable pub fill_tables : Dump → List Text → Tables → Option Tables
  unfolding insert_rows get_rows
  fill_tables data_tables [] d = some d
  fill_tables data_tables (t ∷ rest) d = elim (insert_rows t (get_rows t data_tables) d) [
    | none ↦ none
    | some d' ↦ fill_tables data_tables rest d'
  ]

  unfoldable pub restore_from_dict : Dump → Tables → Bool × Tables
  unfolding fill_tables clear_tables commit_or_keep
  restore_from_dict data_tables d = commit_or_keep d (
      fill_tables data_tables tables_in_dependency_order
        (clear_tables (reverse tables_in_dependency_order) d))
