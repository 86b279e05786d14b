-- ===== src/Tests/Handling.antt =====
-- The channels, the scripts, the dump and the report: the theorems at small inputs. The toy database of a script is the
-- list of the statements that ran, and refuses the statement `X`.
use baste.Prelude.{
  arith, ◌≡◌, ◌↔◌, refl, if◌then◌else◌, Bool, true, false, Option, none, some, List, [], ◌∷◌, ◌++◌,
  keep,
}
use baste.Text.{Text, text_eq}
use baste.Text.Lines.{splitlines, strip, lstrip, is_empty, is_space, is_line_break}
use baste.Exec.{ok}
use baste.ForcedJoin.{MemberStatus, user_has_joined_all, forced_channels_of}
use baste.Table.Keys.{IsKeyed}
use baste.ForcedJoin.Joined.{Absent, InAll, user_has_joined_all_lem}
use baste.Charge.{mem_text}
use baste.Migrator.{
  Script, State, run_migrations, run_statements, pending, is_nil, split_statements, run_pending,
  run_script, record_script, commit_script, insert_name, script_lines, is_comment, join_lines,
  to_first, split_semicolons,
}
use baste.Migrator.Once.{Stopped, run_migrations_twice, run_migrations-Stopped}
use baste.Backup.{
  Tables, Row, create_backup_dict, dump_tables, get_rows, no_columns, tables_in_dependency_order,
  restore_from_dict,
}
use baste.Backup.RoundTrip.{IsTaken, restore_from_dict-create_backup_dict}
use baste.Schema.{Db, OrderStatus}
use baste.Reports.{SalesSummary, reseller_sales_summary, reseller_sales, sum_of}
use baste.Reports.Profit.{profit_of, reseller_sales_summary-profit}
use baste.Tests.Data.{order_1, text_a, shop}

abbrev chat : Text → Option MemberStatus
chat channel = some MemberStatus.left

channels-IsKeyed : IsKeyed shop.forced_channels
channels-IsKeyed = omega arith

user_has_joined_all_lem_example :
    (passes : Bool) × (out : List Text) × (user_has_joined_all chat 1 shop
      ≡ (ok (passes, out), shop))
    × Absent chat (forced_channels_of 1 shop) out
    × ((passes ≡ true) ↔ InAll chat 1 shop)
user_has_joined_all_lem_example = user_has_joined_all_lem chat 1 shop channels-IsKeyed

abbrev toy : Text → List Text → Option (List Text)
toy statement ran = if text_eq statement (b'X' ∷ []) then none else some (ran ++ statement ∷ [])

abbrev undo : List Text → List Text → List Text
undo before reached = reached

abbrev first_script : Script
first_script = record { name = b'1' ∷ []; text = b'A' ∷ b';' ∷ [] }

abbrev bad_script : Script
bad_script = record { name = b'2' ∷ []; text = b'X' ∷ b';' ∷ [] }

abbrev known : State (List Text)
known = record { schema = []; applied = (b'0' ∷ []) ∷ [] }

runs : (run_migrations toy undo (first_script ∷ []) known).0 ≡ true
unfolding run_migrations run_pending run_script run_statements record_script commit_script
    insert_name pending keep split_statements script_lines is_comment join_lines to_first
    split_semicolons splitlines strip lstrip is_empty is_space is_line_break mem_text text_eq is_nil
runs = refl

run_migrations_twice_example :
    run_migrations toy undo
      (first_script ∷ [])
      (run_migrations toy undo (first_script ∷ []) known).1
    ≡ (true, (run_migrations toy undo (first_script ∷ []) known).1)
run_migrations_twice_example = run_migrations_twice toy undo (first_script ∷ []) known runs

known_names : is_nil known.applied ≡ false
unfolding is_nil
known_names = refl

stops : (run_migrations toy undo (first_script ∷ bad_script ∷ []) known).0 ≡ false
unfolding run_migrations run_pending run_script run_statements record_script commit_script
    insert_name pending keep split_statements script_lines is_comment join_lines to_first
    split_semicolons splitlines strip lstrip is_empty is_space is_line_break mem_text text_eq is_nil
stops = refl

run_migrations-Stopped_example :
    Stopped toy undo
      (pending known.applied (first_script ∷ bad_script ∷ []))
      known
      (run_migrations toy undo (first_script ∷ bad_script ∷ []) known).1
run_migrations-Stopped_example =
    run_migrations-Stopped toy undo (first_script ∷ bad_script ∷ []) known known_names stops

-- A database with one row in every table, a column `A` of the value `A`, and one without rows.
abbrev full : Tables
full t = ((text_a, text_a) ∷ []) ∷ []

abbrev blank : Tables
blank t = []

abbrev any_row : Text → Row → Bool
any_row t row = true

full-IsTaken : IsTaken any_row (create_backup_dict full) tables_in_dependency_order
unfolding create_backup_dict dump_tables get_rows text_eq no_columns
full-IsTaken = ground arith

restore_from_dict-create_backup_dict_example :
    (d' : Tables) × (restore_from_dict any_row (create_backup_dict full) blank ≡ (true, d'))
    × ((t : Text) → d' t ≡ (if mem_text t tables_in_dependency_order then full t else blank t))
restore_from_dict-create_backup_dict_example =
    restore_from_dict-create_backup_dict any_row full blank full-IsTaken

-- Order 3 is an activated order of the shop.
abbrev sold_shop : Db
sold_shop = record shop {
  orders = record {
    rows = (3, record order_1 { status = OrderStatus.activated }) ∷ [];
    next_id = 4;
  };
}

reseller_sales_summary-profit_example :
    (summary : SalesSummary) × (reseller_sales_summary 60 1 30 sold_shop ≡ (ok summary, sold_shop))
    × (summary.orders ≡ reseller_sales 60 1 30 sold_shop)
    × (summary.real_profit ≡ sum_of profit_of summary.orders)
reseller_sales_summary-profit_example = reseller_sales_summary-profit 60 1 30 sold_shop
