-- ===== src/Migration/Examples.antt =====
-- A database whose tickets have a column of the two, and a table that the migration leaves alone.
use netplex_support.Prelude.{
  String, true, false, not, ◌&&◌, ◌||◌, Option, none, some, [], ◌∷◌, ◌≡◌, refl, if◌then◌else◌,
}
use netplex_support.Migration.{Schema, Ddl, has_table, has_column, with_column, add_missing_columns}
use netplex_support.Migration.Columns.{is_additive, add_missing_columns-adds}

-- A database that refuses to add a column to a table that is not there, or a second time.
abbrev add : String → String → String → Schema → Option Schema
add table name coltype s =
    if has_table table s && not (has_column table name s)
    then some (with_column table name s)
    else none

add-adds :
    (table name coltype : String) (s : Schema)
    → has_table table s ≡ true
    → has_column table name s ≡ false
    → add table name coltype s ≡ some (with_column table name s)
add-adds table name coltype s listed gone = rw (listed, gone) refl

abbrev sqlite : Ddl
sqlite = record { alter = add; alter-adds = add-adds }

abbrev old : Schema
old = ("tickets", "id" ∷ "attachments" ∷ []) ∷ ("licenses", "id" ∷ []) ∷ []

migration_test :
    add_missing_columns sqlite old
    ≡ ("tickets", "id" ∷ "attachments" ∷ "diagnostic_json" ∷ []) ∷ ("licenses", "id" ∷ []) ∷ []
unfolding add_missing_columns has_table has_column with_column
migration_test = refl

no_table_test : add_missing_columns sqlite [] ≡ []
unfolding add_missing_columns has_table
no_table_test = refl

add_missing_columns-adds_example :
    ((table name : String)
      → has_column table name (add_missing_columns sqlite old)
        ≡ (has_column table name old || (has_table table old && is_additive table name)))
    × (add_missing_columns sqlite (add_missing_columns sqlite old) ≡ add_missing_columns sqlite old)
add_missing_columns-adds_example = add_missing_columns-adds sqlite old
