-- ===== src/Migration.antt =====
-- app/db.py: the columns that start-up adds to a table from before the columns were introduced. The
-- schema of the database is its tables, each with the names of its columns. Running a statement is
-- SQLAlchemy's and the database's part; `none` is an exception, which the code catches.
mod Examples
pub mod Columns
use netplex_support.Prelude.{
  String, Bool, true, false, Option, none, some, List, [], ◌∷◌, ◌++◌, ◌≡◌, any, lookup, insert,
  ◌==◌, if◌then◌else◌,
}
use mathlib.Core.Option.{get_or}

abbrev pub Schema : Type 0
Schema = List (String × List String)

-- inspector.get_columns(table)
abbrev pub get_columns : String → Schema → List String
get_columns table s = get_or (lookup table s) []

abbrev pub is_given {ℓ} : {A : Type ℓ} → Option A → Bool
is_given none = false
is_given (some a) = true

-- table in existing_tables
unfoldable pub has_table : String → Schema → Bool
has_table table s = is_given (lookup table s)

-- name in existing_cols, for the columns of the table
unfoldable pub has_column : String → String → Schema → Bool
has_column table name s = any (λ c. c == name) (get_columns table s)

-- The schema with one more column of a table, at the end.
unfoldable pub with_column : String → String → Schema → Schema
with_column table name s = insert table (get_columns table s ++ name ∷ []) s

-- ALTER TABLE {table} ADD COLUMN {name} {coltype}, which adds a column that the table has not.
pub record Ddl : Type 0 where
  pub alter : String → String → String → Schema → Option (Schema)
  pub alter-adds :
      (table name coltype : String) (s : Schema)
      → has_table table s ≡ true
      → has_column table name s ≡ false
      → alter table name coltype s ≡ some (with_column table name s)

-- _ADDITIVE_COLUMNS
abbrev pub additive_columns : List (String × List (String × String))
additive_columns = ("tickets", ("attachments", "TEXT") ∷ ("diagnostic_json", "TEXT") ∷ []) ∷ []

-- The inner loop, over the columns to add to a table that has the columns `existing_cols`.
unfoldable pub add_columns : Ddl → String → List String → List (String × String) → Schema → Schema
add_columns d table existing_cols [] s = s
add_columns d table existing_cols ((name, coltype) ∷ columns) s =
    add_columns d table existing_cols columns
      (if any (λ c. c == name) existing_cols then s else get_or (d.alter table name coltype s) s)

-- The outer loop, over the tables with columns to add, in a database that had `before` at first.
unfoldable pub add_to_tables :
    Ddl → Schema → List (String × List (String × String)) → Schema → Schema
unfolding add_columns has_table
add_to_tables d before [] s = s
add_to_tables d before ((table, columns) ∷ tables) s =
    add_to_tables d before tables
      (if has_table table before then add_columns d table (get_columns table s) columns s else s)

-- _add_missing_columns
unfoldable pub add_missing_columns : Ddl → Schema → Schema
unfolding add_to_tables
add_missing_columns d s = add_to_tables d s additive_columns s
