-- ===== src/Migration/Columns.antt =====
-- Which columns the tables have after the migration of app/db.py.
use netplex_support.Prelude.{
  String, Bool, true, false, ◌&&◌, ◌||◌, [], ◌∷◌, ◌++◌, ◌≡◌, inl, inr, refl, sym, ap, ◌∙◌, any,
  any-append, lookup, lookup-insert, Bool-cases, ◌==◌, if◌then◌else◌, arith, eq_iff,
}
use mathlib.Core.Option.{get_or}
use netplex_support.Migration.{
  Schema, Ddl, get_columns, is_given, has_table, has_column, with_column, additive_columns,
  add_columns, add_to_tables, add_missing_columns,
}

-- Whether the migration is about a column.
abbrev pub is_additive : String → String → Bool
is_additive table name = any (λ c. c.0 == name) (get_or (lookup table additive_columns) [])

has_column-with_column :
    (table asked name column : String) (s : Schema)
    → has_column asked column (with_column table name s)
      ≡ (has_column asked column s || (table == asked && name == column))
unfolding has_column with_column
has_column-with_column table asked name column s = elim (Bool-cases (table == asked)) [
  | inl e ↦
      let same : table ≡ asked = (eq_iff table asked).0 e in
      rw (lookup-insert table asked (get_columns table s ++ name ∷ []) s, e, same)
        (any-append (λ c. c == column) (get_columns asked s) (name ∷ []) ∙ ground arith)
  | inr e ↦ rw (lookup-insert table asked (get_columns table s ++ name ∷ []) s, e) (ground arith)
]

has_table-with_column :
    (table name asked : String) (s : Schema)
    → has_table table s ≡ true
    → has_table asked (with_column table name s) ≡ has_table asked s
unfolding has_table with_column
has_table-with_column table name asked s listed = elim (Bool-cases (table == asked)) [
  | inl e ↦
      let same : table ≡ asked = (eq_iff table asked).0 e in
      rw (lookup-insert table asked (get_columns table s ++ name ∷ []) s, e)
        (sym listed ∙ ap (λ t. is_given (lookup t s)) same)
  | inr e ↦ rw (lookup-insert table asked (get_columns table s ++ name ∷ []) s, e) refl
]

-- The table with a column, which it may have already.
abbrev ensured : String → String → Schema → Schema
ensured table name s = if has_column table name s then s else with_column table name s

added :
    (d : Ddl) (table name coltype : String) (s : Schema) (known : Bool)
    → has_table table s ≡ true
    → known ≡ has_column table name s
    → (if known then s else get_or (d.alter table name coltype s) s) ≡ ensured table name s
added d table name coltype s known listed e = elim (Bool-cases (has_column table name s)) [
  | inl here ↦ rw (e, here) refl
  | inr gone ↦ rw (e, gone, d.alter-adds table name coltype s listed gone) refl
]

has_column-ensured :
    (table asked name column : String) (s : Schema)
    → has_column asked column (ensured table name s)
      ≡ (has_column asked column s || (table == asked && name == column))
has_column-ensured table asked name column s = elim (Bool-cases (has_column table name s)) [
  | inr gone ↦ rw gone (has_column-with_column table asked name column s)
  | inl here ↦ rw here (elim (Bool-cases (table == asked && name == column)) [
    | inr other ↦ rw other (ground arith)
    | inl both ↦
        let found : has_column asked column s ≡ true =
          ground (arith, both, here, eq_iff table asked, eq_iff name column) in
        rw (both, found) refl
  ])
]

has_table-ensured :
    (table name asked : String) (s : Schema)
    → has_table table s ≡ true
    → has_table asked (ensured table name s) ≡ has_table asked s
has_table-ensured table name asked s listed = elim (Bool-cases (has_column table name s)) [
  | inl here ↦ rw here refl
  | inr gone ↦ rw gone (has_table-with_column table name asked s listed)
]

-- The migration of a database that has a table of tickets.
add_missing_columns-tickets :
    (d : Ddl) (s : Schema)
    → has_table "tickets" s ≡ true
    → add_missing_columns d s
      ≡ ensured "tickets" "diagnostic_json" (ensured "tickets" "attachments" s)
unfolding add_missing_columns add_to_tables add_columns has_column
add_missing_columns-tickets d s listed =
    let one = added d "tickets" "attachments" "TEXT" s _ listed refl in
    let still = has_table-ensured "tickets" "attachments" "tickets" s listed ∙ listed in
    let known : has_column "tickets" "diagnostic_json" (ensured "tickets" "attachments" s)
        ≡ has_column "tickets" "diagnostic_json" s =
      has_column-ensured "tickets" "tickets" "attachments" "diagnostic_json" s ∙ ground arith in
    let two =
      added d "tickets" "diagnostic_json" "TEXT" (ensured "tickets" "attachments" s) _ still
        (sym known) in
    rw (listed, one) two

add_missing_columns-none :
    (d : Ddl) (s : Schema) → has_table "tickets" s ≡ false → add_missing_columns d s ≡ s
unfolding add_missing_columns add_to_tables
add_missing_columns-none d s absent = rw absent refl

-- Two columns that are there need no migration.
add_missing_columns-settled :
    (d : Ddl) (s : Schema)
    → has_table "tickets" s ≡ true
    → has_column "tickets" "attachments" s ≡ true
    → has_column "tickets" "diagnostic_json" s ≡ true
    → add_missing_columns d s ≡ s
add_missing_columns-settled d s listed one two =
    add_missing_columns-tickets d s listed ∙ rw (one, two) refl

-- The migration is about two columns of one table.
is_additive_lem :
    (table name : String) (s : Schema)
    → (has_table table s && is_additive table name) ≡ (
        has_table "tickets" s
        && ("tickets" == table && ("attachments" == name || "diagnostic_json" == name)))
is_additive_lem table name s = elim (Bool-cases ("tickets" == table)) [
  | inl e ↦
      let same : "tickets" ≡ table = (eq_iff "tickets" table).0 e in rw (e, ← same) (ground arith)
  | inr e ↦ rw e (ground arith)
]

-- The columns after the migration.
columns_after :
    (d : Ddl) (s : Schema) (table name : String)
    → has_column table name (add_missing_columns d s)
      ≡ (has_column table name s || (has_table table s && is_additive table name))
columns_after d s table name =
    rw (is_additive_lem table name s) (elim (Bool-cases (has_table "tickets" s)) [
      | inr absent ↦ rw (add_missing_columns-none d s absent, absent) (ground arith)
      | inl listed ↦
          let first = ensured "tickets" "attachments" s in
          rw
            (
              add_missing_columns-tickets d s listed,
              listed,
              has_column-ensured "tickets" table "diagnostic_json" name first,
              has_column-ensured "tickets" table "attachments" name s,
            )
            (ground arith)
    ])

table_after :
    (d : Ddl) (s : Schema)
    → has_table "tickets" s ≡ true
    → has_table "tickets" (add_missing_columns d s) ≡ true
table_after d s listed =
    let first = has_table-ensured "tickets" "attachments" "tickets" s listed ∙ listed in
    rw (add_missing_columns-tickets d s listed) (
      has_table-ensured "tickets" "diagnostic_json" "tickets" (ensured "tickets" "attachments" s)
        first
      ∙ first)

-- After the migration, a table has the columns that it had, and, if the table was there, those that
-- the migration is about for it, and no others; and to run it once more changes nothing.
pub add_missing_columns-adds :
    (d : Ddl) (s : Schema)
    → ((table name : String)
        → has_column table name (add_missing_columns d s)
          ≡ (has_column table name s || (has_table table s && is_additive table name)))
      × (add_missing_columns d (add_missing_columns d s) ≡ add_missing_columns d s)
add_missing_columns-adds d s = (
  columns_after d s,
  elim (Bool-cases (has_table "tickets" s)) [
    | inr absent ↦ let same = add_missing_columns-none d s absent in ap (add_missing_columns d) same
    | inl listed ↦
        add_missing_columns-settled d (add_missing_columns d s) (table_after d s listed)
          (columns_after d s "tickets" "attachments" ∙ rw listed (ground arith))
          (columns_after d s "tickets" "diagnostic_json" ∙ rw listed (ground arith))
  ],
)
