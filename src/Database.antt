-- ===== src/Database.antt =====
-- The relational database behind SQLAlchemy, which app/models.py queries and app/db.py opens. It is
-- not part of the repository: a table is the list of its rows, and `select` is what the database
-- answers to a query, a rearrangement of the rows that the WHERE clause keeps, in the order of the
-- ORDER BY clause. The order of rows that tie is left open.
pub mod Memory
pub mod Query
pub mod Latest
use mathlib.Core.List.{Perm, Pairwise}
use netplex_support.Prelude.{ℕ, ◌≡◌, ◌⊎◌, Bool, true, Option, none, some, List, [], ◌∷◌, keep, take}
use netplex_support.Http.{Reply, ok, crash}

pub record IsOrder {R : Type 0} (before : R → R → Bool) : Type 0 where
  pub total : (a b : R) → (before a b ≡ true) ⊎ (before b a ≡ true)
  pub trans : (a b c : R) → before a b ≡ true → before b c ≡ true → before a c ≡ true

pub record Database : Type 1 where
  pub select : {R : Type 0} → (R → Bool) → (R → R → Bool) → List R → List R
  pub select-perm :
      {R : Type 0} (test : R → Bool) (before : R → R → Bool) (rows : List R)
      → Perm (select test before rows) (keep test rows)
  pub select-sorted :
      {R : Type 0} (test : R → Bool) (before : R → R → Bool) (rows : List R)
      → IsOrder before
      → Pairwise (λ a b. before a b ≡ true) (select test before rows)

-- .scalar_one_or_none(): MultipleResultsFound where there is more than one row
abbrev pub scalar_one_or_none : {R : Type 0} → List R → Reply (Option R)
scalar_one_or_none [] = ok none
scalar_one_or_none (x ∷ []) = ok (some x)
scalar_one_or_none (x ∷ y ∷ rows) = crash

-- .limit(1), then .scalar_one_or_none(), which then never finds more than one
abbrev pub first_row : {R : Type 0} → List R → Option R
first_row [] = none
first_row (x ∷ rows) = some x
