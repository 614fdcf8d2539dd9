-- ===== src/Database/Latest.antt =====
-- The row with the highest id, among those that pass a test.
use mathlib.Core.List.{mem-append, mem-cons, not-mem-nil}
use mathlib.Core.Logic.Or
use netplex_support.Prelude.{
  ℕ, ◌<◌, ◌≡◌, refl, ap, inl, inr, Bool, true, false, some, List, [], ◌∷◌, ◌++◌, All, any,
  any-append, leb, Option-cases, arith,
}
use netplex_support.Database.{IsOrder, Database, first_row}
use netplex_support.Database.Query.{any_of_mem, first-select, none-select}

module _ {R : Type 0} (R-set : IsSet R) (id : R → ℕ) where
  abbrev pub higher : R → R → Bool
  higher a b = leb (id b) (id a)

  higher-IsOrder : IsOrder higher
  higher-IsOrder = record { total = λ a b. ground arith; trans = λ a b c p q. ground arith }

  none_higher :
      (n : ℕ) (rows : List R) → All (λ r. id r < n) rows → any (λ r. leb n (id r)) rows ≡ false
  none_higher n [] h = refl
  none_higher n (r ∷ rows) h = ground (arith, none_higher n rows, h.0, h.1)

  -- A row that is added with an id above all others is the one that is found.
  pub latest-add :
      (db : Database) (test : R → Bool) (rows : List R) (row : R)
      → All (λ r. id r < id row) rows
      → test row ≡ true
      → first_row (db.select test higher (rows ++ row ∷ [])) ≡ some row
  latest-add db test rows row below passes =
      elim (Option-cases (first_row (db.select test higher (rows ++ row ∷ [])))) [
        | inl e ↦
            let none_pass = (none-select db test higher (rows ++ row ∷ [])).0 e in
            let some_pass : any test (rows ++ row ∷ []) ≡ true =
              ground (arith, any-append test rows (row ∷ []), passes) in
            cc
        | inr (x, e) ↦
            let (stored, _, first) =
              first-select db test higher (rows ++ row ∷ []) x higher-IsOrder e in
            let last : leb (id row) (id x) ≡ true =
              first row (mem-append.1 (Or.inr (mem-cons.1 (Or.inl refl)))) passes in
            rw e (
              ap some (
                Or.elim (R-set x row) (mem-append.0 stored)
                  (λ m. cc (
                    none_higher (id row) rows below,
                    any_of_mem (λ r. leb (id row) (id r)) rows x m last,
                  ))
                  (λ m.
                    Or.elim (R-set x row) (mem-cons.0 m) (λ q. q) (λ n. absurd (not-mem-nil n)))))
      ]
