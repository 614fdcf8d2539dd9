-- ===== src/Database/Query.antt =====
-- What a query returns, whatever the database does with ties.
use mathlib.Core.List.{
  Pairwise, Mem, Mem-prop, mem-cons, mem-cons_self, mem-cons_of_mem, not-mem-nil,
  rel_of_Pairwise-cons,
}
use mathlib.Core.List.Perm
use mathlib.Core.Logic.Or
use netplex_support.Prelude.{
  ◌≡◌, ◌↔◌, refl, ap, inl, inr, Bool, true, false, none, some, List, [], ◌∷◌, keep, any, Bool-cases,
  arith,
}
use netplex_support.Database.{IsOrder, Database, first_row}

module _ {R : Type 0} (test : R → Bool) where
  -- A row that `keep` keeps is a row that passes the test.
  pub mem-keep : (rows : List R) (x : R) → Mem x (keep test rows) → Mem x rows × (test x ≡ true)
  mem-keep [] x m = absurd (not-mem-nil m)
  mem-keep (r ∷ rows) x m = elim (Bool-cases (test r)) [
    | inl e ↦
        Or.elim (hlevel Mem-prop) (mem-cons.0 (rw e at m)) (λ q. rw q (mem-cons_self, e))
          (λ n. let (old, passes) = mem-keep rows x n in (mem-cons_of_mem r old, passes))
    | inr e ↦ let (old, passes) = mem-keep rows x (rw e at m) in (mem-cons_of_mem r old, passes)
  ]

  pub mem-keep_of : (rows : List R) (x : R) → Mem x rows → test x ≡ true → Mem x (keep test rows)
  mem-keep_of [] x m h = absurd (not-mem-nil m)
  mem-keep_of (r ∷ rows) x m h = elim (Bool-cases (test r)) [
    | inl e ↦ rw e (
        Or.elim Mem-prop (mem-cons.0 m) (λ q. rw q mem-cons_self)
          (λ n. mem-cons_of_mem r (mem-keep_of rows x n h)))
    | inr e ↦
        rw e (Or.elim Mem-prop (mem-cons.0 m) (λ q. cc (ap test q)) (λ n. mem-keep_of rows x n h))
  ]

  pub keep-nil : (rows : List R) → any test rows ≡ false → keep test rows ≡ []
  keep-nil [] h = refl
  keep-nil (r ∷ rows) h = ground (arith, keep-nil rows)

  any_of_keep : (rows : List R) → keep test rows ≡ [] → any test rows ≡ false
  any_of_keep [] h = refl
  any_of_keep (r ∷ rows) h = ground (arith, any_of_keep rows)

  pub any_of_mem : (rows : List R) (x : R) → Mem x rows → test x ≡ true → any test rows ≡ true
  any_of_mem [] x m h = absurd (not-mem-nil m)
  any_of_mem (r ∷ rows) x m h =
      Or.elim (hlevel) (mem-cons.0 m) (λ q. ground (arith, ap test q))
        (λ n. ground (arith, any_of_mem rows x n h))

module _ (db : Database) {R : Type 0} (test : R → Bool) (before : R → R → Bool)
    (rows : List R) where
  open db use {select, select-perm, select-sorted}

  -- A query returns the rows that pass its test, and no others.
  pub mem-select : (x : R) → Mem x (select test before rows) → Mem x rows × (test x ≡ true)
  mem-select x m = mem-keep test rows x ((Perm.mem_iff (select-perm test before rows)).0 m)

  pub mem-select_of : (x : R) → Mem x rows → test x ≡ true → Mem x (select test before rows)
  mem-select_of x m h =
      (Perm.mem_iff (select-perm test before rows)).1 (mem-keep_of test rows x m h)

  first_mem : (l : List R) (x : R) → first_row l ≡ some x → Mem x l
  first_mem [] x e = cc
  first_mem (y ∷ l) x e = let same : y ≡ x = cc in rw (← same) mem-cons_self

  first_least :
      (l : List R) (x y : R)
      → IsOrder before
      → Pairwise (λ a b. before a b ≡ true) l
      → first_row l ≡ some x
      → Mem y l
      → before x y ≡ true
  first_least [] x y o s e m = cc
  first_least (z ∷ l) x y o s e m =
      let same : z ≡ x = cc in
      Or.elim (hlevel) (mem-cons.0 m)
        (λ q. rw (q, ← same) (elim (o.total z z) [ inl h ↦ h | inr h ↦ h ]))
        (λ n. rw (← same) (rel_of_Pairwise-cons s n))

  -- The first row of a query is in the table and passes the test, and no such row stands before it.
  pub first-select :
      (x : R)
      → IsOrder before
      → first_row (select test before rows) ≡ some x
      → Mem x rows × (test x ≡ true) × ((y : R) → Mem y rows → test y ≡ true → before x y ≡ true)
  first-select x o e =
      let (old, passes) = mem-select x (first_mem _ x e) in
      (
        old,
        passes,
        λ y m h. first_least _ x y o (select-sorted test before rows o) e (mem-select_of y m h),
      )

  empty_of_none : (l : List R) → first_row l ≡ none → l ≡ []
  empty_of_none [] e = refl
  empty_of_none (x ∷ l) e = cc

  -- A query with a limit of one finds a row exactly if the table has one that passes the test.
  pub none-select : (first_row (select test before rows) ≡ none) ↔ (any test rows ≡ false)
  none-select = (
    λ e.
        any_of_keep test rows
          (Perm.eq-nil (Perm.symm (rw (empty_of_none _ e) at (select-perm test before rows)))),
    λ h.
        let empty : select test before rows ≡ [] =
          Perm.eq-nil (rw (keep-nil test rows h) at (select-perm test before rows)) in
        rw empty,
  )
