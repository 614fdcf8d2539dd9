-- ===== src/Database/Memory.antt =====
-- A database that sorts by insertion: the assumptions on a database can be met.
use mathlib.Core.List.{Perm, Pairwise, Mem, Pairwise-singleton, mem-cons}
use mathlib.Core.List.Perm
use mathlib.Core.Logic.Or
use netplex_support.Prelude.{
  ◌≡◌, inl, inr, Bool, true, List, [], ◌∷◌, keep, Bool-cases, if◌then◌else◌,
}
use netplex_support.Database.{IsOrder, Database}

module _ {R : Type 0} (before : R → R → Bool) where
  unfoldable pub insert_row : R → List R → List R
  insert_row x [] = x ∷ []
  insert_row x (y ∷ ys) = let rest = insert_row x ys in if before x y then x ∷ y ∷ ys else y ∷ rest

  unfoldable pub sort_rows : List R → List R
  sort_rows [] = []
  sort_rows (x ∷ xs) = insert_row x (sort_rows xs)

  insert_row-perm : (x : R) (ys : List R) → Perm (insert_row x ys) (x ∷ ys)
  unfolding insert_row
  insert_row-perm x [] = Perm.rfl
  insert_row-perm x (y ∷ ys) = elim (Bool-cases (before x y)) [
    | inl e ↦ rw e Perm.rfl
    | inr e ↦ rw e (Perm.trans (Perm.cons y (insert_row-perm x ys)) (Perm.swap x y ys))
  ]

  pub sort_rows-perm : (xs : List R) → Perm (sort_rows xs) xs
  unfolding sort_rows
  sort_rows-perm [] = Perm.rfl
  sort_rows-perm (x ∷ xs) =
      Perm.trans (insert_row-perm x (sort_rows xs)) (Perm.cons x (sort_rows-perm xs))

  abbrev IsSorted : List R → Type 0
  IsSorted = Pairwise (λ a b. before a b ≡ true)

  module _ (o : IsOrder before) where
    below-insert :
        (x y : R) (ys : List R)
        → before y x ≡ true
        → ((z : R) → Mem z ys → before y z ≡ true)
        → (z : R) → Mem z (insert_row x ys)
        → before y z ≡ true
    below-insert x y ys p h z m =
        Or.elim (hlevel) (mem-cons.0 ((Perm.mem_iff (insert_row-perm x ys)).0 m)) (λ e. rw e p)
          (h z)

    insert_row-IsSorted : (x : R) (ys : List R) → IsSorted ys → IsSorted (insert_row x ys)
    unfolding insert_row
    insert_row-IsSorted x [] s = Pairwise-singleton _ x
    insert_row-IsSorted x (y ∷ ys) (Pairwise.cons below s) = elim (Bool-cases (before x y)) [
      | inl e ↦ rw e (
          Pairwise.cons
            (λ z m.
              Or.elim (hlevel) (mem-cons.0 m) (λ q. rw q e) (λ n. o.trans x y z e (below z n)))
            (Pairwise.cons below s))
      | inr e ↦
          let p : before y x ≡ true = elim (o.total x y) [ inl q ↦ cc | inr q ↦ q ] in
          rw e (Pairwise.cons (below-insert x y ys p below) (insert_row-IsSorted x ys s))
    ]

    pub sort_rows-IsSorted : (xs : List R) → IsSorted (sort_rows xs)
    unfolding sort_rows
    sort_rows-IsSorted [] = Pairwise.nil
    sort_rows-IsSorted (x ∷ xs) = insert_row-IsSorted x (sort_rows xs) (sort_rows-IsSorted xs)

unfoldable pub memory : Database
unfolding sort_rows insert_row
memory = record {
  select = λ test before rows. sort_rows before (keep test rows);
  select-perm = λ test before rows. sort_rows-perm before (keep test rows);
  select-sorted = λ test before rows o. sort_rows-IsSorted before o (keep test rows);
}
