-- ===== src/Tickets/Rows.antt =====
-- Rows with distinct primary keys: what replacing one row does to sums and selections over the table.
use netplex_support.Prelude.{
  ℕ, ◌+◌, String, ◌≡◌, refl, ap, ◌∙◌, Bool, true, false, not, ◌&&◌, ◌||◌, List, [], ◌∷◌, ◌++◌,
  arith, any, any-append, All, keep, length, nat_eq, ◌==◌, eq_iff, Bool-cases, if◌then◌else◌, inl,
  inr,
}
use netplex_support.Tickets.{Ticket, update_row}

abbrev pub has_id : String → Ticket → Bool
has_id i r = r.id == i

-- No two rows share a primary key.
abbrev pub HasDistinctIds : List Ticket → Type 0
HasDistinctIds [] = Unit
HasDistinctIds (r ∷ rows) = (any (has_id r.id) rows ≡ false) × HasDistinctIds rows

abbrev pub total : (Ticket → ℕ) → List Ticket → ℕ
total f [] = 0
total f (r ∷ rows) = f r + total f rows

abbrev pub indicator : (Ticket → Bool) → Ticket → ℕ
indicator p r = if p r then 1 else 0

pub length-keep :
    (p : Ticket → Bool) (rows : List Ticket) → length (keep p rows) ≡ total (indicator p) rows
length-keep p [] = refl
length-keep p (r ∷ rows) = ground (arith, length-keep p rows)

pub total-append :
    (f : Ticket → ℕ) (xs ys : List Ticket) → total f (xs ++ ys) ≡ total f xs + total f ys
total-append f [] ys = omega arith
total-append f (x ∷ xs) ys = omega (arith, total-append f xs ys)

update_row-absent :
    (t : Ticket) (rows : List Ticket) → any (has_id t.id) rows ≡ false → update_row t rows ≡ rows
update_row-absent t [] h = refl
update_row-absent t (r ∷ rows) h = ground (arith, update_row-absent t rows)

module _ (f : Ticket → ℕ) (n : ℕ) (t : Ticket) where
  abbrev is_it : Ticket → Bool
  is_it r = has_id t.id r && nat_eq (f r) n

  absent_it : (rows : List Ticket) → any (has_id t.id) rows ≡ false → any is_it rows ≡ false
  absent_it [] h = refl
  absent_it (r ∷ rows) h = ground (arith, absent_it rows)

  pub total-update_row :
      (rows : List Ticket)
      → HasDistinctIds rows
      → any is_it rows ≡ true
      → total f (update_row t rows) + n ≡ total f rows + f t
  total-update_row [] d h = cc
  total-update_row (r ∷ rows) d h = elim (Bool-cases (r.id == t.id)) [
    | inl same ↦
        let gone : any (has_id t.id) rows ≡ false = rw (← (eq_iff r.id t.id).0 same) d.0 in
        ground (arith, update_row-absent t rows gone, absent_it rows gone)
    | inr other ↦ ground (arith, total-update_row rows d.1)
  ]

module _ (p : Ticket → Bool) (t : Ticket) (outside : p t ≡ false) where
  abbrev is_dropped : Ticket → Bool
  is_dropped r = has_id t.id r && not (p r)

  absent_dropped :
      (rows : List Ticket) → any (has_id t.id) rows ≡ false → any is_dropped rows ≡ false
  absent_dropped [] h = refl
  absent_dropped (r ∷ rows) h = ground (arith, absent_dropped rows)

  -- Replacing a row that a selection leaves out by another such row does not change the selection.
  pub keep-update_row :
      (rows : List Ticket)
      → HasDistinctIds rows
      → any is_dropped rows ≡ true
      → keep p (update_row t rows) ≡ keep p rows
  keep-update_row [] d h = refl
  keep-update_row (r ∷ rows) d h = elim (Bool-cases (r.id == t.id)) [
    | inl same ↦
        let gone : any (has_id t.id) rows ≡ false = rw (← (eq_iff r.id t.id).0 same) d.0 in
        ground (arith, outside, update_row-absent t rows gone, absent_dropped rows gone)
    | inr other ↦ ground (arith, keep-update_row rows d.1)
  ]

any_id-update_row :
    (i : String) (t : Ticket) (rows : List Ticket)
    → any (has_id i) (update_row t rows) ≡ any (has_id i) rows
any_id-update_row i t [] = refl
any_id-update_row i t (r ∷ rows) = elim (Bool-cases (r.id == t.id)) [
  | inl same ↦ rw (same, (eq_iff r.id t.id).0 same, any_id-update_row i t rows)
  | inr other ↦ rw other (ap (λ b. r.id == i || b) (any_id-update_row i t rows))
]

pub update_row-HasDistinctIds :
    (t : Ticket) (rows : List Ticket) → HasDistinctIds rows → HasDistinctIds (update_row t rows)
update_row-HasDistinctIds t [] d = tt
update_row-HasDistinctIds t (r ∷ rows) d = elim (Bool-cases (r.id == t.id)) [
  | inl same ↦
      let e = (eq_iff r.id t.id).0 same in
      rw same (any_id-update_row t.id t rows ∙ (rw e at d.0), update_row-HasDistinctIds t rows d.1)
  | inr other ↦ rw other (any_id-update_row r.id t rows ∙ d.0, update_row-HasDistinctIds t rows d.1)
]

any_id-append :
    (i : String) (t : Ticket) (rows : List Ticket)
    → any (has_id i) (rows ++ t ∷ []) ≡ (any (has_id i) rows || t.id == i)
any_id-append i t rows = ground (arith, any-append (has_id i) rows (t ∷ []))

pub append-HasDistinctIds :
    (t : Ticket) (rows : List Ticket)
    → HasDistinctIds rows
    → any (has_id t.id) rows ≡ false
    → HasDistinctIds (rows ++ t ∷ [])
append-HasDistinctIds t [] d h = (refl, tt)
append-HasDistinctIds t (r ∷ rows) d h = (
  ground (arith, any_id-append r.id t rows, d.0, eq_iff r.id t.id, eq_iff t.id r.id),
  append-HasDistinctIds t rows d.1 (ground arith),
)

pub All-update_row {κ} :
    (P : Ticket → Type κ) (t : Ticket) (rows : List Ticket)
    → P t
    → All P rows
    → All P (update_row t rows)
All-update_row P t [] h k = tt
All-update_row P t (r ∷ rows) h k = elim (Bool-cases (r.id == t.id)) [
  | inl same ↦ rw same (h, All-update_row P t rows h k.1)
  | inr other ↦ rw other (k.0, All-update_row P t rows h k.1)
]
