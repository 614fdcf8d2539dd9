-- ===== src/Tickets/Every.antt =====
-- app/models.py, create_or_dedupe: what holds of every ticket, and is kept.
use mathlib.Core.List.{Mem, mem-cons, not-mem-nil}
use mathlib.Core.Logic.Or
use netplex_support.Prelude.{
  List, [], ◌∷◌, ◌==◌, inl, inr, any, All, All-append, Bool-cases, Option-cases,
}
use netplex_support.Database.{Database}
use netplex_support.Tickets.{
  Ticket, Fields, Fresh, create_or_dedupe, bump_or_add, bump, new_ticket, update_row, add_row,
  find_existing,
}
use netplex_support.Tickets.Dedupe.{find_existing-some, find_existing-absent}

module _ (E : Ticket → Type 0) where
  All-mem : (rows : List Ticket) (t : Ticket) → IsProp (E t) → All E rows → Mem t rows → E t
  All-mem [] t E_prop h m = absurd (not-mem-nil m)
  All-mem (r ∷ rows) t E_prop h m =
      Or.elim E_prop (mem-cons.0 m) (λ q. rw q (h.0)) (λ n. All-mem rows t E_prop (h.1) n)

  update_row-All : (t : Ticket) (rows : List Ticket) → E t → All E rows → All E (update_row t rows)
  update_row-All t [] e h = tt
  update_row-All t (r ∷ rows) e h = elim (Bool-cases (r.id == t.id)) [
    | inl q ↦ (rw q e, update_row-All t rows e (h.1))
    | inr q ↦ (rw q (h.0), update_row-All t rows e (h.1))
  ]

  add_row-All : (t : Ticket) (rows : List Ticket) → E t → All E rows → All E (add_row t rows).1
  add_row-All t rows e h = elim (Bool-cases (any (λ r. r.id == t.id) rows)) [
    | inl q ↦ rw q h
    | inr q ↦ rw q (All-append E rows (t ∷ []) h (e, tt))
  ]

  -- What is kept by counting a report, and holds of the ticket that the report would become.
  pub create_or_dedupe-All :
      (db : Database) (fields : Fields) (fresh : Fresh) (rows : List Ticket)
      → ((t : Ticket) → IsProp (E t))
      → ((t : Ticket) → E t → E (bump fresh t))
      → E (new_ticket fields fresh)
      → All E rows
      → All E (create_or_dedupe db fields fresh rows).1
  unfolding create_or_dedupe bump_or_add
  create_or_dedupe-All db fields fresh rows E_prop counted made h =
      elim (Option-cases (find_existing db fields rows)) [
        | inl q ↦ rw q (add_row-All (new_ticket fields fresh) rows made h)
        | inr (e, q) ↦ elim (Option-cases fields.fingerprint) [
          | inl absent ↦ cc (find_existing-absent db fields rows absent, q)
          | inr (fingerprint, given) ↦
              let stored = (find_existing-some db fields rows fingerprint e given q).1.stored in
              rw q (
                update_row-All (bump fresh e) rows (counted e (All-mem rows e (E_prop e) h stored))
                  h)
        ]
      ]
