-- ===== src/Tickets/Origin.antt =====
-- app/models.py, get_ticket_by_origin_local_id: whether a box finds the row of its own report.
use mathlib.Core.List.{Mem}
use netplex_support.Prelude.{
  String, ◌≡◌, ◌≢◌, refl, inl, inr, ◌⊎◌, ◌↔◌, Bool, true, false, none, some, List, [], ◌∷◌, ◌++◌,
  arith, any, any-append, Bool-cases, Option-cases, ◌==◌, leb→le, ◌≤◌,
}
use text.Mathlib.TextPositions.{eq_refl}
use netplex_support.Prelude.Text.{non_empty}
use netplex_support.Http.{ok}
use netplex_support.Database.{IsOrder, Database, first_row}
use netplex_support.Database.Query.{any_of_mem, first-select, none-select}
use netplex_support.Tickets.{
  Ticket, Fields, Fresh, dedupes, holds, newer, bump, new_ticket, update_row, add_row,
  create_or_dedupe, get_ticket_by_origin_local_id,
}
use netplex_support.Tickets.Dedupe.{source_of, repeat_lem, create_or_dedupe-first}

newer-IsOrder : IsOrder newer
newer-IsOrder = record { total = λ a b. ground arith; trans = λ a b c p q. ground arith }

abbrev from_origin : String → Ticket → Bool
from_origin o t = holds t.origin_local_id o

bump-origin : (fresh : Fresh) (e : Ticket) → (bump fresh e).origin_local_id ≡ e.origin_local_id
unfolding bump
bump-origin fresh e = refl

new_ticket-origin :
    (fields : Fields) (fresh : Fresh)
    → (new_ticket fields fresh).origin_local_id ≡ fields.origin_local_id
unfolding new_ticket
new_ticket-origin fields fresh = refl

any-update_row :
    (p : Ticket → Bool) (t : Ticket) (rows : List Ticket)
    → p t ≡ false
    → any p rows ≡ false
    → any p (update_row t rows) ≡ false
any-update_row p t [] h k = refl
any-update_row p t (r ∷ rows) h k = ground (arith, any-update_row p t rows)

-- The lookup by a box's local id either finds a stored ticket with that id, and no such ticket was
-- first seen later; or it finds none, and no stored ticket has the id.
pub get_by_origin_lem :
    (db : Database) (origin : String) (rows : List Ticket)
    → ((t : Ticket) × (get_ticket_by_origin_local_id db origin rows ≡ some t)
        × Mem t rows
        × (holds t.origin_local_id origin ≡ true)
        × ((u : Ticket)
            → Mem u rows
            → holds u.origin_local_id origin ≡ true
            → u.first_seen ≤ t.first_seen))
      ⊎ ((get_ticket_by_origin_local_id db origin rows ≡ none)
          × (any (λ u. holds u.origin_local_id origin) rows ≡ false))
unfolding get_ticket_by_origin_local_id
get_by_origin_lem db origin rows =
    let found = first_row (db.select (from_origin origin) newer rows) in
    elim (Option-cases found) [
      | inl e ↦ inr (e, (none-select db (from_origin origin) newer rows).0 e)
      | inr (t, e) ↦
          let (stored, same, latest) =
            first-select db (from_origin origin) newer rows t newer-IsOrder e in
          inl (t, e, stored, same, λ u m h. leb→le u.first_seen t.first_seen (latest u m h))
    ]

absent-found :
    (db : Database) (origin : String) (rows : List Ticket)
    → (get_ticket_by_origin_local_id db origin rows ≡ none)
      ↔ (any (λ u. holds u.origin_local_id origin) rows ≡ false)
unfolding get_ticket_by_origin_local_id
absent-found db origin rows = none-select db (from_origin origin) newer rows

-- A report that is counted on an older ticket leaves no trace of its own local id: a box whose id
-- no stored ticket has finds nothing afterwards, whatever id the report carried.
pub create_or_dedupe-forgets-origin :
    (db : Database) (fields : Fields) (fresh : Fresh) (rows : List Ticket)
    (fingerprint origin : String)
    → fields.fingerprint ≡ some fingerprint
    → non_empty fingerprint ≡ true
    → any (dedupes fingerprint (source_of fields)) rows ≡ true
    → any (λ u. holds u.origin_local_id origin) rows ≡ false
    → get_ticket_by_origin_local_id db origin (create_or_dedupe db fields fresh rows).1 ≡ none
create_or_dedupe-forgets-origin db fields fresh rows fingerprint origin given filled present
      unknown =
    let (e, o, same) = repeat_lem db fields fresh rows fingerprint given filled present in
    let p = from_origin origin in
    let other : p (bump fresh e) ≡ false = rw bump-origin (elim (Bool-cases (p e)) [
      | inl h ↦ cc (any_of_mem p rows e o.stored h, unknown)
      | inr h ↦ h
    ]) in
    rw same (
      (absent-found db origin (update_row (bump fresh e) rows)).1
        (any-update_row p (bump fresh e) rows other unknown))

any_last :
    (p : Ticket → Bool) (t : Ticket) (rows : List Ticket)
    → p t ≡ true
    → any p (rows ++ t ∷ []) ≡ true
any_last p t rows h = ground (arith, any-append p rows (t ∷ []), h)

add_row-ok :
    (t u : Ticket) (rows : List Ticket)
    → (add_row t rows).0 ≡ ok u
    → (add_row t rows).1 ≡ rows ++ t ∷ []
add_row-ok t u rows h = elim (Bool-cases (any (λ r. r.id == t.id) rows)) [
  | inl taken ↦ cc (rw taken at h)
  | inr free ↦ rw free
]

-- A report that becomes a new ticket is found afterwards by the local id that it carried.
pub create_or_dedupe-keeps-origin :
    (db : Database) (fields : Fields) (fresh : Fresh) (rows : List Ticket)
    (fingerprint origin : String) (t : Ticket)
    → fields.fingerprint ≡ some fingerprint
    → fields.origin_local_id ≡ some origin
    → any (dedupes fingerprint (source_of fields)) rows ≡ false
    → (create_or_dedupe db fields fresh rows).0 ≡ ok t
    → get_ticket_by_origin_local_id db origin (create_or_dedupe db fields fresh rows).1 ≢ none
create_or_dedupe-keeps-origin db fields fresh rows fingerprint origin t given carried absent done
      missing =
    let same = create_or_dedupe-first db fields fresh rows fingerprint given absent in
    let t' = new_ticket fields fresh in
    let p = from_origin origin in
    let own : p t' ≡ true = rw (new_ticket-origin fields fresh) (rw carried (eq_refl origin)) in
    let stored = add_row-ok t' t rows (rw same at done) in
    let gone = (absent-found db origin (add_row t' rows).1).0 (rw same at missing) in
    cc (any_last p t' rows own, rw stored at gone)
