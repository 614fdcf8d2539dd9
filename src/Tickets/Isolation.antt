-- ===== src/Tickets/Isolation.antt =====
-- app/models.py, create_or_dedupe: a report changes no ticket of another source.
use netplex_support.Prelude.{
  String, ◌≡◌, refl, inl, inr, Bool, true, not, Option, none, some, List, [], ◌∷◌, arith, any, keep,
  keep-append, Bool-cases, Option-cases, ◌==◌,
}
use text.Mathlib.TextPositions.{eq_refl}
use mathlib.Core.List.{append-nil}
use netplex_support.Database.{Database}
use netplex_support.Database.Query.{any_of_mem}
use netplex_support.Tickets.{
  Ticket, Fields, Fresh, bump, new_ticket, update_row, add_row, find_existing, bump_or_add,
  create_or_dedupe,
}
use netplex_support.Tickets.Dedupe.{
  source_of, IsOldestOpen, find_existing-some, find_existing-absent,
}
use netplex_support.Tickets.Rows.{HasDistinctIds, keep-update_row}

-- The tickets of every other source.
abbrev pub of_others : String → Ticket → Bool
of_others source t = not (t.source == source)

bump-source : (fresh : Fresh) (e : Ticket) → (bump fresh e).source ≡ e.source
unfolding bump
bump-source fresh e = refl

bump-id : (fresh : Fresh) (e : Ticket) → (bump fresh e).id ≡ e.id
unfolding bump
bump-id fresh e = refl

add_row-others :
    (source : String) (t : Ticket) (rows : List Ticket)
    → (t.source == source) ≡ true
    → keep (of_others source) (add_row t rows).1 ≡ keep (of_others source) rows
add_row-others source t rows own = elim (Bool-cases (any (λ r. r.id == t.id) rows)) [
  | inl taken ↦ rw taken
  | inr free ↦ rw free (rw (keep-append (of_others source) rows (t ∷ [])) (rw own (append-nil _)))
]

update_row-others :
    (source fingerprint : String) (fresh : Fresh) (e : Ticket) (rows : List Ticket)
    → HasDistinctIds rows
    → IsOldestOpen fingerprint source rows e
    → keep (of_others source) (update_row (bump fresh e) rows) ≡ keep (of_others source) rows
update_row-others source fingerprint fresh e rows d o =
    let own : (e.source == source) ≡ true = ground (arith, o.same) in
    keep-update_row (of_others source) (bump fresh e) (rw (bump-source fresh e) (rw own)) rows d
      (any_of_mem _ rows e o.stored (rw (bump-id fresh e) (rw (eq_refl e.id) (rw own))))

new_ticket-source :
    (fields : Fields) (fresh : Fresh) → (new_ticket fields fresh).source ≡ source_of fields
unfolding new_ticket
new_ticket-source fields fresh = refl

bump_or_add-others :
    (db : Database) (fields : Fields) (fresh : Fresh) (rows : List Ticket) (found : Option Ticket)
    → HasDistinctIds rows
    → find_existing db fields rows ≡ found
    → keep (of_others (source_of fields)) (bump_or_add fields fresh rows found).1
      ≡ keep (of_others (source_of fields)) rows
unfolding bump_or_add
bump_or_add-others db fields fresh rows none d e =
    add_row-others (source_of fields) (new_ticket fields fresh) rows
      (rw (new_ticket-source fields fresh) (eq_refl _))
bump_or_add-others db fields fresh rows (some t) d e = elim (Option-cases fields.fingerprint) [
  | inl absent ↦ cc (find_existing-absent db fields rows absent, e)
  | inr (fingerprint, given) ↦
      update_row-others (source_of fields) fingerprint fresh t rows d
        (find_existing-some db fields rows fingerprint t given e).1
]

-- Filing a report under one source leaves every ticket of every other source as it was, whatever
-- fingerprint the report carries, in a table whose primary keys are distinct.
pub create_or_dedupe-others :
    (db : Database) (fields : Fields) (fresh : Fresh) (rows : List Ticket)
    → HasDistinctIds rows
    → keep (of_others (source_of fields)) (create_or_dedupe db fields fresh rows).1
      ≡ keep (of_others (source_of fields)) rows
unfolding create_or_dedupe
create_or_dedupe-others db fields fresh rows d =
    bump_or_add-others db fields fresh rows (find_existing db fields rows) d refl
