-- ===== src/Tickets/Invariant.antt =====
-- app/models.py, create_or_dedupe: the well-formedness of the ticket table, and what is counted.
use mathlib.Core.List.{Mem}
use mathlib.Core.Option.{get_or}
use netplex_support.Prelude.{
  ℕ, ◌+◌, ◌≤◌, String, ◌≡◌, refl, ap, sym, ◌∙◌, inl, inr, Bool, true, false, ◌&&◌, ◌==◌,
  if◌then◌else◌, Option, none, some, List, [], ◌∷◌, ◌++◌, arith, any, All, All-append, keep, length,
  nat_eq, eq_iff, Bool-cases, Option-cases,
}
use text.Mathlib.TextPositions.{eq_refl}
use netplex_support.Prelude.Text.{non_empty}
use netplex_support.Http.{ok}
use netplex_support.Database.{Database}
use netplex_support.Database.Query.{any_of_mem}
use netplex_support.Tickets.{
  Ticket, Fields, Fresh, priority_score, dedupes, holds, bump, new_ticket, update_row,
  find_existing, bump_or_add, create_or_dedupe,
}
use netplex_support.Tickets.Dedupe.{
  source_of, find_existing-some, find_existing-none, find_existing-absent,
}
use netplex_support.Tickets.Rows.{
  HasDistinctIds, has_id, total, indicator, length-keep, total-append, total-update_row,
  update_row-HasDistinctIds, append-HasDistinctIds, All-update_row,
}

-- priority_score is that of the ticket's severity, occurrences and tier.
abbrev pub IsScored : Ticket → Type 0
IsScored t = t.priority_score ≡ priority_score t.severity t.occurrences t.reporter_tier

pub record IsWellFormed (rows : List Ticket) : Type 0 where
  pub ids : HasDistinctIds rows
  pub scored : All IsScored rows
  -- a fingerprint has at most one open ticket from each source
  pub single :
      (fingerprint source : String)
      → non_empty fingerprint ≡ true
      → length (keep (dedupes fingerprint source) rows) ≤ 1

bump-IsScored : (fresh : Fresh) (e : Ticket) → IsScored (bump fresh e)
unfolding bump
bump-IsScored fresh e = refl

new_ticket-IsScored : (fields : Fields) (fresh : Fresh) → IsScored (new_ticket fields fresh)
unfolding new_ticket
new_ticket-IsScored fields fresh = refl

bump-dedupes :
    (fresh : Fresh) (e : Ticket) (fingerprint source : String)
    → dedupes fingerprint source (bump fresh e) ≡ dedupes fingerprint source e
unfolding bump
bump-dedupes fresh e fingerprint source = refl

bump-indicator :
    (fresh : Fresh) (e : Ticket) (fingerprint source : String)
    → indicator (dedupes fingerprint source) (bump fresh e)
      ≡ indicator (dedupes fingerprint source) e
bump-indicator fresh e fingerprint source = rw bump-dedupes

bump-id : (fresh : Fresh) (e : Ticket) → (bump fresh e).id ≡ e.id
unfolding bump
bump-id fresh e = refl

nat_eq_refl : (n : ℕ) → nat_eq n n ≡ true
nat_eq_refl n = ground arith

-- Replacing a stored row by its bumped form, in a sum over the table.
bumped-total :
    (f : Ticket → ℕ) (fresh : Fresh) (e : Ticket) (rows : List Ticket)
    → HasDistinctIds rows
    → Mem e rows
    → total f (update_row (bump fresh e) rows) + f e ≡ total f rows + f (bump fresh e)
bumped-total f fresh e rows d m =
    total-update_row f (f e) (bump fresh e) rows d
      (any_of_mem _ rows e m (rw (bump-id fresh e) (rw (eq_refl e.id) (nat_eq_refl (f e)))))

bumped-IsWellFormed :
    (fresh : Fresh) (e : Ticket) (rows : List Ticket)
    → IsWellFormed rows
    → Mem e rows
    → IsWellFormed (update_row (bump fresh e) rows)
bumped-IsWellFormed fresh e rows w m = record {
  ids = update_row-HasDistinctIds (bump fresh e) rows w.ids;
  scored = All-update_row IsScored (bump fresh e) rows (bump-IsScored fresh e) w.scored;
  single = λ fingerprint source filled.
      let p = dedupes fingerprint source in
      omega (
        arith,
        w.single fingerprint source filled,
        length-keep p rows,
        length-keep p (update_row (bump fresh e) rows),
        bumped-total (indicator p) fresh e rows w.ids m,
        bump-indicator fresh e fingerprint source,
      );
}

new_ticket-fingerprint :
    (fields : Fields) (fresh : Fresh) → (new_ticket fields fresh).fingerprint ≡ fields.fingerprint
unfolding new_ticket
new_ticket-fingerprint fields fresh = refl

new_ticket-source :
    (fields : Fields) (fresh : Fresh) → (new_ticket fields fresh).source ≡ source_of fields
unfolding new_ticket
new_ticket-source fields fresh = refl

total_of_absent :
    (p : Ticket → Bool) (rows : List Ticket) → any p rows ≡ false → total (indicator p) rows ≡ 0
total_of_absent p [] h = refl
total_of_absent p (r ∷ rows) h = ground (arith, total_of_absent p rows)

indicator-le : (p : Ticket → Bool) (t : Ticket) → indicator p t ≤ 1
indicator-le p t = ground arith

holds→eq : (o : Option String) (s : String) → holds o s ≡ true → o ≡ some s
holds→eq none s h = cc
holds→eq (some r) s h = ap some ((eq_iff r s).0 h)

dedupes→parts :
    (t : Ticket) (fingerprint source : String)
    → dedupes fingerprint source t ≡ true
    → (t.fingerprint ≡ some fingerprint) × (t.source ≡ source)
dedupes→parts t fingerprint source h =
    (holds→eq t.fingerprint fingerprint (ground arith), (eq_iff t.source source).0 (ground arith))

-- Of the open tickets that a new one would be deduped on, the table has none.
new_ticket-total :
    (db : Database) (fields : Fields) (fresh : Fresh) (rows : List Ticket)
    (fingerprint source : String)
    → find_existing db fields rows ≡ none
    → non_empty fingerprint ≡ true
    → dedupes fingerprint source (new_ticket fields fresh) ≡ true
    → total (indicator (dedupes fingerprint source)) rows ≡ 0
new_ticket-total db fields fresh rows fingerprint source missing filled h =
    let (f, s) = dedupes→parts (new_ticket fields fresh) fingerprint source h in
    let own : source_of fields ≡ source = sym (new_ticket-source fields fresh) ∙ s in
    total_of_absent _ rows (
      rw (← own) (
        find_existing-none db fields rows fingerprint
          (sym (new_ticket-fingerprint fields fresh) ∙ f) filled missing))

added-IsWellFormed :
    (db : Database) (fields : Fields) (fresh : Fresh) (rows : List Ticket)
    → IsWellFormed rows
    → find_existing db fields rows ≡ none
    → any (has_id (new_ticket fields fresh).id) rows ≡ false
    → IsWellFormed (rows ++ new_ticket fields fresh ∷ [])
added-IsWellFormed db fields fresh rows w missing free =
    let t = new_ticket fields fresh in
    record {
      ids = append-HasDistinctIds t rows w.ids free;
      scored = All-append IsScored rows (t ∷ []) w.scored (new_ticket-IsScored fields fresh, tt);
      single = λ fingerprint source filled.
          let p = dedupes fingerprint source in
          let sum : length (keep p (rows ++ t ∷ [])) ≡ total (indicator p) rows + indicator p t =
            omega
              (arith, length-keep p (rows ++ t ∷ []), total-append (indicator p) rows (t ∷ [])) in
          elim (Bool-cases (p t)) [
            | inl same ↦ omega (
              arith,
              sum,
              indicator-le p t,
              new_ticket-total db fields fresh rows fingerprint source missing filled same,
            )
            | inr other ↦
                ground (arith, sum, other, w.single fingerprint source filled, length-keep p rows)
          ];
    }

bump_or_add-IsWellFormed :
    (db : Database) (fields : Fields) (fresh : Fresh) (rows : List Ticket) (found : Option Ticket)
    → IsWellFormed rows
    → find_existing db fields rows ≡ found
    → IsWellFormed (bump_or_add fields fresh rows found).1
unfolding bump_or_add
bump_or_add-IsWellFormed db fields fresh rows (some e) w found =
    elim (Option-cases fields.fingerprint) [
      | inl absent ↦ cc (find_existing-absent db fields rows absent, found)
      | inr (fingerprint, given) ↦
          let o = (find_existing-some db fields rows fingerprint e given found).1 in
          bumped-IsWellFormed fresh e rows w o.stored
    ]
bump_or_add-IsWellFormed db fields fresh rows none w missing =
    elim (Bool-cases (any (has_id (new_ticket fields fresh).id) rows)) [
      | inl taken ↦ rw taken w
      | inr free ↦ rw free (added-IsWellFormed db fields fresh rows w missing free)
    ]

-- A well-formed table stays well-formed: primary keys distinct, every stored score that of its
-- ticket, and at most one open ticket for a fingerprint and a source.
pub create_or_dedupe-IsWellFormed :
    (db : Database) (fields : Fields) (fresh : Fresh) (rows : List Ticket)
    → IsWellFormed rows
    → IsWellFormed (create_or_dedupe db fields fresh rows).1
unfolding create_or_dedupe
create_or_dedupe-IsWellFormed db fields fresh rows w =
    bump_or_add-IsWellFormed db fields fresh rows (find_existing db fields rows) w refl

abbrev pub occurrences : Ticket → ℕ
occurrences t = t.occurrences

bump-occurrences : (fresh : Fresh) (e : Ticket) → occurrences (bump fresh e) ≡ occurrences e + 1
unfolding bump
bump-occurrences fresh e = refl

-- A ticket of that fingerprint and source, with one of the four statuses of open tickets.
abbrev pub is_match : String → String → Ticket → Bool
is_match fingerprint source t =
    holds t.fingerprint fingerprint
    && t.source == source
    && any (λ s. t.status == s) ("new" ∷ "triaged" ∷ "in_progress" ∷ "fixed" ∷ [])

-- Whether the table has an open ticket of a report's fingerprint, which is not empty, and source.
abbrev pub is_repeat : Fields → List Ticket → Bool
is_repeat fields rows =
    non_empty (get_or fields.fingerprint "")
    && any (is_match (get_or fields.fingerprint "") (get_or fields.source "web")) rows

-- What a report adds to the sum of all occurrences.
abbrev pub added : Fields → List Ticket → ℕ
added fields rows = if is_repeat fields rows then 1 else get_or fields.occurrences 1

found-is_repeat :
    (db : Database) (fields : Fields) (rows : List Ticket) (e : Ticket)
    → find_existing db fields rows ≡ some e
    → is_repeat fields rows ≡ true
found-is_repeat db fields rows e found = elim (Option-cases fields.fingerprint) [
  | inl absent ↦ cc (find_existing-absent db fields rows absent, found)
  | inr (fingerprint, given) ↦
      let (filled, o) = find_existing-some db fields rows fingerprint e given found in
      rw (given, filled)
        (any_of_mem (dedupes fingerprint (source_of fields)) rows e o.stored o.same)
]

missing-is_repeat :
    (db : Database) (fields : Fields) (rows : List Ticket)
    → find_existing db fields rows ≡ none
    → is_repeat fields rows ≡ false
missing-is_repeat db fields rows missing = elim (Option-cases fields.fingerprint) [
  | inl absent ↦ rw absent refl
  | inr (fingerprint, given) ↦ elim (Bool-cases (non_empty fingerprint)) [
    | inl filled ↦
        rw (given, filled) (find_existing-none db fields rows fingerprint given filled missing)
    | inr blank ↦ rw (given, blank) refl
  ]
]

bump_or_add-total :
    (db : Database) (fields : Fields) (fresh : Fresh) (rows : List Ticket) (found : Option Ticket)
    (t : Ticket)
    → HasDistinctIds rows
    → find_existing db fields rows ≡ found
    → (bump_or_add fields fresh rows found).0 ≡ ok t
    → total occurrences (bump_or_add fields fresh rows found).1
      ≡ total occurrences rows + added fields rows
unfolding bump_or_add new_ticket
bump_or_add-total db fields fresh rows (some e) t d found done =
    elim (Option-cases fields.fingerprint) [
      | inl absent ↦ cc (find_existing-absent db fields rows absent, found)
      | inr (fingerprint, given) ↦
          let o = (find_existing-some db fields rows fingerprint e given found).1 in
          rw (found-is_repeat db fields rows e found) (
            omega
              (arith, bumped-total occurrences fresh e rows d o.stored, bump-occurrences fresh e))
    ]
bump_or_add-total db fields fresh rows none t d missing done =
    elim (Bool-cases (any (has_id (new_ticket fields fresh).id) rows)) [
      | inl taken ↦ cc (rw taken at done)
      | inr free ↦
          rw (free, missing-is_repeat db fields rows missing)
            (total-append occurrences rows (new_ticket fields fresh ∷ []) ∙ omega arith)
    ]

-- On a table with distinct primary keys, a report that is answered with a ticket raises the sum of all
-- occurrences by one, if there is an open ticket of its fingerprint and source to count it on, and
-- else by the number of occurrences that it is given, which is one if none is given.
pub create_or_dedupe-total :
    (db : Database) (fields : Fields) (fresh : Fresh) (rows : List Ticket) (t : Ticket)
    → HasDistinctIds rows
    → (create_or_dedupe db fields fresh rows).0 ≡ ok t
    → total occurrences (create_or_dedupe db fields fresh rows).1
      ≡ total occurrences rows + added fields rows
unfolding create_or_dedupe
create_or_dedupe-total db fields fresh rows t d done =
    bump_or_add-total db fields fresh rows (find_existing db fields rows) t d refl done
