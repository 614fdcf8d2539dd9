-- ===== src/Tickets/Dedupe.antt =====
-- app/models.py, create_or_dedupe: which ticket a report is counted on.
use mathlib.Core.List.{Mem}
use mathlib.Core.Option.{get_or}
use netplex_support.Prelude.{
  ◌+◌, ◌≤◌, String, Bool, ◌&&◌, ◌||◌, Option, map, ◌⊎◌, refl, ap, eq_iff, ◌==◌, if◌then◌else◌, ◌≡◌,
  inl, inr, true, false, none, some, List, arith, any, leb→le, Option-cases, Bool-cases,
}
use netplex_support.Prelude.Text.{non_empty}
use netplex_support.Http.{ok}
use netplex_support.Database.{IsOrder, Database}
use netplex_support.Database.Query.{first-select, none-select, any_of_mem}
use netplex_support.Tickets.{
  Ticket, Fields, Fresh, dedupes, holds, is_open, priority_score, older, bump, new_ticket,
  update_row, add_row, find_existing, bump_or_add, create_or_dedupe,
}

pub older-IsOrder : IsOrder older
older-IsOrder = record { total = λ a b. ground arith; trans = λ a b c p q. ground arith }

-- The source that a report is filed under.
abbrev pub source_of : Fields → String
source_of fields = get_or fields.source "web"

-- `e` is an open ticket of that fingerprint and source, and no other such ticket is older.
pub record IsOldestOpen (fingerprint source : String) (rows : List Ticket) (e : Ticket)
    : Type 0 where
  pub stored : Mem e rows
  pub same : dedupes fingerprint source e ≡ true
  pub oldest :
      (y : Ticket) → Mem y rows → dedupes fingerprint source y ≡ true → e.first_seen ≤ y.first_seen

module _ (db : Database) (fields : Fields) (rows : List Ticket) where
  pub find_existing-some :
      (fingerprint : String) (e : Ticket)
      → fields.fingerprint ≡ some fingerprint
      → find_existing db fields rows ≡ some e
      → (non_empty fingerprint ≡ true) × IsOldestOpen fingerprint (source_of fields) rows e
  unfolding find_existing
  find_existing-some fingerprint e given found = elim (Bool-cases (non_empty fingerprint)) [
    | inl filled ↦
        let query = rw (given, filled) at found in
        let (stored, same, least) = first-select db _ older rows e older-IsOrder query in
        (
          filled,
          record {
            stored = stored;
            same = same;
            oldest = λ y m h. leb→le e.first_seen y.first_seen (least y m h);
          },
        )
    | inr blank ↦ cc (rw (given, blank) at found)
  ]

  pub find_existing-absent : fields.fingerprint ≡ none → find_existing db fields rows ≡ none
  unfolding find_existing
  find_existing-absent absent = rw absent

  pub find_existing-none :
      (fingerprint : String)
      → fields.fingerprint ≡ some fingerprint
      → non_empty fingerprint ≡ true
      → find_existing db fields rows ≡ none
      → any (dedupes fingerprint (source_of fields)) rows ≡ false
  unfolding find_existing
  find_existing-none fingerprint given filled found =
      (none-select db (dedupes fingerprint (source_of fields)) older rows).0
        (rw (given, filled) at found)

  absent-find_existing :
      (fingerprint : String)
      → fields.fingerprint ≡ some fingerprint
      → any (dedupes fingerprint (source_of fields)) rows ≡ false
      → find_existing db fields rows ≡ none
  unfolding find_existing
  absent-find_existing fingerprint given absent = elim (Bool-cases (non_empty fingerprint)) [
    | inl filled ↦
        rw (given, filled)
          ((none-select db (dedupes fingerprint (source_of fields)) older rows).1 absent)
    | inr blank ↦ rw (given, blank)
  ]

pub repeat_lem :
    (db : Database) (fields : Fields) (fresh : Fresh) (rows : List Ticket) (fingerprint : String)
    → fields.fingerprint ≡ some fingerprint
    → non_empty fingerprint ≡ true
    → any (dedupes fingerprint (source_of fields)) rows ≡ true
    → (e : Ticket) × IsOldestOpen fingerprint (source_of fields) rows e
      × (create_or_dedupe db fields fresh rows
          ≡ (ok (bump fresh e), update_row (bump fresh e) rows))
unfolding create_or_dedupe bump_or_add
repeat_lem db fields fresh rows fingerprint given filled present =
    elim (Option-cases (find_existing db fields rows)) [
      | inl missing ↦
          cc (present, find_existing-none db fields rows fingerprint given filled missing)
      | inr (e, found) ↦
          (e, (find_existing-some db fields rows fingerprint e given found).1, rw found)
    ]

-- A ticket of that fingerprint and source, with one of the four statuses of open tickets.
pub record IsMatch (fingerprint source : String) (t : Ticket) : Type 0 where
  pub fingerprint_eq : t.fingerprint ≡ some fingerprint
  pub source_eq : t.source ≡ source
  pub status_eq :
      (t.status ≡ "new")
      ⊎ ((t.status ≡ "triaged") ⊎ ((t.status ≡ "in_progress") ⊎ (t.status ≡ "fixed")))

four_tests :
    (a b c d : Bool)
    → (a || (b || (c || (d || false)))) ≡ true
    → (a ≡ true) ⊎ ((b ≡ true) ⊎ ((c ≡ true) ⊎ (d ≡ true)))
four_tests a b c d h = ground arith

status_of_open :
    (t : Ticket)
    → is_open t ≡ true
    → (t.status ≡ "new")
      ⊎ ((t.status ≡ "triaged") ⊎ ((t.status ≡ "in_progress") ⊎ (t.status ≡ "fixed")))
status_of_open t h = elim (four_tests _ _ _ _ h) [
  | inl e ↦ inl ((eq_iff t.status "new").0 e)
  | inr (inl e) ↦ inr (inl ((eq_iff t.status "triaged").0 e))
  | inr (inr (inl e)) ↦ inr (inr (inl ((eq_iff t.status "in_progress").0 e)))
  | inr (inr (inr e)) ↦ inr (inr (inr ((eq_iff t.status "fixed").0 e)))
]

open_of_status :
    (t : Ticket)
    → (t.status ≡ "new")
      ⊎ ((t.status ≡ "triaged") ⊎ ((t.status ≡ "in_progress") ⊎ (t.status ≡ "fixed")))
    → is_open t ≡ true
open_of_status t (inl e) = rw e
open_of_status t (inr (inl e)) = rw e
open_of_status t (inr (inr (inl e))) = rw e
open_of_status t (inr (inr (inr e))) = rw e

held_text : (o : Option String) (s : String) → holds o s ≡ true → o ≡ some s
held_text none s h = cc
held_text (some r) s h = ap some ((eq_iff r s).0 h)

three_tests : (a b c : Bool) → (a && b && c) ≡ true → (a ≡ true) × (b ≡ true) × (c ≡ true)
three_tests a b c h = ground arith

dedupes-IsMatch : (f s : String) (t : Ticket) → dedupes f s t ≡ true → IsMatch f s t
dedupes-IsMatch f s t h =
    let (held, sourced, opened) =
      three_tests (holds t.fingerprint f) (t.source == s) (is_open t) h in
    record {
      fingerprint_eq = held_text t.fingerprint f held;
      source_eq = (eq_iff t.source s).0 sourced;
      status_eq = status_of_open t opened;
    }

of_match : (f s : String) (t : Ticket) → IsMatch f s t → dedupes f s t ≡ true
of_match f s t m =
    rw
      (
        m.fingerprint_eq,
        (eq_iff f f).1 refl,
        (eq_iff t.source s).1 (m.source_eq),
        open_of_status t (m.status_eq),
      )
      refl

-- Where the table has a ticket of a report's fingerprint, which is not empty, and of its source, whose
-- status is "new", "triaged", "in_progress" or "fixed", the report is counted on a ticket of that kind
-- that no other is older than: the answer is that ticket with one more occurrence, seen last at the
-- call's time, with its score computed anew and its other fields as they were. The table has this in
-- the place of the old row, and no other change.
pub create_or_dedupe-repeat :
    (db : Database) (fields : Fields) (fresh : Fresh) (rows : List Ticket) (fingerprint : String)
    (u : Ticket)
    → fields.fingerprint ≡ some fingerprint
    → non_empty fingerprint ≡ true
    → Mem u rows
    → IsMatch fingerprint (get_or fields.source "web") u
    → (e : Ticket) × Mem e rows
      × IsMatch fingerprint (get_or fields.source "web") e
      × ((y : Ticket)
          → Mem y rows
          → IsMatch fingerprint (get_or fields.source "web") y
          → e.first_seen ≤ y.first_seen)
      × (let t : Ticket = record e {
        occurrences = e.occurrences + 1;
        last_seen = fresh.now;
        priority_score = priority_score e.severity (e.occurrences + 1) e.reporter_tier;
        updated_at = fresh.flushed;
      } in
          create_or_dedupe db fields fresh rows
          ≡ (ok t, map (λ (r : Ticket). if r.id == e.id then t else r) rows))
unfolding bump
create_or_dedupe-repeat db fields fresh rows fingerprint u given filled stored matching =
    let source = get_or fields.source "web" in
    let present = any_of_mem (dedupes fingerprint source) rows u stored (of_match _ _ u matching) in
    let (e, o, same) = repeat_lem db fields fresh rows fingerprint given filled present in
    (
      e,
      o.stored,
      dedupes-IsMatch fingerprint source e o.same,
      (λ y m k. o.oldest y m (of_match fingerprint source y k)),
      same,
    )

-- A report with no open ticket of its fingerprint and source is a new ticket, which `add_row` stores.
pub create_or_dedupe-first :
    (db : Database) (fields : Fields) (fresh : Fresh) (rows : List Ticket) (fingerprint : String)
    → fields.fingerprint ≡ some fingerprint
    → any (dedupes fingerprint (source_of fields)) rows ≡ false
    → create_or_dedupe db fields fresh rows ≡ add_row (new_ticket fields fresh) rows
unfolding create_or_dedupe bump_or_add
create_or_dedupe-first db fields fresh rows fingerprint given absent =
    rw (absent-find_existing db fields rows fingerprint given absent)
