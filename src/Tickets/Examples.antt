-- ===== src/Tickets/Examples.antt =====
-- A small table of tickets, and reports that are filed in it.
use netplex_support.Prelude.{
  ℕ, ◌+◌, map, ◌==◌, if◌then◌else◌, String, true, false, none, some, List, [], ◌∷◌, ◌≡◌, ◌≢◌, refl,
  any, arith, keep, length, ◌≤◌, ◌⊎◌, Bool-cases, inl, inr,
}
use netplex_support.Prelude.Text.{non_empty}
use netplex_support.Http.{ok}
use mathlib.Core.List.{Mem, mem-cons_self}
use netplex_support.Database.Memory.{memory}
use netplex_support.Tickets.{
  Ticket, Fields, no_fields, Fresh, new_ticket, add_row, bump, dedupes, priority_score,
  create_or_dedupe, holds, admin_queue, get_ticket_by_origin_local_id,
}
use netplex_support.Tickets.Rows.{HasDistinctIds, total}
use netplex_support.Tickets.Dedupe.{IsMatch, create_or_dedupe-repeat, create_or_dedupe-first}
use netplex_support.Tickets.Isolation.{of_others, create_or_dedupe-others}
use netplex_support.Tickets.Invariant.{
  IsWellFormed, occurrences, create_or_dedupe-IsWellFormed, create_or_dedupe-total,
}
use netplex_support.Tickets.Queue.{IsTriage, admin_queue-IsTriage}
use netplex_support.Tickets.Origin.{
  get_by_origin_lem, create_or_dedupe-forgets-origin, create_or_dedupe-keeps-origin,
}

abbrev report : String → String → String → Fields
report fingerprint source origin = record no_fields {
  fingerprint = some fingerprint;
  source = some source;
  severity = some "s1_crash";
  origin_local_id = some origin;
}

abbrev at_time : String → ℕ → Fresh
at_time token now = record { token = token; now = now; flushed = now + 1 }

abbrev first : Ticket
first = new_ticket (report "f1" "forward" "NPX-1") (at_time "0a0b0c0d0e0f" 100)

abbrev second : Ticket
second = new_ticket (report "f2" "web" "NPX-2") (at_time "1a1b1c1d1e1f" 200)

abbrev table : List Ticket
table = first ∷ second ∷ []

id_test : first.id ≡ "SUP-0A0B0C0D0E0F"
unfolding new_ticket
id_test = refl

distinct : HasDistinctIds table
unfolding new_ticket
distinct = (refl, (refl, tt))

single_row :
    (fingerprint source : String)
    → non_empty fingerprint ≡ true
    → length (keep (dedupes fingerprint source) (first ∷ [])) ≤ 1
single_row fingerprint source h = elim (Bool-cases (dedupes fingerprint source first)) [
  | inl e ↦ rw e (omega arith)
  | inr e ↦ rw e (omega arith)
]

table-IsWellFormed : IsWellFormed (first ∷ [])
unfolding new_ticket
table-IsWellFormed = record { ids = (refl, tt); scored = (refl, tt); single = single_row }

first-IsMatch : IsMatch "f1" "forward" first
unfolding new_ticket
first-IsMatch = record { fingerprint_eq = refl; source_eq = refl; status_eq = inl refl }

create_or_dedupe-repeat_example :
    (e : Ticket) × Mem e table
    × IsMatch "f1" "forward" e
    × ((y : Ticket) → Mem y table → IsMatch "f1" "forward" y → e.first_seen ≤ y.first_seen)
    × (let t : Ticket = record e {
      occurrences = e.occurrences + 1;
      last_seen = 300;
      priority_score = priority_score e.severity (e.occurrences + 1) e.reporter_tier;
      updated_at = (at_time "2a2b2c2d2e2f" 300).flushed;
    } in
        create_or_dedupe memory (report "f1" "forward" "NPX-9") (at_time "2a2b2c2d2e2f" 300) table
        ≡ (ok t, map (λ (r : Ticket). if r.id == e.id then t else r) table))
create_or_dedupe-repeat_example =
    create_or_dedupe-repeat memory (report "f1" "forward" "NPX-9") (at_time "2a2b2c2d2e2f" 300)
      table "f1" first refl refl mem-cons_self first-IsMatch

create_or_dedupe-first_test :
    create_or_dedupe memory (report "f1" "web" "NPX-9") (at_time "2a2b2c2d2e2f" 300) table
    ≡ add_row (new_ticket (report "f1" "web" "NPX-9") (at_time "2a2b2c2d2e2f" 300)) table
unfolding new_ticket
create_or_dedupe-first_test =
    create_or_dedupe-first memory (report "f1" "web" "NPX-9") (at_time "2a2b2c2d2e2f" 300) table
      "f1" refl refl

create_or_dedupe-others_example :
    keep
      (of_others "forward")
      (create_or_dedupe memory (report "f1" "forward" "NPX-9") (at_time "2a2b2c2d2e2f" 300) table).1
    ≡ keep (of_others "forward") table
create_or_dedupe-others_example =
    create_or_dedupe-others memory (report "f1" "forward" "NPX-9") (at_time "2a2b2c2d2e2f" 300)
      table distinct

create_or_dedupe-IsWellFormed_example :
    IsWellFormed
      (create_or_dedupe memory
        (report "f1" "forward" "NPX-9")
        (at_time "2a2b2c2d2e2f" 300)
        (first ∷ [])).1
create_or_dedupe-IsWellFormed_example =
    create_or_dedupe-IsWellFormed memory (report "f1" "forward" "NPX-9")
      (at_time "2a2b2c2d2e2f" 300) (first ∷ []) table-IsWellFormed

abbrev repeated : Ticket
repeated = bump (at_time "2a2b2c2d2e2f" 300) first

create_or_dedupe-total_example :
    total occurrences
      (create_or_dedupe memory (report "f1" "forward" "NPX-9") (at_time "2a2b2c2d2e2f" 300) table).1
    ≡ total occurrences table + 1
unfolding new_ticket bump create_or_dedupe memory
create_or_dedupe-total_example =
    create_or_dedupe-total memory (report "f1" "forward" "NPX-9") (at_time "2a2b2c2d2e2f" 300) table
      repeated distinct refl

admin_queue-IsTriage_example : IsTriage table 1 (admin_queue memory 1 table)
admin_queue-IsTriage_example = admin_queue-IsTriage memory 1 table

get_by_origin_lem_test :
    ((t : Ticket) × (get_ticket_by_origin_local_id memory "NPX-2" table ≡ some t)
      × Mem t table
      × (holds t.origin_local_id "NPX-2" ≡ true)
      × ((u : Ticket)
          → Mem u table
          → holds u.origin_local_id "NPX-2" ≡ true
          → u.first_seen ≤ t.first_seen))
    ⊎ ((get_ticket_by_origin_local_id memory "NPX-2" table ≡ none)
        × (any (λ u. holds u.origin_local_id "NPX-2") table ≡ false))
get_by_origin_lem_test = get_by_origin_lem memory "NPX-2" table

create_or_dedupe-forgets-origin_example :
    get_ticket_by_origin_local_id memory "NPX-9"
      (create_or_dedupe memory (report "f1" "forward" "NPX-9") (at_time "2a2b2c2d2e2f" 300) table).1
    ≡ none
unfolding new_ticket
create_or_dedupe-forgets-origin_example =
    create_or_dedupe-forgets-origin memory (report "f1" "forward" "NPX-9")
      (at_time "2a2b2c2d2e2f" 300) table "f1" "NPX-9" refl refl refl refl

abbrev added : Ticket
added = new_ticket (report "f3" "forward" "NPX-9") (at_time "2a2b2c2d2e2f" 300)

create_or_dedupe-keeps-origin_test :
    get_ticket_by_origin_local_id memory "NPX-9"
      (create_or_dedupe memory (report "f3" "forward" "NPX-9") (at_time "2a2b2c2d2e2f" 300) table).1
    ≢ none
unfolding new_ticket create_or_dedupe memory
create_or_dedupe-keeps-origin_test =
    create_or_dedupe-keeps-origin memory (report "f3" "forward" "NPX-9")
      (at_time "2a2b2c2d2e2f" 300) table "f3" "NPX-9" added refl refl refl refl
