-- ===== src/Tickets.antt =====
-- app/models.py: the ticket table and its operations. A table is the list of its rows, in the order
-- of their insertion; times are in microseconds.
mod Examples
mod Rows
pub mod Dedupe
pub mod Invariant
pub mod Queue
pub mod Isolation
pub mod Origin
pub mod Every
use netplex_support.Prelude.{
  ℕ, ◌+◌, ◌*◌, String, Bool, true, false, ◌&&◌, not, Option, none, some, List, [], ◌∷◌, ◌++◌, map,
  any, lookup, ltb, leb, nat_eq, take, ◌==◌, if◌then◌else◌,
}
use netplex_support.Prelude.Text.{non_empty, upper}
use netplex_support.Http.{Reply, ok, crash}
use netplex_support.Database.{Database, scalar_one_or_none, first_row}
use Prim.Native.String
use mathlib.Core.Option.{get_or}

abbrev severity_weight : List (String × ℕ)
severity_weight =
    ("s1_crash", 16)
    ∷ ("s2_broken", 8)
    ∷ ("s3_degraded", 4)
    ∷ ("s4_cosmetic", 2)
    ∷ ("s5_idea", 1)
    ∷ []

abbrev tier_weight : List (String × ℕ)
tier_weight =
    ("master", 5)
    ∷ ("enterprise", 5)
    ∷ ("team", 4)
    ∷ ("architect", 4)
    ∷ ("professional", 3)
    ∷ ("class", 3)
    ∷ ("associate", 1)
    ∷ []

abbrev open_states : List String
open_states = "new" ∷ "triaged" ∷ "in_progress" ∷ "fixed" ∷ []

unfoldable pub priority_score : String → ℕ → String → ℕ
priority_score severity occurrences tier =
    get_or (lookup severity severity_weight) 4
    * (if ltb occurrences 1 then 1 else occurrences)
    * get_or (lookup tier tier_weight) 1

-- "SUP-" + secrets.token_hex(6).upper(), for the text that `token_hex` returned
unfoldable pub new_ticket_id : String → String
unfolding upper
new_ticket_id token = String.◌++◌ "SUP-" (upper token)

pub record Ticket : Type 0 where
  pub id : String
  pub kind : String
  pub fingerprint : Option String
  pub status : String
  pub severity : String
  pub title : String
  pub body : String
  pub occurrences : ℕ
  pub first_seen : ℕ
  pub last_seen : ℕ
  pub source : String
  pub reporter_tier : String
  pub identified : Bool
  pub contact : Option String
  pub install_id : Option String
  pub origin_local_id : Option String
  pub license_id_hash : Option String
  pub scope_path : Option String
  pub priority_score : ℕ
  pub github_issue : Option ℕ
  pub fixed_in_version : Option String
  pub attachments : Option String
  pub diagnostic_json : Option String
  pub created_at : ℕ
  pub updated_at : ℕ

-- The keyword arguments of `create_or_dedupe`. `none` is a key that is not given; for a key without a
-- default it is also None. A key with a default is taken never to be given as None, which would be
-- kept in place of the default: no caller gives it so.
pub record Fields : Type 0 where
  pub kind : Option String
  pub fingerprint : Option String
  pub status : Option String
  pub severity : Option String
  pub title : Option String
  pub body : Option String
  pub occurrences : Option ℕ
  pub source : Option String
  pub reporter_tier : Option String
  pub identified : Option Bool
  pub contact : Option String
  pub install_id : Option String
  pub origin_local_id : Option String
  pub license_id_hash : Option String
  pub scope_path : Option String
  pub github_issue : Option ℕ
  pub fixed_in_version : Option String
  pub attachments : Option String
  pub diagnostic_json : Option String

abbrev pub no_fields : Fields
no_fields = record {
  kind = none;
  fingerprint = none;
  status = none;
  severity = none;
  title = none;
  body = none;
  occurrences = none;
  source = none;
  reporter_tier = none;
  identified = none;
  contact = none;
  install_id = none;
  origin_local_id = none;
  license_id_hash = none;
  scope_path = none;
  github_issue = none;
  fixed_in_version = none;
  attachments = none;
  diagnostic_json = none;
}

-- Ticket.status.in_(OPEN_STATES)
abbrev pub is_open : Ticket → Bool
is_open t = any (λ s. t.status == s) open_states

abbrev pub holds : Option String → String → Bool
holds none s = false
holds (some r) s = r == s

-- The WHERE clause of the dedupe query.
abbrev pub dedupes : String → String → Ticket → Bool
dedupes fingerprint source t = holds t.fingerprint fingerprint && t.source == source && is_open t

abbrev pub older : Ticket → Ticket → Bool
older a b = leb a.first_seen b.first_seen

-- What the outside gives to one call: the token of `secrets`, and two readings of the clock, the
-- call's own and the later one at which the session writes its changes.
pub record Fresh : Type 0 where
  pub token : String
  pub now : ℕ
  pub flushed : ℕ

-- One more occurrence of a ticket.
unfoldable pub bump : Fresh → Ticket → Ticket
unfolding priority_score
bump fresh t = record t {
  occurrences = t.occurrences + 1;
  last_seen = fresh.now;
  priority_score = priority_score t.severity (t.occurrences + 1) t.reporter_tier;
  updated_at = fresh.flushed;
}

unfoldable pub new_ticket : Fields → Fresh → Ticket
unfolding priority_score new_ticket_id
new_ticket fields fresh =
    let severity = get_or fields.severity "s2_broken" in
    let tier = get_or fields.reporter_tier "associate" in
    record {
      id = new_ticket_id fresh.token;
      kind = get_or fields.kind "crash";
      fingerprint = fields.fingerprint;
      status = get_or fields.status "new";
      severity = severity;
      title = get_or fields.title "";
      body = get_or fields.body "";
      occurrences = get_or fields.occurrences 1;
      first_seen = fresh.now;
      last_seen = fresh.now;
      source = get_or fields.source "web";
      reporter_tier = tier;
      identified = get_or fields.identified false;
      contact = fields.contact;
      install_id = fields.install_id;
      origin_local_id = fields.origin_local_id;
      license_id_hash = fields.license_id_hash;
      scope_path = fields.scope_path;
      priority_score = priority_score severity (get_or fields.occurrences 1) tier;
      github_issue = fields.github_issue;
      fixed_in_version = fields.fixed_in_version;
      attachments = fields.attachments;
      diagnostic_json = fields.diagnostic_json;
      created_at = fresh.flushed;
      updated_at = fresh.flushed;
    }

-- Committing a changed row: the row with its primary key is replaced.
abbrev pub update_row : Ticket → List Ticket → List Ticket
update_row t rows = map (λ r. if r.id == t.id then t else r) rows

-- Committing a new row: IntegrityError where its primary key is taken, and nothing is stored. The
-- reading of the row after the commit, `session.refresh`, is taken to succeed.
abbrev pub add_row : Ticket → List Ticket → Reply Ticket × List Ticket
add_row t rows = if any (λ r. r.id == t.id) rows then (crash, rows) else (ok t, rows ++ t ∷ [])

-- The row that the dedupe query finds.
unfoldable pub find_existing : Database → Fields → List Ticket → Option Ticket
find_existing db fields rows =
    let fingerprint = get_or fields.fingerprint "" in
    if non_empty fingerprint
    then first_row (db.select (dedupes fingerprint (get_or fields.source "web")) older rows)
    else none

unfoldable pub bump_or_add :
    Fields → Fresh → List Ticket → Option Ticket → Reply Ticket × List Ticket
unfolding bump new_ticket
bump_or_add fields fresh rows (some existing) =
    (ok (bump fresh existing), update_row (bump fresh existing) rows)
bump_or_add fields fresh rows none = add_row (new_ticket fields fresh) rows

unfoldable pub create_or_dedupe :
    Database → Fields → Fresh → List Ticket → Reply Ticket × List Ticket
unfolding find_existing bump_or_add
create_or_dedupe db fields fresh rows = bump_or_add fields fresh rows (find_existing db fields rows)

abbrev any_order : Ticket → Ticket → Bool
any_order a b = true

unfoldable pub get_ticket : Database → String → List Ticket → Reply (Option Ticket)
get_ticket db ticket_id rows =
    scalar_one_or_none (db.select (λ t. t.id == ticket_id) any_order rows)

-- Most recent first.
abbrev pub newer : Ticket → Ticket → Bool
newer a b = leb b.first_seen a.first_seen

unfoldable pub get_ticket_by_origin_local_id : Database → String → List Ticket → Option Ticket
get_ticket_by_origin_local_id db origin_local_id rows =
    first_row (db.select (λ t. holds t.origin_local_id origin_local_id) newer rows)

-- ORDER BY priority_score DESC, last_seen DESC
abbrev pub more_urgent : Ticket → Ticket → Bool
more_urgent a b =
    if nat_eq a.priority_score b.priority_score
    then leb b.last_seen a.last_seen
    else ltb b.priority_score a.priority_score

unfoldable pub admin_queue : Database → ℕ → List Ticket → List Ticket
admin_queue db limit rows = take limit (db.select is_open more_urgent rows)
