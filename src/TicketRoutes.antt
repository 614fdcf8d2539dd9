-- ===== src/TicketRoutes.antt =====
-- app/routers/tickets.py: the routes that show tickets. All of them only read.
use netplex_support.Prelude.{
  ℕ, String, Bool, false, Option, none, some, List, [], ◌∷◌, length, if◌then◌else◌,
}
use netplex_support.Prelude.Text.{non_empty}
use netplex_support.Http.{Reply, ok, error, crash, ◌>>=◌}
use netplex_support.Json.{Value, null, str, arr, Items, nil, cons}
use netplex_support.Platform.{Platform}
use netplex_support.Config.{Settings}
use netplex_support.Auth.{Request, require_admin}
use netplex_support.Database.{Database}
use netplex_support.Tickets.{Ticket, get_ticket, get_ticket_by_origin_local_id, admin_queue}

pub record TicketView : Type 0 where
  pub id : String
  pub kind : String
  pub status : String
  pub severity : String
  pub title : String
  pub occurrences : ℕ
  pub reporter_tier : String
  pub priority_score : ℕ
  pub fixed_in_version : Option String
  pub source : String
  pub origin_local_id : Option String
  pub has_diagnostic_bundle : Bool
  pub attachment_refs : List String

-- bool(x) of an optional text
abbrev pub is_given : Option String → Bool
is_given none = false
is_given (some s) = non_empty s

prepend : Value → Reply (List String) → Reply (List String)
prepend (str s) (ok rest) = ok (s ∷ rest)
prepend v rest = crash

-- What the view's type makes of a list of JSON values: ValidationError for what is not a text.
unfoldable pub texts_of : Items → Reply (List String)
unfolding prepend
texts_of nil = ok []
texts_of (cons v vs) = prepend v (texts_of vs)

refs_of_value : Option Value → Reply (List String)
unfolding texts_of
refs_of_value none = ok []
refs_of_value (some (arr vs)) = texts_of vs
refs_of_value (some v) = crash

-- The attachment refs that TicketView.of shows.
unfoldable pub attachment_refs : Platform → Option String → Reply (List String)
unfolding refs_of_value
attachment_refs p none = ok []
attachment_refs p (some s) = if non_empty s then refs_of_value (p.loads s) else ok []

-- TicketView.of
unfoldable pub view : Platform → Ticket → Reply TicketView
unfolding attachment_refs
view p t = do
  refs ← attachment_refs p t.attachments
  ok (record {
    id = t.id;
    kind = t.kind;
    status = t.status;
    severity = t.severity;
    title = t.title;
    occurrences = t.occurrences;
    reporter_tier = t.reporter_tier;
    priority_score = t.priority_score;
    fixed_in_version = t.fixed_in_version;
    source = t.source;
    origin_local_id = t.origin_local_id;
    has_diagnostic_bundle = is_given t.diagnostic_json;
    attachment_refs = refs;
  })

unfoldable pub views : Platform → List Ticket → Reply (List TicketView)
unfolding view
views p [] = ok []
views p (t ∷ ts) = view p t >>= λ v. views p ts >>= λ vs. ok (v ∷ vs)

-- GET /admin/queue: the count, and the tickets
unfoldable pub triage_queue :
    Database → Platform → Settings → Request → ℕ → List Ticket → Reply (ℕ × List TicketView)
unfolding require_admin admin_queue views
triage_queue db p s request limit rows = do
  _ ← require_admin s request
  shown ← views p (admin_queue db limit rows)
  ok (length (admin_queue db limit rows), shown)

abbrev pub view_or_404 : Platform → String → Option Ticket → Reply TicketView
view_or_404 p detail none = error 404 detail
view_or_404 p detail (some t) = view p t

-- GET /admin/by-origin/{origin_local_id}
unfoldable pub get_ticket_by_origin_route :
    Database → Platform → Settings → Request → String → List Ticket → Reply TicketView
unfolding require_admin get_ticket_by_origin_local_id view
get_ticket_by_origin_route db p s request origin_local_id rows = do
  _ ← require_admin s request
  view_or_404 p "no ticket for that origin_local_id"
      (get_ticket_by_origin_local_id db origin_local_id rows)

-- GET /claim/{claim_code}
abbrev pub claim_lookup : String → Reply TicketView
claim_lookup claim_code = error 404 "no ticket for that claim code"

-- GET /{ticket_id}
unfoldable pub get_ticket_route : Database → Platform → String → List Ticket → Reply TicketView
unfolding get_ticket view
get_ticket_route db p ticket_id rows = do
  t ← get_ticket db ticket_id rows
  view_or_404 p "ticket not found" t

pub record DiagnosticView : Type 0 where
  pub id : String
  pub diagnostic_bundle : Value
  pub attachment_refs : Value

abbrev value_or : Value → Option Value → Value
value_or default none = default
value_or default (some v) = v

-- The bundle as JSON, or as it stands where it is not JSON.
abbrev bundle_of : Platform → Option String → Value
bundle_of p none = null
bundle_of p (some s) = if non_empty s then value_or (str s) (p.loads s) else null

abbrev raw_refs : Platform → Option String → Value
raw_refs p none = arr nil
raw_refs p (some s) = if non_empty s then value_or (arr nil) (p.loads s) else arr nil

abbrev pub diagnostic_of : Platform → Option Ticket → Reply DiagnosticView
diagnostic_of p none = error 404 "ticket not found"
diagnostic_of p (some t) = ok (record {
  id = t.id;
  diagnostic_bundle = bundle_of p t.diagnostic_json;
  attachment_refs = raw_refs p t.attachments;
})

-- GET /{ticket_id}/diagnostic
unfoldable pub get_ticket_diagnostic :
    Database → Platform → Settings → Request → String → List Ticket → Reply DiagnosticView
unfolding require_admin get_ticket
get_ticket_diagnostic db p s request ticket_id rows = do
  _ ← require_admin s request
  t ← get_ticket db ticket_id rows
  diagnostic_of p t
