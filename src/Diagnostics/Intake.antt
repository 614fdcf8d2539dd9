-- ===== src/Diagnostics/Intake.antt =====
-- What the intakes do with the service's state.
use netplex_support.Prelude.{
  ℕ, String, List, ◌≡◌, ◌⊎◌, inl, inr, ◌∙◌, ◌==◌, any, refl, Bool-cases, Option-cases,
}
use Prim.Native.String.{◌++◌}
use netplex_support.Http.{Reply, ok, error, crash}
use netplex_support.Platform.{Platform}
use netplex_support.Config.{Settings, at_least_one}
use netplex_support.Auth.{Request, client_ip}
use netplex_support.RateLimit.{rate_ok}
use netplex_support.Database.{Database}
use netplex_support.Tickets.{
  Ticket, Fields, Fresh, create_or_dedupe, add_row, bump_or_add, bump, new_ticket, find_existing,
}
use netplex_support.Licensing.{Clock}
use netplex_support.Diagnostics.{
  Service, ForwardedReport, WebReport, EmailReport, after, limited, file, must_fit, forwarded_fits,
  web_fits, email_fits, require_forward_auth, require_email_auth, or_else, forward_detail,
  forward_install, forward_ticket, verified_tier, forward_fields, web_fields, email_fields,
  receive_forwarded, receive_web, receive_email,
}

module _ {B : Type 0} (old : List Ticket) where
  -- A result that either is a success, or leaves the table of tickets as `old`.
  pub KeepsOnFailure : Reply B × Service → Type 0
  KeepsOnFailure out = ((b : B) × (out.0 ≡ ok b)) ⊎ (out.1.tickets ≡ old)

  after-keeps :
      {A : Type 0} (m : Reply A) (next : A → Reply B × Service) (st : Service)
      → st.tickets ≡ old
      → ((a : A) → KeepsOnFailure (next a))
      → KeepsOnFailure (after m next st)
  unfolding KeepsOnFailure
  after-keeps (ok a) next st e h = h a
  after-keeps (error status detail) next st e h = inr e
  after-keeps crash next st e h = inr e

  limited-keeps :
      (key : String) (limit : ℕ) (clock : Clock) (detail : String)
      (next : Service → Reply B × Service) (st : Service)
      → st.tickets ≡ old
      → ((st' : Service) → st'.tickets ≡ old → KeepsOnFailure (next st'))
      → KeepsOnFailure (limited key limit clock detail next st)
  unfolding KeepsOnFailure
  limited-keeps key limit clock detail next st e h =
      let st' : Service = record {
        hits = (rate_ok key limit clock.monotonic st.hits).1;
        tickets = st.tickets;
      } in
      elim (Bool-cases (rate_ok key limit clock.monotonic st.hits).0) [
        | inl a ↦ rw a (h st' e)
        | inr a ↦ rw a (inr e)
      ]

Kept : List Ticket → Reply Ticket × List Ticket → Type 0
Kept old out = ((t : Ticket) × (out.0 ≡ ok t)) ⊎ (out.1 ≡ old)

add_keeps : (t : Ticket) (rows : List Ticket) → Kept rows (add_row t rows)
unfolding Kept
add_keeps t rows = elim (Bool-cases (any (λ r. r.id == t.id) rows)) [
  | inl taken ↦ rw taken (inr refl)
  | inr free ↦ rw free (inl (t, refl))
]

create_keeps :
    (db : Database) (fields : Fields) (fresh : Fresh) (rows : List Ticket)
    → Kept rows (create_or_dedupe db fields fresh rows)
unfolding create_or_dedupe bump_or_add Kept
create_keeps db fields fresh rows = elim (Option-cases (find_existing db fields rows)) [
  | inl q ↦ rw q (add_keeps (new_ticket fields fresh) rows)
  | inr (e, q) ↦ rw q (inl (bump fresh e, refl))
]

file-keeps :
    (old : List Ticket) (db : Database) (fields : Fields) (fresh : Fresh) (st : Service)
    → st.tickets ≡ old
    → KeepsOnFailure old (file db fields fresh st)
unfolding KeepsOnFailure Kept
file-keeps old db fields fresh st e = elim (create_keeps db fields fresh st.tickets) [
  | inl found ↦ inl found
  | inr same ↦ inr (same ∙ e)
]

-- A call of /forward, of /web or of /email either is answered with a ticket, or leaves the table of
-- tickets as it was: no error, of whatever kind, changes it.
pub intakes-keep_tickets :
    (db : Database) (p : Platform) (s : Settings) (clock : Clock) (request : Request)
    (fresh : Fresh) (st : Service) (forwarded : ForwardedReport) (web : WebReport)
    (email : EmailReport)
    → KeepsOnFailure st.tickets (receive_forwarded db p s clock request forwarded fresh st)
      × KeepsOnFailure st.tickets (receive_web db s clock request web fresh st)
      × KeepsOnFailure st.tickets (receive_email db s clock request email fresh st)
unfolding receive_forwarded receive_web receive_email
intakes-keep_tickets db p s clock request fresh st forwarded web email =
    let old = st.tickets in
    let limit = at_least_one s.web_intake_rate_per_min in
    let limit' = at_least_one s.intake_rate_per_min in
    let ip = client_ip s request in
    (
      after-keeps old (must_fit (forwarded_fits forwarded)) _ st refl (λ _.
          after-keeps old (require_forward_auth s request) _ st refl (λ _.
            limited-keeps old ("fwd:ip:" ++ ip) limit' clock forward_detail
              (forward_install db p s clock request forwarded fresh) st refl
              (λ st1 e1.
                limited-keeps old ("fwd:install:" ++ or_else forwarded.install_id ip) limit' clock
                  forward_detail (forward_ticket db p s clock forwarded fresh) st1 e1
                  (λ st2 e2.
                    after-keeps old (verified_tier p s clock forwarded.license_token) _ st2 e2
                      (λ tier. file-keeps old db (forward_fields forwarded tier) fresh st2 e2))))),
      after-keeps old (must_fit (web_fits web)) _ st refl (λ _.
          limited-keeps old ("web:" ++ ip) limit clock "rate limit exceeded - slow down"
            (file db (web_fields web) fresh) st refl
            (λ st1 e1. file-keeps old db (web_fields web) fresh st1 e1)),
      after-keeps old (must_fit (email_fits email)) _ st refl (λ _.
          after-keeps old (require_email_auth s request) _ st refl (λ _.
            limited-keeps old ("email:" ++ ip) limit clock "rate limit exceeded - slow down"
              (file db (email_fields email) fresh) st refl
              (λ st1 e1. file-keeps old db (email_fields email) fresh st1 e1))),
    )
