-- ===== src/Diagnostics/Reachable.antt =====
-- The states of the service that calls of the intakes lead to, in any order, from an empty one, and
-- what holds in all of them.
use mathlib.Core.Logic.{∥∥₁_elim}
use netplex_support.Prelude.{
  ℕ, String, Option, none, some, List, [], ◌≡◌, ◌⊎◌, inl, inr, refl, All, Bool-cases, arith,
}
use Prim.Native.String.{◌++◌}
use netplex_support.Http.{Reply, ok, error, crash}
use netplex_support.Platform.{Platform}
use netplex_support.Config.{Settings, at_least_one}
use netplex_support.Auth.{Request, client_ip}
use netplex_support.RateLimit.{rate_ok}
use netplex_support.Database.{Database}
use netplex_support.Tickets.{Ticket, Fields, Fresh, create_or_dedupe, bump, new_ticket}
use netplex_support.Tickets.Every.{create_or_dedupe-All}
use netplex_support.Tickets.Invariant.{IsWellFormed, create_or_dedupe-IsWellFormed}
use netplex_support.Licensing.{Clock}
use netplex_support.Diagnostics.{
  Service, ForwardedReport, WebReport, EmailReport, after, limited, file, must_fit, forwarded_fits,
  web_fits, email_fits, require_forward_auth, require_email_auth, or_else, forward_detail,
  forward_install, forward_ticket, verified_tier, forward_fields, web_fields, email_fields,
  receive_forwarded, receive_web, receive_email,
}
use netplex_support.Diagnostics.Tier.{IsProof, verified_tier_lem}

pub data IsReachable (db : Database) (p : Platform) (s : Settings) : Service → Type 0 where
  start : IsReachable db p s (record { hits = []; tickets = [] })
  forward :
      (st : Service) (clock : Clock) (request : Request) (report : ForwardedReport) (fresh : Fresh)
      → IsReachable db p s st
      → IsReachable db p s (receive_forwarded db p s clock request report fresh st).1
  web :
      (st : Service) (clock : Clock) (request : Request) (report : WebReport) (fresh : Fresh)
      → IsReachable db p s st
      → IsReachable db p s (receive_web db s clock request report fresh st).1
  email :
      (st : Service) (clock : Clock) (request : Request) (report : EmailReport) (fresh : Fresh)
      → IsReachable db p s st
      → IsReachable db p s (receive_email db s clock request report fresh st).1

-- A property of tables that one step keeps.
module _ (P : List Ticket → Type 0) where
  after-keeps :
      {A : Type 0} {B : Type 0} (m : Reply A) (next : A → Reply B × Service) (st : Service)
      → P st.tickets
      → ((a : A) → m ≡ ok a → P (next a).1.tickets)
      → P (after m next st).1.tickets
  after-keeps (ok a) next st h k = k a refl
  after-keeps (error status detail) next st h k = h
  after-keeps crash next st h k = h

  limited-keeps :
      {B : Type 0} (key : String) (limit : ℕ) (clock : Clock) (detail : String)
      (next : Service → Reply B × Service) (st : Service)
      → P st.tickets
      → ((st' : Service) → P st'.tickets → P (next st').1.tickets)
      → P (limited key limit clock detail next st).1.tickets
  limited-keeps key limit clock detail next st h k =
      let st' : Service = record {
        hits = (rate_ok key limit clock.monotonic st.hits).1;
        tickets = st.tickets;
      } in
      elim (Bool-cases (rate_ok key limit clock.monotonic st.hits).0) [
        | inl a ↦ rw a (k st' h)
        | inr a ↦ rw a h
      ]

  -- What filing a report keeps, every intake keeps.
  module _ (db : Database) (p : Platform) (s : Settings) where
    abbrev KeepsWith : (Fields → Type 0) → Type 0
    KeepsWith Q =
        (fields : Fields) (fresh : Fresh) (rows : List Ticket)
        → Q fields
        → P rows
        → P (create_or_dedupe db fields fresh rows).1

    forwarded_keeps :
        (Q : Fields → Type 0) (clock : Clock) (request : Request) (report : ForwardedReport)
        (fresh : Fresh) (st : Service)
        → KeepsWith Q
        → ((filed : String × Option String)
            → verified_tier p s clock report.license_token ≡ ok filed
            → Q (forward_fields report filed))
        → P st.tickets
        → P (receive_forwarded db p s clock request report fresh st).1.tickets
    unfolding receive_forwarded
    forwarded_keeps Q clock request report fresh st keeps allowed h =
        let limit = at_least_one s.intake_rate_per_min in
        let ip = client_ip s request in
        after-keeps (must_fit (forwarded_fits report)) _ st h (λ _ _.
          after-keeps (require_forward_auth s request) _ st h (λ _ _.
            limited-keeps ("fwd:ip:" ++ ip) limit clock forward_detail
              (forward_install db p s clock request report fresh) st h
              (λ st1 h1.
                limited-keeps ("fwd:install:" ++ or_else report.install_id ip) limit clock
                  forward_detail (forward_ticket db p s clock report fresh) st1 h1
                  (λ st2 h2.
                    after-keeps (verified_tier p s clock report.license_token) _ st2 h2 (λ filed e.
                      keeps (forward_fields report filed) fresh st2.tickets (allowed filed e)
                        h2)))))

    web_keeps :
        (Q : Fields → Type 0) (clock : Clock) (request : Request) (report : WebReport)
        (fresh : Fresh) (st : Service)
        → KeepsWith Q
        → Q (web_fields report)
        → P st.tickets
        → P (receive_web db s clock request report fresh st).1.tickets
    unfolding receive_web
    web_keeps Q clock request report fresh st keeps allowed h =
        after-keeps (must_fit (web_fits report)) _ st h (λ _ _.
          limited-keeps ("web:" ++ client_ip s request) (at_least_one s.web_intake_rate_per_min)
            clock "rate limit exceeded - slow down" (file db (web_fields report) fresh) st h
            (λ st1 h1. keeps (web_fields report) fresh st1.tickets allowed h1))

    email_keeps :
        (Q : Fields → Type 0) (clock : Clock) (request : Request) (report : EmailReport)
        (fresh : Fresh) (st : Service)
        → KeepsWith Q
        → Q (email_fields report)
        → P st.tickets
        → P (receive_email db s clock request report fresh st).1.tickets
    unfolding receive_email
    email_keeps Q clock request report fresh st keeps allowed h =
        after-keeps (must_fit (email_fits report)) _ st h (λ _ _.
          after-keeps (require_email_auth s request) _ st h (λ _ _.
            limited-keeps ("email:" ++ client_ip s request) (at_least_one s.web_intake_rate_per_min)
              clock "rate limit exceeded - slow down" (file db (email_fields report) fresh) st h
              (λ st1 h1. keeps (email_fields report) fresh st1.tickets allowed h1)))

    abbrev Allows : (Fields → Type 0) → Type 0
    Allows Q =
        ((clock : Clock) (report : ForwardedReport) (filed : String × Option String)
          → verified_tier p s clock report.license_token ≡ ok filed
          → Q (forward_fields report filed))
        × ((report : WebReport) → Q (web_fields report))
        × ((report : EmailReport) → Q (email_fields report))

    reachable_keeps :
        (Q : Fields → Type 0) (st : Service)
        → P []
        → KeepsWith Q
        → Allows Q
        → IsReachable db p s st
        → P st.tickets
    reachable_keeps Q st h keeps allowed start = h
    reachable_keeps Q st h keeps allowed (forward st' clock request report fresh r) =
        forwarded_keeps Q clock request report fresh st' keeps (allowed.0 clock report)
          (reachable_keeps Q st' h keeps allowed r)
    reachable_keeps Q st h keeps allowed (web st' clock request report fresh r) =
        web_keeps Q clock request report fresh st' keeps (allowed.1 report)
          (reachable_keeps Q st' h keeps allowed r)
    reachable_keeps Q st h keeps allowed (email st' clock request report fresh r) =
        email_keeps Q clock request report fresh st' keeps (allowed.2 report)
          (reachable_keeps Q st' h keeps allowed r)

empty-IsWellFormed : IsWellFormed []
empty-IsWellFormed = record { ids = tt; scored = tt; single = λ fingerprint source h. omega arith }

-- In every state that calls of the intakes lead to from an empty one, whatever the calls and in
-- whatever order, the ticket table is well-formed: primary keys are distinct, every score is that
-- of its ticket, and a fingerprint has at most one open ticket from each source.
pub reachable-IsWellFormed :
    (db : Database) (p : Platform) (s : Settings) (st : Service)
    → IsReachable db p s st
    → IsWellFormed st.tickets
reachable-IsWellFormed db p s st r =
    reachable_keeps IsWellFormed db p s (λ fields. Unit {0}) st empty-IsWellFormed
      (λ fields fresh rows _ h. create_or_dedupe-IsWellFormed db fields fresh rows h)
      (λ clock report filed e. tt, λ report. tt, λ report. tt) r

-- A ticket of the lowest tier without a license hash, or a forwarded one whose tier and hash some
-- license token proves.
module _ (p : Platform) (s : Settings) where
  pub IsEarned : Ticket → Type 0
  IsEarned t =
      ((t.reporter_tier ≡ "associate") × (t.license_id_hash ≡ none))
      ⊎ ((t.source ≡ "forward")
          × ((clock : Clock) × (given : Option String) × (hash : String) × (t.license_id_hash
                ≡ some hash)
              × IsProof p s clock given t.reporter_tier hash))

  bump-IsEarned : (fresh : Fresh) (t : Ticket) → IsEarned t → IsEarned (bump fresh t)
  unfolding IsEarned bump
  bump-IsEarned fresh t e = e

  forward-IsEarned :
      (clock : Clock) (report : ForwardedReport) (filed : String × Option String) (fresh : Fresh)
      → verified_tier p s clock report.license_token ≡ ok filed
      → IsEarned (new_ticket (forward_fields report filed) fresh)
  unfolding IsEarned new_ticket forward_fields
  forward-IsEarned clock report filed fresh e =
      elim (verified_tier_lem p s clock report.license_token filed e) [
        | inl q ↦ rw q (inl (refl, refl))
        | inr (tier, hash, q, proof) ↦
            rw q (inr (refl, (clock, report.license_token, hash, refl, proof)))
      ]

  web-IsEarned :
      (report : WebReport) (fresh : Fresh) → IsEarned (new_ticket (web_fields report) fresh)
  unfolding IsEarned new_ticket web_fields
  web-IsEarned report fresh = inl (refl, refl)

  email-IsEarned :
      (report : EmailReport) (fresh : Fresh) → IsEarned (new_ticket (email_fields report) fresh)
  unfolding IsEarned new_ticket email_fields
  email-IsEarned report fresh = inl (refl, refl)

-- In every state that calls of the intakes lead to from an empty one, whatever the calls and in
-- whatever order, every ticket either has the tier "associate" and no license hash, or came by
-- /forward with a tier and a hash that a license token proved, which `_verify_token` answered as
-- valid at some time under the license trust store.
pub reachable-IsEarned :
    (db : Database) (p : Platform) (s : Settings) (st : Service)
    → IsReachable db p s st
    → All (λ t. ∥ IsEarned p s t ∥₁) st.tickets
reachable-IsEarned db p s st r =
    reachable_keeps (All (λ t. ∥ IsEarned p s t ∥₁)) db p s
      (λ fields. (fresh : Fresh) → ∥ IsEarned p s (new_ticket fields fresh) ∥₁) st tt
      (λ fields fresh rows allowed h.
        create_or_dedupe-All (λ t. ∥ IsEarned p s t ∥₁) db fields fresh rows (λ t. hlevel)
          (λ t e. ∥∥₁_elim e (hlevel) (λ x. ∣ bump-IsEarned p s fresh t x ∣₁)) (allowed fresh) h)
      (
        λ clock report filed e fresh. ∣ forward-IsEarned p s clock report filed fresh e ∣₁,
        λ report fresh. ∣ web-IsEarned p s report fresh ∣₁,
        λ report fresh. ∣ email-IsEarned p s report fresh ∣₁,
      )
      r
