-- ===== src/Diagnostics.antt =====
-- app/routers/diagnostics.py: the intakes. They change two parts of the service, the hits of the rate
-- limiter and the table of tickets. A report that breaks a limit of its model is answered with
-- status 422 before the route runs.
mod Examples
mod Models
pub mod Intake
pub mod Tier
pub mod Reachable
pub mod Attachment
use Prim.Native.String.{◌++◌}
use mathlib.Core.Option.{get_or}
use netplex_support.Prelude.{
  ℕ, String, Bool, true, false, ◌&&◌, ◌||◌, not, Option, none, some, List, [], ◌∷◌, ◌==◌,
  if◌then◌else◌, leb, any, all, length,
}
use netplex_support.Prelude.Text.{non_empty, count_chars}
use netplex_support.Prelude.Text.Utf8.{utf8}
use netplex_support.Http.{Reply, ok, error, crash, ◌>>=◌}
use netplex_support.Json.Write.{write_texts}
use netplex_support.Platform.{Platform}
use netplex_support.Config.{Settings, at_least_one}
use netplex_support.Auth.{Request, check_bearer, client_ip}
use netplex_support.RateLimit.{Hits, rate_ok}
use netplex_support.Base64.{b64decode_strict, Bytes}
use netplex_support.Blobs.{Descriptor, Stored, descriptor, value_error, put_blob}
use netplex_support.Database.{Database}
use netplex_support.Tickets.{Ticket, Fields, no_fields, Fresh, create_or_dedupe}
use netplex_support.Licensing.{Clock, VerifyResult, verify_token, license_trust_store}
pub use netplex_support.Diagnostics.Models.{
  ForwardedReport, WebReport, EmailReport, AttachmentUpload,
}
unfoldable pub use netplex_support.Diagnostics.Models.{
  is_kind, fits, fits_if_given, forwarded_fits, web_fits, email_fits,
}

-- What the intakes change.
pub record Service : Type 0 where
  pub hits : Hits
  pub tickets : List Ticket

-- _require_forward_auth
unfoldable pub require_forward_auth : Settings → Request → Reply (Unit {0})
unfolding check_bearer
require_forward_auth s request =
    check_bearer request s.forward_intake_tokens "forward intake is not configured on this server"
      "invalid or missing intake token"

-- _require_email_auth
unfoldable pub require_email_auth : Settings → Request → Reply (Unit {0})
unfolding check_bearer
require_email_auth s request =
    check_bearer request s.email_intake_secrets "email intake is not configured on this server"
      "invalid or missing intake token"

-- What the framework answers where a model's limit is broken.
abbrev pub must_fit : Bool → Reply (Unit {0})
must_fit b = if b then ok tt else error 422 "validation error"

-- A route's step that only reads, and what follows it if it succeeds.
abbrev pub after {ℓ κ} :
    {A : Type ℓ} {B : Type κ} → Reply A → (A → Reply B × Service) → Service → Reply B × Service
after (ok a) next st = next a
after (error status detail) next st = (error status detail, st)
after crash next st = (crash, st)

-- A call of the rate limiter, and what follows it if the call is allowed.
abbrev pub limited :
    {B : Type 0}
    → String
    → ℕ
    → Clock
    → String
    → (Service → Reply B × Service)
    → Service
    → Reply B × Service
limited key limit clock detail next st =
    let (allowed, recorded) = rate_ok key limit clock.monotonic st.hits in
    let st' : Service = record { hits = recorded; tickets = st.tickets } in
    if allowed then next st' else (error 429 detail, st')

-- create_or_dedupe on the table of the service
abbrev pub file : Database → Fields → Fresh → Service → Reply Ticket × Service
file db fields fresh st =
    let (reply, tickets) = create_or_dedupe db fields fresh st.tickets in
    (reply, record { hits = st.hits; tickets = tickets })

-- x or default, of an optional text and of a text
abbrev pub or_else : Option String → String → String
or_else none default = default
or_else (some s) default = if non_empty s then s else default

-- bool(x) of an optional text
abbrev pub is_given : Option String → Bool
is_given none = false
is_given (some s) = non_empty s

-- The tier that a license token proves, and the hash that the ticket keeps of it.
abbrev pub proved : Platform → String → VerifyResult → String × Option String
proved p token result =
    if result.valid
    then (or_else (some result.tier) "associate", some (p.sha256_hexdigest (utf8 token)))
    else ("associate", none)

unfoldable pub verified_tier :
    Platform → Settings → Clock → Option String → Reply (String × Option String)
unfolding utf8 verify_token license_trust_store
verified_tier p s clock none = ok ("associate", none)
verified_tier p s clock (some token) =
    if non_empty token
    then license_trust_store p s >>= (λ trust.
      verify_token p clock.time token trust >>= (λ result. ok (proved p token result)))
    else ok ("associate", none)

-- json.dumps(refs) if refs else None
unfoldable pub attachments_json : List String → Option String
unfolding write_texts
attachments_json [] = none
attachments_json (r ∷ rs) = some (write_texts (r ∷ rs))

unfoldable pub forward_fields : ForwardedReport → String × Option String → Fields
unfolding attachments_json
forward_fields report (tier, license_id_hash) = record no_fields {
  kind = some report.kind;
  fingerprint = report.fingerprint;
  title = some report.title;
  body = some report.body;
  severity = some report.severity;
  source = some "forward";
  reporter_tier = some tier;
  identified = some (is_given report.contact);
  contact = report.contact;
  install_id = report.install_id;
  origin_local_id = report.origin_local_id;
  license_id_hash = license_id_hash;
  attachments = attachments_json report.attachment_refs;
  diagnostic_json = report.diagnostic_bundle;
}

abbrev pub forward_detail : String
forward_detail = "forward rate limit exceeded - back off"

-- POST /forward, behind both budgets
abbrev pub forward_ticket :
    Database
    → Platform
    → Settings
    → Clock
    → ForwardedReport
    → Fresh
    → Service
    → Reply Ticket × Service
forward_ticket db p s clock report fresh st =
    after (verified_tier p s clock report.license_token)
      (λ tier. file db (forward_fields report tier) fresh st) st

-- POST /forward, behind the budget of the address
abbrev pub forward_install :
    Database
    → Platform
    → Settings
    → Clock
    → Request
    → ForwardedReport
    → Fresh
    → Service
    → Reply Ticket × Service
forward_install db p s clock request report fresh =
    limited ("fwd:install:" ++ or_else report.install_id (client_ip s request))
      (at_least_one s.intake_rate_per_min) clock forward_detail
      (forward_ticket db p s clock report fresh)

-- POST /forward. The answer shows parts of the ticket.
unfoldable pub receive_forwarded :
    Database
    → Platform
    → Settings
    → Clock
    → Request
    → ForwardedReport
    → Fresh
    → Service
    → Reply Ticket × Service
unfolding forwarded_fits require_forward_auth client_ip rate_ok verified_tier forward_fields
    create_or_dedupe
receive_forwarded db p s clock request report fresh st =
    after (must_fit (forwarded_fits report))
      (λ _.
        after (require_forward_auth s request)
          (λ _.
            limited ("fwd:ip:" ++ client_ip s request) (at_least_one s.intake_rate_per_min) clock
              forward_detail (forward_install db p s clock request report fresh) st)
          st)
      st

unfoldable pub web_fields : WebReport → Fields
web_fields report = record no_fields {
  kind = some report.kind;
  fingerprint = report.fingerprint;
  title = some report.title;
  body = some report.body;
  severity = some report.severity;
  source = some "web";
  reporter_tier = some "associate";
  identified = some (is_given report.contact);
  contact = report.contact;
}

-- POST /web
unfoldable pub receive_web :
    Database → Settings → Clock → Request → WebReport → Fresh → Service → Reply Ticket × Service
unfolding web_fits client_ip rate_ok web_fields create_or_dedupe
receive_web db s clock request report fresh st =
    after (must_fit (web_fits report))
      (λ _.
        limited ("web:" ++ client_ip s request) (at_least_one s.web_intake_rate_per_min) clock
          "rate limit exceeded - slow down" (file db (web_fields report) fresh) st)
      st

unfoldable pub email_fields : EmailReport → Fields
email_fields report = record no_fields {
  kind = some "bug";
  title = some (or_else (some report.subject) "(no subject)");
  body = some report.body;
  severity = some "s3_degraded";
  source = some "email";
  reporter_tier = some "associate";
  identified = some true;
  contact = some report.from_email;
}

-- POST /email
unfoldable pub receive_email :
    Database → Settings → Clock → Request → EmailReport → Fresh → Service → Reply Ticket × Service
unfolding email_fits require_email_auth client_ip rate_ok email_fields create_or_dedupe
receive_email db s clock request report fresh st =
    after (must_fit (email_fits report))
      (λ _.
        after (require_email_auth s request)
          (λ _.
            limited ("email:" ++ client_ip s request) (at_least_one s.web_intake_rate_per_min) clock
              "rate limit exceeded - slow down" (file db (email_fields report) fresh) st)
          st)
      st

abbrev pub reply_of : Stored → Reply Descriptor
reply_of (descriptor d) = ok d
reply_of (value_error text) = error 422 text

abbrev pub decoded : String → Option Bytes → Reply Bytes
decoded text none = error 400 ("data_b64 is not valid base64: " ++ text)
decoded text (some blob) = ok blob

-- POST /attachment, where `text` is that of the exception that decoding raises, if it raises
unfoldable pub upload_attachment :
    Platform → Settings → Request → String → AttachmentUpload → Reply Descriptor
unfolding fits require_forward_auth b64decode_strict put_blob
upload_attachment p s request text upload = do
  _ ← must_fit (fits 32 upload.mime && fits 8000000 upload.data_b64)
  _ ← require_forward_auth s request
  blob ← decoded text (b64decode_strict upload.data_b64)
  reply_of (put_blob p blob upload.mime s.max_blob_bytes)
