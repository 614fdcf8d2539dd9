-- ===== src/Diagnostics/Examples.antt =====
-- Reports and attachments that reach the intakes on the toy platform.
use netplex_support.Prelude.{
  All, String, true, ◌&&◌, Option, none, some, [], ◌∷◌, ◌≡◌, ◌⊎◌, ◌↔◌, refl, arith,
}
use Prim.Native.String.{◌++◌}
use netplex_support.Http.{ok}
use netplex_support.Platform.Toy.{toy}
use netplex_support.Config.{Settings, settings, at_least_one}
use netplex_support.Auth.{Request, client_ip}
use netplex_support.RateLimit.{rate_ok}
use netplex_support.Base64.{Bytes, b64encode, b64decode_strict}
use netplex_support.Database.Memory.{memory}
use netplex_support.Tickets.{Ticket, Fresh, create_or_dedupe, new_ticket}
use netplex_support.Licensing.{Clock}
use netplex_support.Diagnostics.{
  Service, ForwardedReport, WebReport, EmailReport, AttachmentUpload, receive_forwarded,
  receive_web, receive_email, upload_attachment, forward_fields, require_forward_auth, or_else,
  fits,
}
use netplex_support.Diagnostics.Intake.{KeepsOnFailure, intakes-keep_tickets}
use netplex_support.Diagnostics.Tier.{
  IsProof, receive_forwarded-ok, receive_forwarded-ignores_claim,
}
use netplex_support.Tickets.Invariant.{IsWellFormed}
use netplex_support.Diagnostics.Reachable.{
  IsReachable, IsEarned, reachable-IsWellFormed, reachable-IsEarned,
}
use netplex_support.Diagnostics.Attachment.{
  IsStorable, described, upload_attachment-ok, upload_attachment-b64encode,
}

abbrev configured : Settings
configured = record settings { forward_intake_tokens = "s3cret" }

abbrev box : Request
box = record {
  client_host = some "203.0.113.9";
  authorization = some "Bearer s3cret";
  x_forwarded_for = none;
}

abbrev clock : Clock
clock = record { monotonic = 5; time = 1000 }

abbrev fresh : Fresh
fresh = record { token = "0a0b0c0d0e0f"; now = 100; flushed = 101 }

abbrev start : Service
start = record { hits = []; tickets = [] }

abbrev forwarded : ForwardedReport
forwarded = record {
  kind = "crash";
  fingerprint = some "f1";
  title = "it broke";
  body = "";
  severity = "s1_crash";
  platform_version = "";
  reporter_tier = "master";
  install_id = some "box-1";
  origin_local_id = some "NPX-1";
  license_token = none;
  contact = none;
  attachment_refs = [];
  diagnostic_bundle = none;
}

abbrev web : WebReport
web = record {
  kind = "bug";
  fingerprint = none;
  title = "it broke";
  body = "";
  severity = "s3_degraded";
  contact = none;
}

abbrev email : EmailReport
email = record { from_email = "a@b.c"; subject = ""; body = "help" }

abbrev filed : Ticket
filed = new_ticket (forward_fields forwarded ("associate", none)) fresh

abbrev ip_key : String
ip_key = "fwd:ip:203.0.113.9"

abbrev install_key : String
install_key = "fwd:install:box-1"

abbrev finish : Service
finish = record { hits = (ip_key, 5 ∷ []) ∷ (install_key, 5 ∷ []) ∷ []; tickets = filed ∷ [] }

receives :
    receive_forwarded memory toy configured clock box forwarded fresh start ≡ (ok filed, finish)
unfolding receive_forwarded memory
receives = refl

intakes-keep_tickets_example :
    KeepsOnFailure start.tickets
      (receive_forwarded memory toy configured clock box forwarded fresh start)
    × KeepsOnFailure start.tickets (receive_web memory configured clock box web fresh start)
    × KeepsOnFailure start.tickets (receive_email memory configured clock box email fresh start)
intakes-keep_tickets_example =
    intakes-keep_tickets memory toy configured clock box fresh start forwarded web email

receive_forwarded-ok_example :
    (require_forward_auth configured box ≡ ok tt)
    × ((rate_ok ("fwd:ip:" ++ client_ip configured box) (at_least_one 30) 5 []).0 ≡ true)
    × ((rate_ok
          ("fwd:install:" ++ or_else (some "box-1") (client_ip configured box))
          (at_least_one 30)
          5
          (rate_ok ("fwd:ip:" ++ client_ip configured box) (at_least_one 30) 5 []).1).0
        ≡ true)
    × ((how : String × Option String) × ((how ≡ ("associate", none))
          ⊎ ((tier : String) × (hash : String) × (how ≡ (tier, some hash))
              × IsProof toy configured clock none tier hash))
        × (create_or_dedupe memory (forward_fields forwarded how) fresh []
            ≡ (ok filed, filed ∷ [])))
receive_forwarded-ok_example =
    receive_forwarded-ok memory toy configured clock box forwarded fresh start finish filed receives

receive_forwarded-ignores_claim_test :
    receive_forwarded memory toy configured clock box
      (record forwarded { reporter_tier = "team" })
      fresh
      start
    ≡ receive_forwarded memory toy configured clock box forwarded fresh start
unfolding fits
receive_forwarded-ignores_claim_test =
    receive_forwarded-ignores_claim memory toy configured clock box forwarded "team" fresh start
      refl refl

abbrev blob : Bytes
blob = 137 ∷ 80 ∷ 78 ∷ 71 ∷ []

blob-IsStorable : IsStorable configured "image/png" blob
blob-IsStorable = record { has_mime = refl; in_bounds = refl }

abbrev upload : AttachmentUpload
upload = record { mime = "image/png"; data_b64 = "iVBORw==" }

upload_attachment-ok_example :
    (upload_attachment toy configured box "" upload ≡ ok (described toy "image/png" blob)) ↔ (
      ((fits 32 "image/png" && fits 8000000 "iVBORw==") ≡ true)
      × (require_forward_auth configured box ≡ ok tt)
      × ((b : Bytes) × (b64decode_strict "iVBORw==" ≡ some b)
          × IsStorable configured "image/png" b
          × (described toy "image/png" b ≡ described toy "image/png" blob)))
upload_attachment-ok_example =
    upload_attachment-ok toy configured box "" upload (described toy "image/png" blob)

upload_attachment-b64encode_test :
    upload_attachment toy configured box ""
      (record { mime = "image/png"; data_b64 = b64encode blob })
    ≡ ok (described toy "image/png" blob)
unfolding fits b64encode require_forward_auth
upload_attachment-b64encode_test =
    upload_attachment-b64encode toy configured box "" "image/png" blob
      (omega arith, (omega arith, (omega arith, (omega arith, tt)))) blob-IsStorable refl refl

after_one :
    IsReachable memory toy configured
      (receive_forwarded memory toy configured clock box forwarded fresh start).1
after_one = IsReachable.forward start clock box forwarded fresh IsReachable.start

reachable-IsWellFormed_example :
    IsWellFormed (receive_forwarded memory toy configured clock box forwarded fresh start).1.tickets
reachable-IsWellFormed_example =
    reachable-IsWellFormed memory toy configured
      (receive_forwarded memory toy configured clock box forwarded fresh start).1 after_one

reachable-IsEarned_example :
    All
      (λ t. ∥ IsEarned toy configured t ∥₁)
      (receive_forwarded memory toy configured clock box forwarded fresh start).1.tickets
reachable-IsEarned_example =
    reachable-IsEarned memory toy configured
      (receive_forwarded memory toy configured clock box forwarded fresh start).1 after_one
