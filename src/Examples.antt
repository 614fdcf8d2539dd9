-- ===== src/Examples.antt =====
-- What the admin routes answer on the toy platform, to an admin and to others.
use netplex_support.Prelude.{ℕ, String, none, some, List, [], ◌≡◌, ◌≢◌, ◌⊎◌, refl}
use netplex_support.Http.{ok, error}
use netplex_support.Json.{Dict}
use netplex_support.Platform.Toy.{toy}
use netplex_support.Config.{Settings, settings}
use netplex_support.Auth.{Request}
use netplex_support.Database.Memory.{memory}
use netplex_support.Tickets.{Ticket}
use netplex_support.Licensing.{
  Clock, LicenseToken, RegisterResult, RegisteredView, register_license, get_registered_license,
}
use netplex_support.Releases.{ReleaseManifest, UploadResult, upload_manifest}
use netplex_support.TicketRoutes.{
  TicketView, DiagnosticView, triage_queue, get_ticket_by_origin_route, get_ticket_diagnostic,
}
use netplex_support.Access.{IsAuthorized, admin_routes-IsAuthorized}

abbrev configured : Settings
configured = record settings { admin_api_tokens = "s3cret" }

abbrev admin : Request
admin = record {
  client_host = some "203.0.113.9";
  authorization = some "Bearer s3cret";
  x_forwarded_for = none;
}

-- The admin is answered, and a request without a token is not.
admin_test : triage_queue memory toy configured admin 10 [] ≡ ok (0, [])
unfolding triage_queue memory
admin_test = refl

anonymous_test :
    triage_queue memory toy configured (record admin { authorization = none }) 10 []
    ≡ error 401 "invalid or missing admin API token"
unfolding triage_queue
anonymous_test = refl

admin_routes-IsAuthorized_example :
    ((limit : ℕ) (rows : List Ticket) (shown : ℕ × List TicketView)
      → triage_queue memory toy configured admin limit rows ≡ ok shown
      → IsAuthorized configured admin)
    × ((origin : String) (rows : List Ticket) (shown : TicketView)
        → get_ticket_by_origin_route memory toy configured admin origin rows ≡ ok shown
        → IsAuthorized configured admin)
    × ((id : String) (rows : List Ticket) (shown : DiagnosticView)
        → get_ticket_diagnostic memory toy configured admin id rows ≡ ok shown
        → IsAuthorized configured admin)
    × ((customer : String) (rows : List LicenseToken) (shown : RegisteredView)
        → get_registered_license memory configured admin customer rows ≡ ok shown
        → IsAuthorized configured admin)
    × ((clock : Clock) (row_id at : ℕ) (token : String) (rows : List LicenseToken)
        → IsAuthorized configured admin
          ⊎ ((register_license toy configured clock admin row_id at token rows).1 ≡ rows)
            × ((r : RegisterResult)
                → (register_license toy configured clock admin row_id at token rows).0 ≢ ok r))
    × ((row_id at : ℕ) (manifest : Dict) (rows : List ReleaseManifest)
        → IsAuthorized configured admin
          ⊎ ((upload_manifest toy configured admin row_id at manifest rows).1 ≡ rows)
            × ((r : UploadResult)
                → (upload_manifest toy configured admin row_id at manifest rows).0 ≢ ok r))
admin_routes-IsAuthorized_example = admin_routes-IsAuthorized memory toy configured admin
