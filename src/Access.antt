-- ===== src/Access.antt =====
-- The routes with `dependencies=[Depends(require_admin)]` of app/routers/*.py, together.
use netplex_support.Prelude.{ℕ, String, true, List, ◌≡◌, ◌≢◌, ◌⊎◌, inl, inr, any, ◌==◌}
use netplex_support.Prelude.Text.{csv}
use netplex_support.Http.{Reply, ok, ◌>>=◌, bind-ok}
use netplex_support.Json.{Dict}
use netplex_support.Platform.{Platform}
use netplex_support.Config.{Settings}
use netplex_support.Auth.{Request, is_ascii, presented_token, require_bearer, require_admin}
use netplex_support.Auth.Bearer.{check_bearer_sound}
use netplex_support.Database.{Database}
use netplex_support.Tickets.{Ticket}
use netplex_support.Licensing.{
  Clock, LicenseToken, RegisterResult, RegisteredView, register_license, get_registered_license,
}
use netplex_support.Licensing.Register.{register_license-gate}
use netplex_support.Releases.{ReleaseManifest, UploadResult, upload_manifest}
use netplex_support.Releases.Upload.{upload_manifest-gate}
use netplex_support.TicketRoutes.{
  TicketView, DiagnosticView, triage_queue, get_ticket_by_origin_route, get_ticket_diagnostic,
}

-- The request presents one of the tokens of ADMIN_API_TOKENS.
pub record IsAuthorized (s : Settings) (request : Request) : Type 0 where
  pub not_empty : presented_token request ≢ ""
  pub ascii : is_ascii (presented_token request) ≡ true
  pub configured : any (λ t. presented_token request == t) (csv s.admin_api_tokens) ≡ true

authorized :
    (s : Settings) (request : Request) → require_admin s request ≡ ok tt → IsAuthorized s request
unfolding require_admin require_bearer
authorized s request h =
    let (not_empty, ascii, configured) = check_bearer_sound request s.admin_api_tokens _ _ h in
    record { not_empty = not_empty; ascii = ascii; configured = configured }

guarded {ℓ} :
    {A : Type ℓ} (s : Settings) (request : Request) (f : Unit {0} → Reply A) (a : A)
    → (require_admin s request >>= f) ≡ ok a
    → IsAuthorized s request
guarded s request f a h =
    let (_, is_admin, _) = bind-ok (require_admin s request) f a h in authorized s request is_admin

-- An admin route shows what is stored only to a request that presents a token that is not empty, is
-- ASCII and is one of ADMIN_API_TOKENS, whatever it asks for; and for the two routes that store,
-- a request either presents such a token, or it is not answered with success and the table is as
-- before.
pub admin_routes-IsAuthorized :
    (db : Database) (p : Platform) (s : Settings) (request : Request)
    → ((limit : ℕ) (rows : List Ticket) (shown : ℕ × List TicketView)
        → triage_queue db p s request limit rows ≡ ok shown
        → IsAuthorized s request)
      × ((origin : String) (rows : List Ticket) (shown : TicketView)
          → get_ticket_by_origin_route db p s request origin rows ≡ ok shown
          → IsAuthorized s request)
      × ((id : String) (rows : List Ticket) (shown : DiagnosticView)
          → get_ticket_diagnostic db p s request id rows ≡ ok shown
          → IsAuthorized s request)
      × ((customer : String) (rows : List LicenseToken) (shown : RegisteredView)
          → get_registered_license db s request customer rows ≡ ok shown
          → IsAuthorized s request)
      × ((clock : Clock) (row_id at : ℕ) (token : String) (rows : List LicenseToken)
          → IsAuthorized s request
            ⊎ ((register_license p s clock request row_id at token rows).1 ≡ rows)
              × ((r : RegisterResult)
                  → (register_license p s clock request row_id at token rows).0 ≢ ok r))
      × ((row_id at : ℕ) (manifest : Dict) (rows : List ReleaseManifest)
          → IsAuthorized s request
            ⊎ ((upload_manifest p s request row_id at manifest rows).1 ≡ rows)
              × ((r : UploadResult)
                  → (upload_manifest p s request row_id at manifest rows).0 ≢ ok r))
unfolding triage_queue get_ticket_by_origin_route get_ticket_diagnostic get_registered_license
admin_routes-IsAuthorized db p s request = (
  λ limit rows shown h. guarded s request _ shown h,
  λ origin rows shown h. guarded s request _ shown h,
  λ id rows shown h. guarded s request _ shown h,
  λ customer rows shown h. guarded s request _ shown h,
  λ clock row_id at token rows.
      elim (register_license-gate p s clock request row_id at token rows) [
        | inl (_, r, _) ↦ inl (authorized s request (r.is_admin))
        | inr never ↦ inr never
      ],
  λ row_id at manifest rows. elim (upload_manifest-gate p s request row_id at manifest rows) [
    | inl (_, r, _) ↦ inl (authorized s request (r.is_admin))
    | inr never ↦ inr never
  ],
)
