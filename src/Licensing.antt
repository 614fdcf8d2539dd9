-- ===== src/Licensing.antt =====
-- app/routers/licensing.py and the license tokens of app/models.py. A table is the list of its rows;
-- the id of a new row, which the database assigns, is an argument.
mod Examples
pub mod Token
pub mod Register
use Prim.Native.String.{◌++◌}
use netplex_support.Prelude.{
  ℕ, String, Bool, true, false, ◌&&◌, not, Option, none, some, List, [], ◌∷◌, ◌==◌, if◌then◌else◌,
  lookup, leb,
}
use netplex_support.Prelude
use netplex_support.Prelude.Int.{ℤ, pos, ltb_ℤ}
use netplex_support.Http.{Reply, ok, error, crash, ◌>>=◌, ◌>>◌}
use netplex_support.Json.{Value, str, null, Dict, as_dict, get_default}
use netplex_support.Platform.{Platform, text_of, int_of}
use netplex_support.Config.{Settings, at_least_one}
use netplex_support.Auth.{Request, require_admin, client_ip}
use netplex_support.RateLimit.{Hits, rate_ok}
use netplex_support.Database.{Database, first_row}
use netplex_support.Signing.{
  TrustStore, Verdict, accepted, rejected, fails, is_null, verify_manifest,
  trust_store_from_settings,
}

pub record LicenseToken : Type 0 where
  pub id : ℕ
  pub customer_ref : String
  pub key_id : String
  pub tier : String
  pub expires_at : Option ℤ
  pub token_json : String
  pub registered_at : ℕ

abbrev pub higher_id : LicenseToken → LicenseToken → Bool
higher_id a b = leb b.id a.id

-- latest_license_token_for
unfoldable pub latest_license_token_for :
    Database → String → List LicenseToken → Option LicenseToken
latest_license_token_for db customer_ref rows =
    first_row (db.select (λ t. t.customer_ref == customer_ref) higher_id rows)

abbrev pub store_license_token : LicenseToken → List LicenseToken → List LicenseToken
store_license_token row rows = Prelude.◌++◌ rows (row ∷ [])

pub record VerifyResult : Type 0 where
  pub valid : Bool
  pub tier : String
  pub expires_at : Option ℤ
  pub reason : String

abbrev pub invalid : String → VerifyResult
invalid reason = record { valid = false; tier = ""; expires_at = none; reason = reason }

-- An exception where there is no value.
abbrev pub or_crash {ℓ} : {A : Type ℓ} → Option A → Reply A
or_crash none = crash
or_crash (some a) = ok a

-- _trust_store of app/routers/licensing.py
unfoldable pub license_trust_store : Platform → Settings → Reply TrustStore
unfolding trust_store_from_settings
license_trust_store p s =
    or_crash (trust_store_from_settings p s.license_trust_store_json s.license_public_key)

abbrev pub valid_result : String → Option ℤ → VerifyResult
valid_result tier expires_at = record {
  valid = true;
  tier = tier;
  expires_at = expires_at;
  reason = "";
}

abbrev pub expired_result : String → ℤ → VerifyResult
expired_result tier expires_at = record {
  valid = false;
  tier = tier;
  expires_at = some expires_at;
  reason = "expired";
}

-- The answer on a text whose signature counts, by its member `expires_at`, at a time in seconds.
check_expiry : Platform → ℕ → String → Value → Reply VerifyResult
unfolding int_of
check_expiry p now tier expires_at =
    if is_null expires_at
    then ok (valid_result tier none)
    else or_crash (int_of p expires_at) >>= λ at.
        if ltb_ℤ at (pos now) then ok (expired_result tier at) else ok (valid_result tier (some at))

abbrev pub tier_of : Platform → Dict → String
tier_of p claims = text_of p (get_default claims "tier" (str ""))

by_verdict : Platform → ℕ → Dict → Verdict → Reply VerifyResult
unfolding check_expiry text_of
by_verdict p now claims fails = crash
by_verdict p now claims (rejected why) = ok (invalid why)
by_verdict p now claims (accepted kid) =
    check_expiry p now (tier_of p claims) (get_default claims "expires_at" null)

-- json.loads(token), if it is a dict
abbrev pub claims_of : Option Value → Option Dict
claims_of none = none
claims_of (some v) = as_dict v

by_claims : Platform → ℕ → TrustStore → Option Dict → Reply VerifyResult
unfolding by_verdict verify_manifest
by_claims p now trust none = ok (invalid "malformed-token")
by_claims p now trust (some claims) = by_verdict p now claims (verify_manifest p claims trust)

-- _verify_token
unfoldable pub verify_token : Platform → ℕ → String → TrustStore → Reply VerifyResult
unfolding by_claims
verify_token p now token trust = by_claims p now trust (claims_of (p.loads token))

-- The routes read the clock of the rate limiter, in nanoseconds, and `time.time()`, in seconds.
pub record Clock : Type 0 where
  pub monotonic : ℕ
  pub time : ℕ

-- POST /verify
unfoldable pub verify_license :
    Platform → Settings → Clock → Request → String → Hits → Reply VerifyResult × Hits
unfolding verify_token license_trust_store client_ip rate_ok
verify_license p s clock request token hits =
    let (allowed, recorded) =
      rate_ok ("license-verify:" ++ client_ip s request)
        (at_least_one s.license_verify_rate_per_min) clock.monotonic hits in
    if allowed
    then (license_trust_store p s >>= λ trust. verify_token p clock.time token trust, recorded)
    else (error 429 "rate limit exceeded - slow down", recorded)

-- POST /issue
abbrev pub issue_license : String → String → ℕ → Reply (Unit {0})
issue_license tier customer_ref days_valid =
    error 501
      "GATED - server-side license issuance is permanently disabled by design (key-custody rule). Mint a token offline via tools/mint_license.py, then POST it to /api/v1/license/register"

pub record RegisterResult : Type 0 where
  pub accepted : Bool
  pub customer_ref : String
  pub tier : String
  pub key_id : String
  pub expires_at : Option ℤ

-- `claims`, or the error 400 that says what is wrong with the token
abbrev pub must_be_dict : Option Dict → Reply Dict
must_be_dict none = error 400 "malformed token: not a JSON object"
must_be_dict (some claims) = ok claims

abbrev pub parse_claims : Option Value → Reply Dict
parse_claims none = error 400 "malformed token: not valid JSON"
parse_claims (some v) = must_be_dict (as_dict v)

-- The key id of an accepted text, or the error 400 of the routes that store signed texts.
abbrev pub signer : Verdict → Reply String
signer fails = crash
signer (rejected why) = error 400 ("signature rejected: " ++ why)
signer (accepted kid) = ok kid

abbrev pub must_be_valid : VerifyResult → Reply VerifyResult
must_be_valid result =
    if result.valid then ok result else error 400 ("token rejected: " ++ result.reason)

-- What POST /register checks, and the row that it then stores.
unfoldable pub registration :
    Platform → Settings → Clock → Request → ℕ → ℕ → String → Reply LicenseToken
unfolding require_admin license_trust_store verify_manifest verify_token text_of
registration p s clock request row_id registered_at token = do
  _ ← require_admin s request
  trust ← license_trust_store p s
  claims ← parse_claims (p.loads token)
  kid ← signer (verify_manifest p claims trust)
  checked ← verify_token p clock.time token trust
  result ← must_be_valid checked
  ok (record {
    id = row_id;
    customer_ref = text_of p (get_default claims "customer_ref" (str ""));
    key_id = kid;
    tier = result.tier;
    expires_at = result.expires_at;
    token_json = token;
    registered_at = registered_at;
  })

abbrev store_registration :
    Reply LicenseToken → List LicenseToken → Reply RegisterResult × List LicenseToken
store_registration (ok row) rows = (
  ok (record {
    accepted = true;
    customer_ref = row.customer_ref;
    tier = row.tier;
    key_id = row.key_id;
    expires_at = row.expires_at;
  }),
  store_license_token row rows,
)
store_registration (error status detail) rows = (error status detail, rows)
store_registration crash rows = (crash, rows)

-- POST /register
unfoldable pub register_license :
    Platform
    → Settings
    → Clock
    → Request
    → ℕ
    → ℕ
    → String
    → List LicenseToken
    → Reply RegisterResult × List LicenseToken
unfolding registration
register_license p s clock request row_id registered_at token rows =
    store_registration (registration p s clock request row_id registered_at token) rows

pub record RegisteredView : Type 0 where
  pub customer_ref : String
  pub tier : String
  pub key_id : String
  pub expires_at : Option ℤ
  pub token : String

abbrev pub view_of : Option LicenseToken → Reply RegisteredView
view_of none = error 404 "no registered license for that customer_ref"
view_of (some row) = ok (record {
  customer_ref = row.customer_ref;
  tier = row.tier;
  key_id = row.key_id;
  expires_at = row.expires_at;
  token = row.token_json;
})

-- GET /registered/{customer_ref}
unfoldable pub get_registered_license :
    Database → Settings → Request → String → List LicenseToken → Reply RegisteredView
unfolding require_admin latest_license_token_for
get_registered_license db s request customer_ref rows = do
  _ ← require_admin s request
  view_of (latest_license_token_for db customer_ref rows)
