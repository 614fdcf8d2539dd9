-- ===== src/Licensing/Register.antt =====
-- Which tokens POST /register stores, and how they are looked up afterwards.
use netplex_support.Prelude.Sets.{String-set, ℕ-set, ℤ-set}
use text.Mathlib.TextPositions.{eq_refl}
use netplex_support.Prelude.{
  ℕ, ◌<◌, String, true, Option, none, some, List, [], ◌∷◌, ◌++◌, All, ◌≡◌, ◌≢◌, ◌⊎◌, inl, inr, refl,
  ap, Bool-cases, ◌==◌,
}
use netplex_support.Http.{Reply, ok, bind-ok, Reply-cases}
use netplex_support.Json.{Value, str, Dict, as_dict, get_default}
use netplex_support.Platform.{Platform, text_of}
use netplex_support.Config.{Settings}
use netplex_support.Auth.{Request, require_admin}
use netplex_support.Database.{Database}
use netplex_support.Database.Latest.{latest-add}
use netplex_support.Signing.{TrustStore, Verdict, accepted, rejected, fails, verify_manifest}
use netplex_support.Licensing.{
  LicenseToken, VerifyResult, RegisterResult, Clock, verify_token, claims_of, license_trust_store,
  parse_claims, must_be_dict, signer, must_be_valid, registration, register_license,
  get_registered_license, latest_license_token_for, view_of,
}

LicenseToken-set : IsSet LicenseToken
LicenseToken-set = hlevel (String-set, ℕ-set, ℤ-set)

module _ (p : Platform) (s : Settings) (clock : Clock) (request : Request)
    (row_id registered_at : ℕ) (token : String) where
  -- What a row is that a request registers.
  pub record IsRegistration (row : LicenseToken) : Type 0 where
    pub trust : TrustStore
    pub claims : Dict
    pub checked : VerifyResult
    pub is_admin : require_admin s request ≡ ok tt
    pub has_trust : license_trust_store p s ≡ ok trust
    pub parses : claims_of (p.loads token) ≡ some claims
    pub kid : String
    pub signed : verify_manifest p claims trust ≡ accepted kid
    pub answered : verify_token p clock.time token trust ≡ ok checked
    pub is_valid : checked.valid ≡ true
    pub made : row ≡ record {
      id = row_id;
      customer_ref = text_of p (get_default claims "customer_ref" (str ""));
      key_id = kid;
      tier = checked.tier;
      expires_at = checked.expires_at;
      token_json = token;
      registered_at = registered_at;
    }

-- The answer about a row that was stored.
abbrev pub about : LicenseToken → RegisterResult
about row = record {
  accepted = true;
  customer_ref = row.customer_ref;
  tier = row.tier;
  key_id = row.key_id;
  expires_at = row.expires_at;
}

must_be_dict-ok : (o : Option Dict) (d : Dict) → must_be_dict o ≡ ok d → o ≡ some d
must_be_dict-ok none d h = cc
must_be_dict-ok (some c) d h = let same : c ≡ d = cc in ap some same

parse_claims-ok : (o : Option Value) (d : Dict) → parse_claims o ≡ ok d → claims_of o ≡ some d
parse_claims-ok none d h = cc
parse_claims-ok (some v) d h = must_be_dict-ok (as_dict v) d h

parse_claims-of : (o : Option Value) (d : Dict) → claims_of o ≡ some d → parse_claims o ≡ ok d
parse_claims-of none d h = cc
parse_claims-of (some v) d h = rw h

pub signer-ok : (v : Verdict) (kid : String) → signer v ≡ ok kid → v ≡ accepted kid
signer-ok fails kid h = cc
signer-ok (rejected why) kid h = cc
signer-ok (accepted k) kid h = let same : k ≡ kid = cc in ap accepted same

must_be_valid-ok : (c r : VerifyResult) → must_be_valid c ≡ ok r → (c.valid ≡ true) × (c ≡ r)
must_be_valid-ok c r h = elim (Bool-cases c.valid) [
  | inl e ↦ let found = rw e at h in (e, cc)
  | inr e ↦ let bad = rw e at h in cc
]

module _ (p : Platform) (s : Settings) (clock : Clock) (request : Request)
    (row_id registered_at : ℕ) (token : String) where
  abbrev attempt : Reply LicenseToken
  attempt = registration p s clock request row_id registered_at token

  abbrev Registered : LicenseToken → Type 0
  Registered = IsRegistration p s clock request row_id registered_at token

  registration_sound : (row : LicenseToken) → attempt ≡ ok row → Registered row
  unfolding registration
  registration_sound row h =
      let (_, is_admin, h1) = bind-ok (require_admin s request) _ row h in
      let (trust, has_trust, h2) = bind-ok (license_trust_store p s) _ row h1 in
      let (claims, parsed, h3) = bind-ok (parse_claims (p.loads token)) _ row h2 in
      let (kid, signed, h4) = bind-ok (signer (verify_manifest p claims trust)) _ row h3 in
      let (checked, answered, h5) = bind-ok (verify_token p clock.time token trust) _ row h4 in
      let (result, passed, h6) = bind-ok (must_be_valid checked) _ row h5 in
      let (is_valid, same) = must_be_valid-ok checked result passed in
      let found : row ≡ record {
        id = row_id;
        customer_ref = text_of p (get_default claims "customer_ref" (str ""));
        key_id = kid;
        tier = result.tier;
        expires_at = result.expires_at;
        token_json = token;
        registered_at = registered_at;
      } =
        cc in
      record {
        trust = trust;
        claims = claims;
        checked = checked;
        is_admin = is_admin;
        has_trust = has_trust;
        parses = parse_claims-ok _ claims parsed;
        kid = kid;
        signed = signer-ok _ kid signed;
        answered = answered;
        is_valid = is_valid;
        made = rw same found;
      }

  registration_complete : (row : LicenseToken) → Registered row → attempt ≡ ok row
  unfolding registration
  registration_complete row r = rw (r.is_admin) (
      rw (r.has_trust) (
        rw (parse_claims-of _ (r.claims) (r.parses))
          (rw (r.signed) (rw (r.answered) (rw (r.is_valid) (rw (r.made)))))))

  module _ (rows : List LicenseToken) where
    abbrev outcome : Reply RegisterResult × List LicenseToken
    outcome = register_license p s clock request row_id registered_at token rows

    stored : (row : LicenseToken) → attempt ≡ ok row → outcome ≡ (ok (about row), rows ++ row ∷ [])
    unfolding register_license
    stored row h = rw h

    refused :
        ((row : LicenseToken) → attempt ≢ ok row)
        → (outcome.1 ≡ rows) × ((r : RegisterResult) → outcome.0 ≢ ok r)
    unfolding register_license
    refused h = elim (Reply-cases attempt) [
      | inl (row, e) ↦ absurd (h row e)
      | inr (inl (status, detail, e)) ↦ rw e (refl, λ r q. cc)
      | inr (inr e) ↦ rw e (refl, λ r q. cc)
    ]

-- POST /register either answers with success, and then its table has one more row, the last, which
-- is made of the token and its claims by an admin's request, the token being accepted by
-- `verify_manifest` in the name of the row's key id and valid for `_verify_token`; or it does not
-- answer with success, and its table is as before.
pub register_license-gate :
    (p : Platform) (s : Settings) (clock : Clock) (request : Request) (row_id registered_at : ℕ)
    (token : String) (rows : List LicenseToken)
    → ((row : LicenseToken) × IsRegistration p s clock request row_id registered_at token row
        × (register_license p s clock request row_id registered_at token rows
            ≡ (ok (about row), rows ++ row ∷ [])))
      ⊎ ((register_license p s clock request row_id registered_at token rows).1 ≡ rows)
        × ((r : RegisterResult)
            → (register_license p s clock request row_id registered_at token rows).0 ≢ ok r)
register_license-gate p s clock request row_id registered_at token rows =
    let not_done = refused p s clock request row_id registered_at token rows in
    elim (Reply-cases (registration p s clock request row_id registered_at token)) [
      | inl (row, e) ↦ inl (
        row,
        registration_sound p s clock request row_id registered_at token row e,
        stored p s clock request row_id registered_at token rows row e,
      )
      | inr (inl (status, detail, e)) ↦ inr (not_done (λ row q. cc))
      | inr (inr e) ↦ inr (not_done (λ row q. cc))
    ]

-- Where an admin's request has a token that the license trust store accepts and that is valid, POST
-- /register stores the row that is made of it, and answers with its terms.
pub register_license-stores :
    (p : Platform) (s : Settings) (clock : Clock) (request : Request) (row_id registered_at : ℕ)
    (token : String) (rows : List LicenseToken) (row : LicenseToken)
    → IsRegistration p s clock request row_id registered_at token row
    → register_license p s clock request row_id registered_at token rows
      ≡ (ok (about row), rows ++ row ∷ [])
register_license-stores p s clock request row_id registered_at token rows row r =
    stored p s clock request row_id registered_at token rows row
      (registration_complete p s clock request row_id registered_at token row r)

module _ (db : Database) (s : Settings) (request : Request) (rows : List LicenseToken)
    (row : LicenseToken) where
  lookup_stored :
      require_admin s request ≡ ok tt
      → All (λ r. r.id < row.id) rows
      → get_registered_license db s request row.customer_ref (rows ++ row ∷ []) ≡ view_of (some row)
  unfolding get_registered_license latest_license_token_for
  lookup_stored a below = rw a (
      rw (
        latest-add LicenseToken-set (λ r. r.id) db (λ t. t.customer_ref == row.customer_ref) rows
          row below (eq_refl row.customer_ref)))

-- After a registration with an id above those of the rows before it, the admin who asks for that
-- customer is answered with the registered token, its tier, key id and expiry.
pub get_registered-register :
    (db : Database) (p : Platform) (s : Settings) (clock : Clock) (request : Request)
    (row_id registered_at : ℕ) (token : String) (rows : List LicenseToken) (result : RegisterResult)
    → (register_license p s clock request row_id registered_at token rows).0 ≡ ok result
    → All (λ r. r.id < row_id) rows
    → get_registered_license db s request result.customer_ref
        (register_license p s clock request row_id registered_at token rows).1
      ≡ ok (record {
        customer_ref = result.customer_ref;
        tier = result.tier;
        key_id = result.key_id;
        expires_at = result.expires_at;
        token = token;
      })
get_registered-register db p s clock request row_id registered_at token rows result h below =
    elim (register_license-gate p s clock request row_id registered_at token rows) [
      | inr (_, never) ↦ absurd (never result h)
      | inl (row, r, e) ↦
          let same : about row ≡ result = (let found = rw e at h in cc) in
          let token_same : row.token_json ≡ token = ap (λ x. x.token_json) (r.made) in
          let id_same : row.id ≡ row_id = ap (λ x. x.id) (r.made) in
          rw (← same) (
            rw e (
              rw (← token_same)
                (lookup_stored db s request rows row (r.is_admin) (rw id_same below))))
    ]
