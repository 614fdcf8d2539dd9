-- ===== src/Licensing/Examples.antt =====
-- A license token that is verified, registered and looked up on the toy platform.
use netplex_support.Prelude.{false, none, some, [], ◌∷◌, ◌++◌, ◌≡◌, ◌≢◌, ◌⊎◌, ◌↔◌, refl, arith}
use netplex_support.Prelude.Int.{pos}
use netplex_support.Http.{ok}
use netplex_support.Json.{str, int, Dict}
use netplex_support.Base64.{b64encode}
use netplex_support.Platform.{Platform, text_of}
use netplex_support.Platform.Toy.{toy, toy_reading}
use netplex_support.Config.{Settings, settings}
use netplex_support.Auth.{Request, require_admin}
use netplex_support.Database.Memory.{memory}
use netplex_support.Signing.{TrustStore, verify_manifest, signature_block, canonical_bytes}
use netplex_support.Licensing.{
  LicenseToken, RegisterResult, Clock, verify_token, valid_result, register_license,
  get_registered_license, license_trust_store,
}
use netplex_support.Licensing.Token.{IsEntitled, verify_token-valid}
use netplex_support.Licensing.Register.{
  IsRegistration, about, register_license-gate, register_license-stores, get_registered-register,
}

abbrev claims : Dict
claims = ("tier", str "team") ∷ ("expires_at", int (pos 2000)) ∷ ("customer_ref", str "acme") ∷ []

abbrev signed : Dict
signed =
    claims
    ++ (
      "signature",
      signature_block "0011223344556677" (toy.sign (1 ∷ []) (canonical_bytes toy claims)),
    )
      ∷ []

abbrev reader : Platform
reader = toy_reading "token" signed

abbrev store : TrustStore
store = ("0011223344556677", record { public_key = "AQ=="; status = str "active" }) ∷ []

abbrev configured : Settings
configured = record settings { license_public_key = "AQ=="; admin_api_tokens = "s3cret" }

abbrev admin : Request
admin = record {
  client_host = some "203.0.113.9";
  authorization = some "Bearer s3cret";
  x_forwarded_for = none;
}

abbrev clock : Clock
clock = record { monotonic = 5; time = 1000 }

-- Before the expiry, after it, and with another text.
verify_tests :
    (verify_token reader 1000 "token" store ≡ ok (valid_result "team" (some (pos 2000))))
    × (verify_token reader 2001 "token" store
        ≡ ok (record {
          valid = false;
          tier = "team";
          expires_at = some (pos 2000);
          reason = "expired";
        }))
    × (verify_token reader 1000 "other" store
        ≡ ok (record { valid = false; tier = ""; expires_at = none; reason = "malformed-token" }))
unfolding verify_token verify_manifest b64encode
verify_tests = (refl, refl, refl)

verify_token-valid_example :
    (verify_token reader 1000 "token" store ≡ ok (valid_result "team" (some (pos 2000))))
    ↔ IsEntitled reader 1000 store "token" "team" (some (pos 2000))
verify_token-valid_example = verify_token-valid reader 1000 store "token" "team" (some (pos 2000))

abbrev old_row : LicenseToken
old_row = record {
  id = 3;
  customer_ref = "acme";
  key_id = "0011223344556677";
  tier = "associate";
  expires_at = none;
  token_json = "old";
  registered_at = 1;
}

abbrev new_row : LicenseToken
new_row = record {
  id = 4;
  customer_ref = "acme";
  key_id = "0011223344556677";
  tier = "team";
  expires_at = some (pos 2000);
  token_json = "token";
  registered_at = 7;
}

registers :
    register_license reader configured clock admin 4 7 "token" (old_row ∷ [])
    ≡ (ok (about new_row), old_row ∷ new_row ∷ [])
unfolding register_license b64encode
registers = refl

new_row-IsRegistration : IsRegistration reader configured clock admin 4 7 "token" new_row
unfolding require_admin license_trust_store verify_manifest verify_token text_of b64encode
new_row-IsRegistration = record {
  trust = store;
  claims = signed;
  checked = valid_result "team" (some (pos 2000));
  is_admin = refl;
  has_trust = refl;
  parses = refl;
  kid = "0011223344556677";
  signed = refl;
  answered = refl;
  is_valid = refl;
  made = refl;
}

register_license-gate_example :
    ((row : LicenseToken) × IsRegistration reader configured clock admin 4 7 "token" row
      × (register_license reader configured clock admin 4 7 "token" (old_row ∷ [])
          ≡ (ok (about row), (old_row ∷ []) ++ row ∷ [])))
    ⊎ ((register_license reader configured clock admin 4 7 "token" (old_row ∷ [])).1 ≡ old_row ∷ [])
      × ((r : RegisterResult)
          → (register_license reader configured clock admin 4 7 "token" (old_row ∷ [])).0 ≢ ok r)
register_license-gate_example =
    register_license-gate reader configured clock admin 4 7 "token" (old_row ∷ [])

register_license-stores_test :
    register_license reader configured clock admin 4 7 "token" (old_row ∷ [])
    ≡ (ok (about new_row), (old_row ∷ []) ++ new_row ∷ [])
register_license-stores_test =
    register_license-stores reader configured clock admin 4 7 "token" (old_row ∷ []) new_row
      new_row-IsRegistration

get_registered-register_example :
    get_registered_license memory configured admin "acme"
      (register_license reader configured clock admin 4 7 "token" (old_row ∷ [])).1
    ≡ ok (record {
      customer_ref = "acme";
      tier = "team";
      key_id = "0011223344556677";
      expires_at = some (pos 2000);
      token = "token";
    })
unfolding register_license b64encode
get_registered-register_example =
    get_registered-register memory reader configured clock admin 4 7 "token" (old_row ∷ [])
      (about new_row) refl (omega arith, tt)
