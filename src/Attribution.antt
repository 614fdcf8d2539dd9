-- ===== src/Attribution.antt =====
-- tools/attribute_leak.py: whom a leaked license token, download stamp or build traces to.
mod Examples
pub mod Rows
pub mod Pattern
pub mod Scan
pub mod Verified
pub mod Command
use netplex_support.Prelude.{
  ℕ, String, Bool, true, false, ◌&&◌, not, Option, none, some, List, [], ◌∷◌, ◌++◌, ◌==◌, nat_eq,
  if◌then◌else◌,
}
use netplex_support.Prelude.Int.{ℤ, pos, negsuc}
use netplex_support.Prelude.Options.{◌>>=◌}
use netplex_support.Json.{
  Value, null, bool, int, float, str, arr, obj, Dict, end, as_dict, get_default, is_hashable,
}
use netplex_support.Base64.{Bytes, b64decode}
use netplex_support.Platform.{Platform, truth}
use netplex_support.Cryptography.{Cryptography}
use netplex_support.Signing.{
  Verdict, accepted, rejected, fails, canonical_bytes, key_id_for, is_text, b64decode_value,
}
unfoldable pub use netplex_support.Attribution.Rows.{
  Ledger, same_value, find_row, put_row, load_ledger,
}

-- TRUST and STAMP_TRUST: the keys that are pinned for licenses and for stamps
abbrev pub license_trust : List String
license_trust =
    "jJCebPG7chTyVdNLQ7eCYPqbvjiuWwEahm1ozQyz4pE=" ∷ "ZiZR7Qz12/KFTkQfcpvN7m4e9uG9HY7skqCRN3KyrPU="
    ∷ []

abbrev pub pinned_stamp_trust : List String
pinned_stamp_trust = "8irQIlrwhR5/1JmDqI9SFD/XJBLUt3mX5BvoNZLHS9s=" ∷ []

abbrev pub stamp_type : String
stamp_type = "netplex-download-stamp"

-- The value, or {} where it is false.
abbrev or_empty : Platform → Value → Value
or_empty p v = if truth p v then v else obj end

-- (claims.get("signature") or {}).get("sig", ""), `none` where it raises
abbrev pub signature_of : Platform → Dict → Option Value
signature_of p claims = do
  block ← as_dict (or_empty p (get_default claims "signature" null))
  some (get_default block "sig" (str ""))

abbrev pub with_bytes : Platform → Cryptography → Dict → Option Bytes → Option Bytes → Bool
with_bytes p c claims (some key) (some sig) = c.verifies key sig (canonical_bytes p claims)
with_bytes p c claims _ _ = false

-- Whether the body of the `try` runs to its end, for one key.
unfoldable pub passes : Platform → Cryptography → Dict → Value → String → Bool
unfolding canonical_bytes b64decode
passes p c claims sig key = with_bytes p c claims (b64decode key) (b64decode_value (some sig))

-- The id of a key that passes.
abbrev pub id_of_key : Platform → String → String
id_of_key p key = elim (b64decode key) [ none ↦ "" | some k ↦ key_id_for p k ]

-- The loop over the keys.
unfoldable pub first_key : Platform → Cryptography → Dict → Value → List String → Option String
unfolding passes key_id_for b64decode
first_key p c claims sig [] = none
first_key p c claims sig (k ∷ ks) =
    let rest = first_key p c claims sig ks in
    if passes p c claims sig k then some (id_of_key p k) else rest

abbrev by_key : List String → Option String → Verdict
by_key keys (some kid) = accepted kid
by_key [] none = rejected "no-stamp-key-configured"
by_key (k ∷ ks) none = rejected "no-trusted-key"

-- _verify: (True, key id) or (False, reason), or that it raises
unfoldable pub verify : Platform → Cryptography → Dict → List String → Verdict
unfolding first_key truth
verify p c claims keys =
    if c.available
    then elim (signature_of p claims) [
      | none ↦ fails
      | some sig ↦ by_key keys (first_key p c claims sig keys)
    ]
    else rejected "crypto-unavailable"

pub record StampReport : Type 0 where
  pub ok : Bool
  pub signature_key_id : Option String
  pub reason : Option String
  pub customer_ref : Value
  pub download_id : Value
  pub tier : Value
  pub package_name : Value
  pub version : Value
  pub issued_at : Value
  pub resolved_via_ledger : Bool

pub record TokenReport : Type 0 where
  pub ok : Bool
  pub signature_key_id : Option String
  pub reason : Option String
  pub buyer_id : Value
  pub license_id : Value
  pub tier : Value
  pub issued_at : Value
  pub expires_at : Value

pub data Report : Type 0 where
  not_json : Report
  download_stamp : StampReport → Report
  license_token : TokenReport → Report

abbrev pub get : Dict → String → Value
get d key = get_default d key null

-- d.get(key) or d.get(other)
abbrev pub get_either : Platform → Dict → String → String → Value
get_either p d key other = if truth p (get d key) then get d key else get d other

abbrev is_row : Option Dict → Bool
is_row none = false
is_row (some r) = true

abbrev pub in_ledger : Platform → Ledger → Value → Bool
in_ledger p ledger key = is_row (find_row p key ledger)

abbrev is_filled : Ledger → Bool
is_filled [] = false
is_filled (r ∷ rs) = true

-- via_ledger, `none` where `dl in ledger` raises
abbrev pub via_ledger : Platform → Bool → Value → Value → Ledger → Option Bool
via_ledger p ok embedded dl ledger =
    if ok && (truth p dl && (not (truth p embedded) && is_filled ledger))
    then (if is_hashable dl then some (in_ledger p ledger dl) else none)
    else some false

abbrev customer_in : Option Dict → Value
customer_in none = null
customer_in (some r) = get r "customer_ref"

-- The customer that the ledger has for a download id.
abbrev pub ledger_customer : Platform → Ledger → Value → Value
ledger_customer p ledger dl = customer_in (find_row p dl ledger)

abbrev pub customer : Platform → Value → Bool → Ledger → Value → Value
customer p embedded via ledger dl =
    if truth p embedded then embedded else if via then ledger_customer p ledger dl else null

abbrev outcome : Verdict → Option (Bool × Option String × Option String)
outcome (accepted kid) = some (true, some kid, none)
outcome (rejected why) = some (false, none, some why)
outcome fails = none

unfoldable pub stamp_report : Platform → Cryptography → List String → Ledger → Dict → Option Report
unfolding verify truth
stamp_report p c stamp_trust ledger claims = do
  (ok, kid, why) ← outcome (verify p c claims (stamp_trust ++ pinned_stamp_trust))
  let embedded = get_either p claims "customer_ref" "buyer_id"
  let dl = get claims "download_id"
  via ← via_ledger p ok embedded dl ledger
  some (
      download_stamp (record {
        ok = ok;
        signature_key_id = kid;
        reason = why;
        customer_ref = customer p embedded via ledger dl;
        download_id = dl;
        tier = get claims "tier";
        package_name = get claims "package";
        version = get claims "version";
        issued_at = get claims "issued_at";
        resolved_via_ledger = via;
      }))

unfoldable pub token_report : Platform → Cryptography → Dict → Option Report
unfolding verify truth
token_report p c claims = do
  (ok, kid, why) ← outcome (verify p c claims license_trust)
  some (
      license_token (record {
        ok = ok;
        signature_key_id = kid;
        reason = why;
        buyer_id = get_either p claims "buyer_id" "customer_ref";
        license_id = get_either p claims "license_id" "jti";
        tier = get claims "tier";
        issued_at = get claims "issued_at";
        expires_at = get claims "expires_at";
      }))

abbrev report_of_claims : Platform → Cryptography → List String → Ledger → Dict → Option Report
report_of_claims p c stamp_trust ledger claims =
    if is_text (get claims "type") stamp_type
    then stamp_report p c stamp_trust ledger claims
    else token_report p c claims

abbrev report_of : Platform → Cryptography → List String → Ledger → Option Value → Option Report
report_of p c stamp_trust ledger none = some not_json
report_of p c stamp_trust ledger (some v) =
    as_dict v >>= λ claims. report_of_claims p c stamp_trust ledger claims

-- _attribute, `none` where it raises
unfoldable pub attribute : Platform → Cryptography → List String → Ledger → String → Option Report
attribute p c stamp_trust ledger token = report_of p c stamp_trust ledger (p.loads token)
