-- ===== src/Signing.antt =====
-- app/crypto/signing.py: signed manifests, and the trust store that says whose signature counts.
mod Examples
pub mod Reorder
pub mod Accept
pub mod Store
pub mod RoundTrip
use netplex_support.Prelude.{
  ℕ, String, Bool, true, false, ◌&&◌, ◌||◌, not, Option, none, some, List, [], ◌∷◌, ◌++◌, lookup,
  insert, without, ◌≡◌, ◌⊎◌, inl, inr, refl, ◌==◌, if◌then◌else◌, take,
}
use Prim.Native.String
use netplex_support.Prelude.Options.{◌>>=◌}
use mathlib.Core.Option.{get_or}
use mathlib.Core.Option
use netplex_support.Prelude.Text.{strip, non_empty, take_chars}
use netplex_support.Prelude.Text.Utf8.{utf8}
use netplex_support.Json.{
  Value, str, obj, null, Dict, of_dict, as_dict, as_text, is_hashable, get_default, Items, arr,
}
use netplex_support.Json.Write.{write, write_members, member_texts}
use netplex_support.Base64.{Bytes, b64encode, b64decode}
use netplex_support.Platform.{Platform, Outcome, valid, bad_signature, raises, text_of}

-- hashlib.sha256(public_key).hexdigest()[:16]
unfoldable pub key_id_for : Platform → Bytes → String
unfolding take_chars
key_id_for p public_key = take_chars 16 (p.sha256_hexdigest public_key)

unfoldable pub canonical_bytes : Platform → Dict → Bytes
unfolding utf8 write_members member_texts
canonical_bytes p manifest =
    utf8 (
      write_members false
        (member_texts false p.float_text (of_dict (without "signature" manifest))))

-- key_id or key_id_for(…)
abbrev pub or_key_id : Option String → String → String
or_key_id none computed = computed
or_key_id (some kid) computed = if non_empty kid then kid else computed

abbrev pub signature_block : String → Bytes → Value
signature_block kid sig =
    obj (of_dict (("alg", str "ed25519") ∷ ("key_id", str kid) ∷ ("sig", str (b64encode sig)) ∷ []))

signed_with : Platform → Dict → Bytes → Option String → Option Bytes → Option Dict
unfolding canonical_bytes key_id_for b64encode
signed_with p manifest seed key_id none = none
signed_with p manifest seed key_id (some key) =
    let out = without "signature" manifest in
    some (
      out
      ++ (
        "signature",
        signature_block (or_key_id key_id (key_id_for p key)) (p.sign seed (canonical_bytes p out)),
      )
        ∷ [])

-- `none` where it raises: without PyNaCl, or on a seed that is none
unfoldable pub sign_manifest : Platform → Dict → Bytes → Option String → Option Dict
unfolding signed_with
sign_manifest p manifest seed key_id =
    if p.has_nacl then signed_with p manifest seed key_id (p.verify_key seed) else none

pub record Entry : Type 0 where
  pub public_key : String
  pub status : Value

-- `_e`: key ids and what is known of the keys
abbrev pub TrustStore : Type 0
TrustStore = List (String × Entry)

-- One element of the list of keys, `none` where reading it raises.
abbrev entry_of : Option Value → Dict → Option Entry
entry_of (some (str public_key)) k =
    some (record { public_key = public_key; status = get_default k "status" (str "active") })
entry_of _ k = none

abbrev entry_of_value : Value → Option Entry
entry_of_value v = do k ← as_dict v; entry_of (lookup "public_key" k) k

-- The loop of TrustStore.from_keys, into `out`; `none` where an element raises.
unfoldable pub from_keys : Platform → Items → TrustStore → Option TrustStore
unfolding key_id_for b64decode
from_keys p Items.nil out = some out
from_keys p (Items.cons v vs) out = do
  entry ← entry_of_value v
  pub_bytes ← b64decode entry.public_key
  from_keys p vs (insert (key_id_for p pub_bytes) entry out)

-- What is a key id of the store: TypeError for lists and dicts, None for what is not a text.
abbrev pub entry_for : TrustStore → Value → Option (Option (String × Entry))
entry_for trust (str key_id) = some (Option.map (λ e. (key_id, e)) (lookup key_id trust))
entry_for trust kid = if is_hashable kid then some none else none

abbrev pub keys_of : Option Value → Items
keys_of (some (arr keys)) = keys
keys_of _ = Items.nil

unfoldable pub trust_store_from_settings : Platform → String → String → Option TrustStore
unfolding strip from_keys
trust_store_from_settings p trust_store_json single_public_key =
    let raw = strip trust_store_json in
    if non_empty raw
    then from_keys p (keys_of (p.loads raw)) []
    else if non_empty single_public_key
    then from_keys p
        (Items.cons
          (obj (of_dict (("public_key", str single_public_key) ∷ ("status", str "active") ∷ [])))
          Items.nil)
        []
    else from_keys p Items.nil []

-- What verify_manifest returns, (True, key_id) or (False, reason), or that it raises.
pub data Verdict : Type 0 where
  accepted : String → Verdict
  rejected : String → Verdict
  fails : Verdict

-- To split on a computed verdict and keep the equation.
pub Verdict-cases :
    (v : Verdict)
    → ((kid : String) × (v ≡ accepted kid)) ⊎ (((why : String) × (v ≡ rejected why)) ⊎ (v ≡ fails))
Verdict-cases (accepted kid) = inl (kid, refl)
Verdict-cases (rejected why) = inr (inl (why, refl))
Verdict-cases fails = inr (inr refl)

abbrev pub is_text : Value → String → Bool
is_text (str s) t = s == t
is_text _ t = false

abbrev pub judge : Outcome → String → Verdict
judge valid kid = accepted kid
judge bad_signature kid = rejected "bad-signature"
judge (raises text) kid = rejected (String.◌++◌ "verify-error:" text)

abbrev pub b64decode_value : Option Value → Option Bytes
b64decode_value (some (str s)) = b64decode s
b64decode_value _ = none

-- The `try` block, for the key `pub` and the member `sig` of the signature block.
check_signature : Platform → Dict → Option Value → Option Bytes → Bytes → String → Verdict
unfolding canonical_bytes
check_signature p manifest sig none key kid =
    rejected (String.◌++◌ "verify-error:" (p.sig_error key sig))
check_signature p manifest sig (some sig_bytes) key kid =
    judge (p.verify key (canonical_bytes p manifest) sig_bytes) kid

abbrev pub is_null : Value → Bool
is_null null = true
is_null _ = false

abbrev pub is_usable : Value → Bool
is_usable status = is_text status "active" || is_text status "next"

with_public_key : Platform → Dict → Option Value → String → Option Bytes → Verdict
unfolding check_signature b64decode
with_public_key p manifest sig kid none = fails
with_public_key p manifest sig kid (some key) =
    check_signature p manifest sig (b64decode_value sig) key kid

-- From the status of a known key on.
with_entry : Platform → Dict → Dict → String → Entry → Verdict
unfolding with_public_key text_of
with_entry p manifest sigblock kid entry =
    if is_null entry.status
    then rejected "unknown-key"
    else if is_text entry.status "revoked"
    then rejected "revoked-key"
    else if not (is_usable entry.status)
    then rejected (String.◌++◌ "bad-status:" (text_of p entry.status))
    else with_public_key p manifest (lookup "sig" sigblock) kid (b64decode entry.public_key)

with_key : Platform → Dict → Dict → Option (Option (String × Entry)) → Verdict
unfolding with_entry
with_key p manifest sigblock none = fails
with_key p manifest sigblock (some none) = rejected "unknown-key"
with_key p manifest sigblock (some (some (kid, entry))) = with_entry p manifest sigblock kid entry

with_block : Platform → TrustStore → Dict → Option Dict → Verdict
unfolding with_key text_of
with_block p trust manifest none = rejected "no-signature"
with_block p trust manifest (some sigblock) =
    let alg = get_default sigblock "alg" null in
    if not (is_text alg "ed25519")
    then rejected (String.◌++◌ "bad-alg:" (text_of p alg))
    else with_key p manifest sigblock (entry_for trust (get_default sigblock "key_id" (str "")))

unfoldable pub verify_manifest : Platform → Dict → TrustStore → Verdict
unfolding with_block
verify_manifest p manifest trust =
    if p.has_nacl
    then with_block p trust manifest (as_dict (get_default manifest "signature" null))
    else rejected "crypto-unavailable"
