-- ===== src/Minting.antt =====
-- tools/mint_license.py: the license tokens that are signed offline. The files that it reads are
-- given by their texts, the clock by its reading; tiers are ASCII, as far as `lower` goes.
mod Examples
pub mod Policy
pub mod Accepted
pub mod Text
pub mod Hidden
use Prim.Native.String
use netplex_support.Prelude.{
  ℕ, String, Bool, true, false, ◌&&◌, ◌||◌, not, Option, none, some, List, [], ◌∷◌, ◌++◌, ◌==◌,
  nat_eq, length, if◌then◌else◌,
}
use netplex_support.Prelude.Int.{ℤ, pos, ◌+ℤ◌, times_suc}
use netplex_support.Prelude.Text.{strip, lower, non_empty, take_chars}
use netplex_support.Prelude.Text.Utf8.{utf8}
use netplex_support.Json.{Value, null, bool, int, str, obj, end, Dict, of_dict}
use netplex_support.Json.Dump.{compact, dump}
use netplex_support.Base64.{Bytes, b64decode}
use netplex_support.Platform.{Platform}
use netplex_support.Cryptography.{Cryptography}
use netplex_support.Signing.{canonical_bytes, key_id_for, signature_block}
use netplex_support.Tool.{Run, done, exits, raises, require, or_raise, ◌>>=◌, ◌>>◌}

-- The options of the command line; `key` and `entitlements` are what their files hold.
pub record Options : Type 0 where
  pub key : String
  pub tier : String
  pub buyer_id : String
  pub customer_ref : Option String
  pub license_id : Option String
  pub machine : String
  pub allow_floating : Bool
  pub entitlements : Option String
  pub days : ℤ
  pub perpetual : Bool
  pub now : Option ℤ

-- b64decode of the key's file, which has to be a seed of 32 bytes
unfoldable pub read_seed : String → Run Bytes
unfolding strip b64decode
read_seed key = do
  seed ← or_raise (b64decode (strip key))
  require (nat_eq (length seed) 32) "private key must be a base64 32-byte ed25519 seed"
  done seed

-- _real_bind
abbrev pub real_bind : Options → Bool
real_bind o = non_empty o.machine && (not (o.machine == "any") && not o.allow_floating)

abbrev pub lockable : String → Bool
lockable tier = tier == "enterprise" || (tier == "architect" || tier == "master")

infixr 66 ◌⧺◌
abbrev ◌⧺◌ : String → String → String
s ⧺ t = String.◌++◌ s t

-- The policy guard: which tokens are bound to a machine.
unfoldable pub check_policy : Options → Run (Unit {0})
unfolding lower
check_policy o =
    let tier = lower o.tier in
    if real_bind o
    then require (lockable tier) (
        "refusing to hardware-lock a '" ⧺ tier
        ⧺ "' token: policy binds only ['architect', 'enterprise', 'master'] (§11.9). Use --machine any or --allow-floating for this tier.")
      >> require (not (tier == "architect" && not o.perpetual))
          "refusing to hardware-lock a SUBSCRIPTION 'architect' token: only Architect-PERPETUAL is node-locked (§11.4). Add --perpetual, or use --machine any."
    else done tt

-- `.get` of what is no dict raises
abbrev pub dict_value : Option Value → Run Value
dict_value (some (obj ms)) = done (obj ms)
dict_value _ = raises

-- The caps that are signed; JSON has no set and no tuple, so that `features` stays.
abbrev pub read_entitlements : Platform → Option String → Run Value
read_entitlements p none = done (obj end)
read_entitlements p (some text) = dict_value (p.loads text)

abbrev pub or_text : Option String → String → String
or_text none computed = computed
or_text (some s) computed = if non_empty s then s else computed

abbrev pub issued_at : Options → ℕ → ℤ
issued_at o time = elim o.now [ none ↦ pos time | some now ↦ now ]

abbrev pub expires_at : Options → ℕ → Value
expires_at o time = if o.perpetual then null else int (issued_at o time +ℤ times_suc o.days 86399)

abbrev floating : Bool → Dict
floating true = ("allow_floating", bool true) ∷ []
floating false = []

-- args.license_id or f"lic-{…}"
unfoldable pub license_id_of : Platform → Options → String
unfolding take_chars utf8
license_id_of p o =
    or_text o.license_id ("lic-" ⧺ take_chars 8 (p.sha256_hexdigest (utf8 o.buyer_id)))

-- `claims`, before it is signed
unfoldable pub claims : Platform → Options → ℕ → Value → Dict
unfolding lower license_id_of
claims p o time entitlements =
    ("tier", str (lower o.tier))
    ∷ ("entitlements", entitlements)
    ∷ ("buyer_id", str o.buyer_id)
    ∷ ("customer_ref", str (or_text o.customer_ref o.buyer_id))
    ∷ ("license_id", str (license_id_of p o))
    ∷ ("fingerprint", str o.machine)
    ∷ ("issued_at", int (issued_at o time))
    ∷ ("expires_at", expires_at o time)
    ∷ floating o.allow_floating

-- claims["signature"] = …
unfoldable pub signed : Platform → Cryptography → Bytes → Bytes → Dict → Dict
unfolding canonical_bytes key_id_for
signed p c seed key unsigned =
    unsigned
    ++ ("signature", signature_block (key_id_for p key) (c.sign seed (canonical_bytes p unsigned)))
      ∷ []

abbrev pub token_text : Platform → Dict → String
token_text p d = dump compact p.float_text 0 (obj (of_dict d))

-- main: the claims that are signed. Their text, and a line end, are written to the file.
unfoldable pub mint : Platform → Cryptography → Options → ℕ → Run Dict
unfolding read_seed check_policy claims signed
mint p c o time = do
  seed ← read_seed o.key
  key ← or_raise (c.public_key seed)
  check_policy o
  entitlements ← read_entitlements p o.entitlements
  done (signed p c seed key (claims p o time entitlements))
