-- ===== src/Minting/Accepted.antt =====
-- What is minted offline, the service takes.
use netplex_support.Prelude.{
  ℕ, String, true, false, Option, none, some, [], ◌∷◌, ◌++◌, lookup, without, ◌≡◌, inl, inr, refl,
  sym, ap, ◌∙◌, Bool-cases, if◌then◌else◌,
}
use netplex_support.Prelude.Int.{ℤ, pos, ltb_ℤ, ◌+ℤ◌, times_suc}
use netplex_support.Prelude.Text.{strip, lower}
use netplex_support.Http.{ok}
use netplex_support.Json.{Value, null, str, obj, Dict, of_dict, to_dict-of_dict, get_default}
use netplex_support.Base64.{Bytes, b64decode, b64encode}
use netplex_support.Base64.Laws.{b64decode-b64encode}
use netplex_support.Platform.{Platform, text_of, int_of}
use netplex_support.Cryptography.{Cryptography, AreCompatible}
use netplex_support.Signing.{
  TrustStore, Entry, is_usable, key_id_for, signature_block, canonical_bytes,
}
use netplex_support.Licensing.{verify_token, valid_result}
use netplex_support.Licensing.Token.{LetsPass, verify_token-valid}
use netplex_support.Tool.{done}
use netplex_support.Minting.{Options, claims, signed, mint, token_text, issued_at, expires_at}
use netplex_support.Minting.Policy.{mint-done}

-- When a token of these options expires, if it does.
abbrev pub expiry : Options → ℕ → Option ℤ
expiry o time = if o.perpetual then none else some (issued_at o time +ℤ times_suc o.days 86399)

abbrev pub IsInTime : ℕ → Option ℤ → Type 0
IsInTime now none = Unit
IsInTime now (some at) = ltb_ℤ at (pos now) ≡ false

module _ (p : Platform) (c : Cryptography) (o : Options) (time : ℕ) (caps : Value) (v : Value) where
  abbrev full : Dict
  full = claims p o time caps ++ ("signature", v) ∷ []

  without_signature : without "signature" full ≡ without "signature" (claims p o time caps)
  unfolding claims
  without_signature = elim (Bool-cases o.allow_floating) [ inl e ↦ rw e | inr e ↦ rw e ]

  members :
      (get_default full "signature" null ≡ v)
      × (get_default full "tier" (str "") ≡ str (lower o.tier))
      × (get_default full "expires_at" null ≡ expires_at o time)
  unfolding claims
  members = elim (Bool-cases o.allow_floating) [
    | inl e ↦ rw e (refl, refl, refl)
    | inr e ↦ rw e (refl, refl, refl)
  ]

some-inj : {A : Type 0} (a b : A) → some a ≡ some b → a ≡ b
some-inj a b h = cc

lets_pass :
    (p : Platform) (o : Options) (time now : ℕ)
    → IsInTime now (expiry o time)
    → LetsPass p now (expires_at o time) (expiry o time)
unfolding LetsPass int_of
lets_pass p o time now h = elim (Bool-cases o.perpetual) [
  | inl e ↦ rw e
  | inr e ↦ rw e (refl, rw e at h)
]

-- A text that reads as signed claims is the token of its tier and expiry.
full_valid :
    (p : Platform) (c : Cryptography) (o : Options) (time now : ℕ) (caps : Value) (text : String)
    (trust : TrustStore) (entry : Entry) (seed key : Bytes)
    → AreCompatible p c
    → let sig = c.sign seed (canonical_bytes p (claims p o time caps)) in
      p.loads text
        ≡ some (obj (of_dict (full p c o time caps (signature_block (key_id_for p key) sig))))
      → c.public_key seed ≡ some key
      → lookup (key_id_for p key) trust ≡ some entry
      → is_usable entry.status ≡ true
      → b64decode entry.public_key ≡ some key
      → IsInTime now (expiry o time)
      → verify_token p now text trust ≡ ok (valid_result (lower o.tier) (expiry o time))
unfolding text_of canonical_bytes
full_valid p c o time now caps text trust entry seed key laws reads has_key known usable same_key
      in_time =
    let message = canonical_bytes p (claims p o time caps) in
    let kid = key_id_for p key in
    let sig = c.sign seed message in
    let block = signature_block kid sig in
    let (has_block, has_tier, has_expiry) = members p c o time caps block in
    (verify_token-valid p now trust text (lower o.tier) (expiry o time)).1 (record {
      claims = full p c o time caps block;
      kid = kid;
      parses = rw reads (ap some (to_dict-of_dict (full p c o time caps block)));
      signed = record {
        sigblock = ("alg", str "ed25519") ∷ ("key_id", str kid) ∷ ("sig", str (b64encode sig)) ∷ [];
        entry = entry;
        key = key;
        sig = sig;
        available = laws.has_nacl;
        has_block = rw has_block;
        has_alg = refl;
        names_key = refl;
        is_known = known;
        in_use = usable;
        has_key = same_key;
        has_sig = b64decode-b64encode sig (laws.sign_bytes seed message);
        genuine =
            rw (without_signature p c o time caps block) (laws.verify_sign seed key _ has_key);
      };
      has_tier = rw has_tier;
      in_time = rw has_expiry (lets_pass p o time now in_time);
    })

-- What mint writes, `_verify_token` answers as valid, with the tier in lower case and the expiry of
-- the options, at every second up to the expiry, where PyNaCl verifies what `cryptography` signs,
-- json.loads reads the written text as the dict that was written, and the trust store holds the
-- seed's public key under its key id as "active" or "next".
pub mint-verify_token :
    (p : Platform) (c : Cryptography) (o : Options) (time now : ℕ) (token : Dict)
    (trust : TrustStore) (entry : Entry) (seed key : Bytes)
    → AreCompatible p c
    → mint p c o time ≡ done token
    → p.loads (token_text p token) ≡ some (obj (of_dict token))
    → b64decode (strip o.key) ≡ some seed
    → c.public_key seed ≡ some key
    → lookup (key_id_for p key) trust ≡ some entry
    → is_usable entry.status ≡ true
    → b64decode entry.public_key ≡ some key
    → IsInTime now (expiry o time)
    → verify_token p now (token_text p token) trust
      ≡ ok (valid_result (lower o.tier) (expiry o time))
unfolding signed
mint-verify_token p c o time now token trust entry seed key laws minted reads has_seed has_key known
      usable same_key in_time =
    let m = (mint-done p c o time token).0 minted in
    let seeds : m.seed ≡ seed = some-inj _ _ (sym (m.has_seed) ∙ has_seed) in
    let keys : m.key ≡ key =
      some-inj _ _ (sym (m.has_key) ∙ ap (λ s. c.public_key s) seeds ∙ has_key) in
    let unsigned = claims p o time m.entitlements in
    let made =
      m.token_eq
      ∙ ap (λ s. signed p c s m.key unsigned) seeds
      ∙ ap (λ k. signed p c seed k unsigned) keys in
    full_valid p c o time now m.entitlements (token_text p token) trust entry seed key laws
      (reads ∙ ap (λ d. some (obj (of_dict d))) made) has_key known usable same_key in_time
