-- ===== src/Signing/Accept.antt =====
-- Which manifests verify_manifest accepts.
use netplex_support.Prelude.{
  String, true, false, Option, none, some, lookup, ◌≡◌, ◌⊎◌, ◌↔◌, inl, inr, refl, Bool-cases,
  Option-cases, ap, eq_iff,
}
use netplex_support.Json.{Value, str, null, Dict, as_dict, get_default}
use netplex_support.Base64.{Bytes, b64decode}
use netplex_support.Platform.{Platform, Outcome, valid, bad_signature, raises}
use netplex_support.Signing.{
  TrustStore, Entry, accepted, verify_manifest, canonical_bytes, is_text, is_usable, is_null,
  b64decode_value, entry_for, with_block, with_key, with_entry, with_public_key, check_signature,
  judge,
}

-- A key of the store has signed what the manifest says.
pub record IsSigned (p : Platform) (trust : TrustStore) (manifest : Dict) (kid : String)
    : Type 0 where
  pub sigblock : Dict
  pub entry : Entry
  pub key : Bytes
  pub sig : Bytes
  pub available : p.has_nacl ≡ true
  pub has_block : as_dict (get_default manifest "signature" null) ≡ some sigblock
  pub has_alg : is_text (get_default sigblock "alg" null) "ed25519" ≡ true
  pub names_key : get_default sigblock "key_id" (str "") ≡ str kid
  pub is_known : lookup kid trust ≡ some entry
  pub in_use : is_usable entry.status ≡ true
  pub has_key : b64decode entry.public_key ≡ some key
  pub has_sig : b64decode_value (lookup "sig" sigblock) ≡ some sig
  pub genuine : p.verify key (canonical_bytes p manifest) sig ≡ valid

module _ (p : Platform) (trust : TrustStore) (manifest : Dict) where
  is_text_eq : (v : Value) (t : String) → is_text v t ≡ true → v ≡ str t
  is_text_eq (str s) t h = ap str ((eq_iff s t).0 h)
  is_text_eq v t h = cc

  usable_is_text : (v : Value) → is_usable v ≡ true → (v ≡ str "active") ⊎ (v ≡ str "next")
  usable_is_text v h = elim (Bool-cases (is_text v "active")) [
    | inl e ↦ inl (is_text_eq v "active" e)
    | inr e ↦ inr (is_text_eq v "next" (rw e at h))
  ]

  usable_lem :
      (v : Value) → is_usable v ≡ true → (is_null v ≡ false) × (is_text v "revoked" ≡ false)
  usable_lem v h = elim (usable_is_text v h) [
    | inl e ↦ rw e (refl, refl)
    | inr e ↦ rw e (refl, refl)
  ]

  accepts_signed :
      (kid : String)
      → IsSigned p trust manifest kid
      → verify_manifest p manifest trust ≡ accepted kid
  unfolding verify_manifest with_block with_key with_entry with_public_key check_signature
  accepts_signed kid s = rw (s.available) (
      rw (s.has_block) (
        rw (s.has_alg) (
          rw (s.names_key) (
            rw (s.is_known) (
              rw (usable_lem (s.entry.status) (s.in_use)).0 (
                rw (usable_lem (s.entry.status) (s.in_use)).1
                  (rw (s.in_use) (rw (s.has_key) (rw (s.has_sig) (rw (s.genuine)))))))))))

  judge_sound : (o : Outcome) (kid k : String) → judge o kid ≡ accepted k → (o ≡ valid) × (kid ≡ k)
  judge_sound valid kid k h = (refl, cc)
  judge_sound bad_signature kid k h = cc
  judge_sound (raises text) kid k h = cc

  -- The key and the signature of an accepted manifest.
  key_sound :
      (sig : Option Value) (kid k : String) (o : Option Bytes)
      → with_public_key p manifest sig kid o ≡ accepted k
      → (key : Bytes) × (sig_bytes : Bytes) × (o ≡ some key)
        × (b64decode_value sig ≡ some sig_bytes)
        × (p.verify key (canonical_bytes p manifest) sig_bytes ≡ valid)
        × (kid ≡ k)
  unfolding with_public_key check_signature
  key_sound sig kid k none h = cc
  key_sound sig kid k (some key) h = elim (Option-cases (b64decode_value sig)) [
    | inl e ↦ let bad = rw e at h in cc
    | inr (sig_bytes, e) ↦
        let (v, same) =
          judge_sound (p.verify key (canonical_bytes p manifest) sig_bytes) kid k (rw e at h) in
        (key, sig_bytes, refl, e, v, same)
  ]

  entry_sound :
      (block : Dict) (kid k : String) (entry : Entry)
      → with_entry p manifest block kid entry ≡ accepted k
      → (is_usable entry.status ≡ true)
        × (with_public_key p manifest (lookup "sig" block) kid (b64decode entry.public_key)
            ≡ accepted k)
  unfolding with_entry
  entry_sound block kid k entry h = elim (Bool-cases (is_usable entry.status)) [
    | inl e ↦ let (a, b) = usable_lem (entry.status) e in (e, rw (a, b, e) at h)
    | inr e ↦ elim (Bool-cases (is_null entry.status)) [
      | inl n ↦ let bad = rw n at h in cc
      | inr n ↦ elim (Bool-cases (is_text entry.status "revoked")) [
        | inl r ↦ let bad = rw (n, r) at h in cc
        | inr r ↦ let bad = rw (n, r, e) at h in cc
      ]
    ]
  ]

  known_sound :
      (block : Dict) (v : Value) (k : String)
      → with_key p manifest block (entry_for trust v) ≡ accepted k
      → (kid : String) × (entry : Entry) × (v ≡ str kid)
        × (lookup kid trust ≡ some entry)
        × (with_entry p manifest block kid entry ≡ accepted k)
  unfolding with_key
  known_sound block (str s) k h = elim (Option-cases (lookup s trust)) [
    | inl e ↦ let bad = rw e at h in cc
    | inr (entry, e) ↦ (s, entry, refl, e, rw e at h)
  ]
  known_sound block v k h = cc

  block_sound :
      (o : Option Dict) (k : String)
      → with_block p trust manifest o ≡ accepted k
      → (block : Dict) × (o ≡ some block)
        × (is_text (get_default block "alg" null) "ed25519" ≡ true)
        × (with_key p manifest block (entry_for trust (get_default block "key_id" (str "")))
            ≡ accepted k)
  unfolding with_block
  block_sound none k h = cc
  block_sound (some block) k h =
      elim (Bool-cases (is_text (get_default block "alg" null) "ed25519")) [
        | inl e ↦ (block, refl, e, rw e at h)
        | inr e ↦ let bad = rw e at h in cc
      ]

  nacl_sound :
      (k : String)
      → verify_manifest p manifest trust ≡ accepted k
      → (p.has_nacl ≡ true)
        × (with_block p trust manifest (as_dict (get_default manifest "signature" null))
            ≡ accepted k)
  unfolding verify_manifest
  nacl_sound k h = elim (Bool-cases p.has_nacl) [
    | inl e ↦ (e, rw e at h)
    | inr e ↦ let bad = rw e at h in cc
  ]

  accepted_signed :
      (kid : String)
      → verify_manifest p manifest trust ≡ accepted kid
      → IsSigned p trust manifest kid
  accepted_signed kid h =
      let (available, h1) = nacl_sound kid h in
      let (sigblock, has_block, has_alg, h2) = block_sound _ kid h1 in
      let (named, entry, names_key, is_known, h3) = known_sound sigblock _ kid h2 in
      let (in_use, h4) = entry_sound sigblock named kid entry h3 in
      let (key, sig, has_key, has_sig, genuine, same) = key_sound _ named kid _ h4 in
      record {
        sigblock = sigblock;
        entry = entry;
        key = key;
        sig = sig;
        available = available;
        has_block = has_block;
        has_alg = has_alg;
        names_key = rw (← same) names_key;
        is_known = rw (← same) is_known;
        in_use = in_use;
        has_key = has_key;
        has_sig = has_sig;
        genuine = genuine;
      }

-- `verify_manifest` accepts a manifest in the name of a key id exactly if PyNaCl is there and the
-- manifest's `signature` is a dict whose `alg` is "ed25519" and whose `key_id` (blank if it is
-- absent) is that id, the trust store holds a key of that id whose status is "active" or "next",
-- the key and the block's `sig` decode, and ed25519 verifies the decoded signature of the
-- manifest's canonical bytes under the key.
pub verify_manifest-accepted :
    (p : Platform) (trust : TrustStore) (manifest : Dict) (kid : String)
    → (verify_manifest p manifest trust ≡ accepted kid) ↔ IsSigned p trust manifest kid
verify_manifest-accepted p trust manifest kid =
    (accepted_signed p trust manifest kid, accepts_signed p trust manifest kid)
