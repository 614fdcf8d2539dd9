-- ===== src/Signing/Store.antt =====
-- The trust stores that the settings give, and where verify_manifest raises on them.
use netplex_support.Prelude.{
  String, true, false, Option, none, some, [], ◌∷◌, lookup, insert, lookup-insert, ◌≡◌, ◌↔◌, ◌≢◌,
  inl, inr, refl, Bool-cases, Option-cases, eq_iff, ◌==◌,
}
use netplex_support.Prelude.Text.{strip, non_empty}
use netplex_support.Json.{
  Value, str, null, Dict, as_dict, get_default, Items, is_hashable, of_dict, arr, obj,
}
use netplex_support.Base64.{Bytes, b64decode}
use netplex_support.Platform.{Platform, Outcome, valid, bad_signature, raises}
use netplex_support.Signing.{
  TrustStore, Entry, fails, verify_manifest, key_id_for, from_keys, keys_of,
  trust_store_from_settings, entry_of_value, is_text, is_usable, is_null, entry_for, with_block,
  with_key, with_entry, with_public_key, check_signature, judge,
}

-- Every key of the store decodes, and stands under its own key id.
pub AreFiled : Platform → TrustStore → Type 0
AreFiled p trust =
    (kid : String) (entry : Entry)
    → lookup kid trust ≡ some entry
    → (key : Bytes) × (b64decode entry.public_key ≡ some key) × (key_id_for p key ≡ kid)

module _ (p : Platform) where
  insert-AreFiled :
      (out : TrustStore) (key : Bytes) (e : Entry)
      → b64decode e.public_key ≡ some key
      → AreFiled p out
      → AreFiled p (insert (key_id_for p key) e out)
  unfolding AreFiled
  insert-AreFiled out key e d h kid entry l = elim (Bool-cases (key_id_for p key == kid)) [
    | inl q ↦
        let found = rw (lookup-insert (key_id_for p key) kid e out, q) at l in
        let same : e ≡ entry = cc in (key, rw (← same) d, (eq_iff _ _).0 q)
    | inr q ↦ h kid entry (rw (lookup-insert (key_id_for p key) kid e out, q) at l)
  ]

  from_keys-AreFiled :
      (vs : Items) (out trust : TrustStore)
      → AreFiled p out
      → from_keys p vs out ≡ some trust
      → AreFiled p trust
  unfolding from_keys
  from_keys-AreFiled Items.nil out trust h e = let same : out ≡ trust = cc in rw (← same) h
  from_keys-AreFiled (Items.cons v vs) out trust h e = elim (Option-cases (entry_of_value v)) [
    | inl q ↦ let bad = rw q at e in cc
    | inr (entry, q) ↦ elim (Option-cases (b64decode entry.public_key)) [
      | inl r ↦ let bad = rw (q, r) at e in cc
      | inr (key, r) ↦
          from_keys-AreFiled vs (insert (key_id_for p key) entry out) trust
            (insert-AreFiled out key entry r h) (rw (q, r) at e)
    ]
  ]

  judge_returns : (o : Outcome) (kid : String) → judge o kid ≢ fails
  judge_returns valid kid f = cc
  judge_returns bad_signature kid f = cc
  judge_returns (raises text) kid f = cc

  check_returns :
      (manifest : Dict) (sig : Option Value) (o : Option Bytes) (key : Bytes) (kid : String)
      → check_signature p manifest sig o key kid ≢ fails
  unfolding check_signature
  check_returns manifest sig none key kid f = cc
  check_returns manifest sig (some sig_bytes) key kid f = judge_returns _ kid f

  -- With a key that decodes, what follows on the finding of an entry returns.
  entry_returns :
      (manifest block : Dict) (kid : String) (entry : Entry) (key : Bytes)
      → b64decode entry.public_key ≡ some key
      → with_entry p manifest block kid entry ≢ fails
  unfolding with_entry with_public_key
  entry_returns manifest block kid entry key d f = elim (Bool-cases (is_null entry.status)) [
    | inl n ↦ let bad = rw n at f in cc
    | inr n ↦ elim (Bool-cases (is_text entry.status "revoked")) [
      | inl r ↦ let bad = rw (n, r) at f in cc
      | inr r ↦ elim (Bool-cases (is_usable entry.status)) [
        | inr u ↦ let bad = rw (n, r, u) at f in cc
        | inl u ↦ check_returns manifest _ _ key kid (rw (n, r, u, d) at f)
      ]
    ]
  ]

  -- A key id that cannot be hashed, for a block that names the right algorithm.
  pub HasBadKeyId : Dict → Type 0
  HasBadKeyId manifest =
      (block : Dict) × (as_dict (get_default manifest "signature" null) ≡ some block)
      × (is_text (get_default block "alg" null) "ed25519" ≡ true)
      × (is_hashable (get_default block "key_id" (str "")) ≡ false)

  key_fails :
      (manifest block : Dict) (trust : TrustStore) (v : Value)
      → AreFiled p trust
      → with_key p manifest block (entry_for trust v) ≡ fails
      → is_hashable v ≡ false
  unfolding AreFiled with_key
  key_fails manifest block trust (str s) h f = elim (Option-cases (lookup s trust)) [
    | inl e ↦ let bad = rw e at f in cc
    | inr (entry, e) ↦
        let (key, d, same) = h s entry e in
        absurd (entry_returns manifest block s entry key d (rw e at f))
  ]
  key_fails manifest block trust (arr xs) h f = refl
  key_fails manifest block trust (obj ms) h f = refl
  key_fails manifest block trust v h f = cc

  block_fails :
      (manifest : Dict) (trust : TrustStore) (o : Option Dict)
      → AreFiled p trust
      → with_block p trust manifest o ≡ fails
      → (block : Dict) × (o ≡ some block)
        × (is_text (get_default block "alg" null) "ed25519" ≡ true)
        × (is_hashable (get_default block "key_id" (str "")) ≡ false)
  unfolding with_block
  block_fails manifest trust none h f = cc
  block_fails manifest trust (some block) h f =
      elim (Bool-cases (is_text (get_default block "alg" null) "ed25519")) [
        | inl e ↦ (block, refl, e, key_fails manifest block trust _ h (rw e at f))
        | inr e ↦ let bad = rw e at f in cc
      ]

  unhashable_fails :
      (trust : TrustStore) (v : Value) → is_hashable v ≡ false → entry_for trust v ≡ none
  unhashable_fails trust (arr xs) u = refl
  unhashable_fails trust (obj ms) u = refl
  unhashable_fails trust v u = cc

  fails_of :
      (manifest : Dict) (trust : TrustStore)
      → p.has_nacl ≡ true
      → HasBadKeyId manifest
      → verify_manifest p manifest trust ≡ fails
  unfolding HasBadKeyId verify_manifest with_block with_key
  fails_of manifest trust n (block, b, a, u) = rw (n, b, a, unhashable_fails trust _ u)

  fails_only :
      (manifest : Dict) (trust : TrustStore)
      → AreFiled p trust
      → verify_manifest p manifest trust ≡ fails
      → (p.has_nacl ≡ true) × HasBadKeyId manifest
  unfolding HasBadKeyId verify_manifest
  fails_only manifest trust h f = elim (Bool-cases p.has_nacl) [
    | inl e ↦ (e, block_fails manifest trust _ h (rw e at f))
    | inr e ↦ let bad = rw e at f in cc
  ]

empty_AreFiled : (p : Platform) → AreFiled p []
unfolding AreFiled
empty_AreFiled p kid entry e = cc

-- Every key of the trust store that the two settings give decodes, and stands in the store under
-- the key id that is computed from the decoded key.
pub trust_store_from_settings-AreFiled :
    (p : Platform) (trust_store_json single_public_key : String) (trust : TrustStore)
    → trust_store_from_settings p trust_store_json single_public_key ≡ some trust
    → AreFiled p trust
unfolding trust_store_from_settings
trust_store_from_settings-AreFiled p json single trust e =
    elim (Bool-cases (non_empty (strip json))) [
      | inl q ↦
          from_keys-AreFiled p (keys_of (p.loads (strip json))) [] trust (empty_AreFiled p)
            (rw q at e)
      | inr q ↦ elim (Bool-cases (non_empty single)) [
        | inl r ↦
            from_keys-AreFiled p
              (Items.cons
                (obj (of_dict (("public_key", str single) ∷ ("status", str "active") ∷ [])))
                Items.nil)
              [] trust (empty_AreFiled p) (rw (q, r) at e)
        | inr r ↦ from_keys-AreFiled p Items.nil [] trust (empty_AreFiled p) (rw (q, r) at e)
      ]
    ]

-- With a trust store that the two settings give, `verify_manifest` raises exactly if PyNaCl is
-- there, the manifest's `signature` is a dict whose `alg` is "ed25519", and its `key_id` is a list
-- or a dict.
pub verify_manifest-fails :
    (p : Platform) (trust_store_json single_public_key : String) (trust : TrustStore)
    (manifest : Dict)
    → trust_store_from_settings p trust_store_json single_public_key ≡ some trust
    → (verify_manifest p manifest trust ≡ fails) ↔ ((p.has_nacl ≡ true) × HasBadKeyId p manifest)
verify_manifest-fails p json single trust manifest e = (
  fails_only p manifest trust (trust_store_from_settings-AreFiled p json single trust e),
  λ h. fails_of p manifest trust h.0 h.1,
)
