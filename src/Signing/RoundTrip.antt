-- ===== src/Signing/RoundTrip.antt =====
-- What is signed offline is accepted where its key is trusted.
use netplex_support.Prelude.{
  String, true, false, Option, some, List, [], ◌∷◌, ◌++◌, lookup, without, ◌≡◌, inl, inr, refl,
  Bool-cases, arith, ap, ◌==◌, eq_iff,
}
use netplex_support.Json.Write.{write_members, member_texts}
use netplex_support.Prelude.Text.Utf8.{utf8}
use netplex_support.Json.{Value, str, Dict, of_dict}
use netplex_support.Base64.{Bytes, b64decode, b64encode}
use netplex_support.Base64.Laws.{b64decode-b64encode}
use netplex_support.Platform.{Platform, HasEd25519}
use netplex_support.Signing.{
  TrustStore, Entry, accepted, verify_manifest, sign_manifest, signed_with, signature_block,
  or_key_id, key_id_for, canonical_bytes, is_usable,
}
use netplex_support.Signing.Accept.{verify_manifest-accepted}

module _ {V : Type 0} (k : String) (v : V) where
  without-add :
      (m : List (String × V)) → without k (without k m ++ (k, v) ∷ []) ≡ without k (without k m)
  without-add [] = ground (arith, eq_iff k k)
  without-add ((j, w) ∷ m) = elim (Bool-cases (j == k)) [
    | inl e ↦ rw e (without-add m)
    | inr e ↦ rw e (rw e (ap (λ r. (j, w) ∷ r) (without-add m)))
  ]

  lookup-add : (m : List (String × V)) → lookup k (without k m ++ (k, v) ∷ []) ≡ some v
  lookup-add [] = ground (arith, eq_iff k k)
  lookup-add ((j, w) ∷ m) = elim (Bool-cases (j == k)) [
    | inl e ↦ rw e (lookup-add m)
    | inr e ↦ rw e (rw e (lookup-add m))
  ]

canonical_bytes-add :
    (p : Platform) (m : Dict) (v : Value)
    → canonical_bytes p (without "signature" m ++ ("signature", v) ∷ [])
      ≡ canonical_bytes p (without "signature" m)
unfolding canonical_bytes
canonical_bytes-add p m v =
    ap (λ d. utf8 (write_members false (member_texts false p.float_text (of_dict d))))
      (without-add "signature" v m)

-- Where PyNaCl is there and ed25519 verifies what it signs: a manifest that is signed with a seed is
-- accepted in the name of the key id that it is signed under (the one that is given if it is not
-- blank, else the one computed from the seed's public key), by every trust store that holds the
-- seed's public key under that id as "active" or "next".
pub sign_manifest-verify :
    (p : Platform) (manifest signed : Dict) (seed key : Bytes) (key_id : Option String)
    (trust : TrustStore) (entry : Entry)
    → HasEd25519 p
    → p.verify_key seed ≡ some key
    → sign_manifest p manifest seed key_id ≡ some signed
    → lookup (or_key_id key_id (key_id_for p key)) trust ≡ some entry
    → is_usable entry.status ≡ true
    → b64decode entry.public_key ≡ some key
    → verify_manifest p signed trust ≡ accepted (or_key_id key_id (key_id_for p key))
unfolding sign_manifest signed_with
sign_manifest-verify p manifest signed seed key key_id trust entry laws k s l u d =
    let out = without "signature" manifest in
    let kid = or_key_id key_id (key_id_for p key) in
    let sig = p.sign seed (canonical_bytes p out) in
    let made : some (out ++ ("signature", signature_block kid sig) ∷ []) ≡ some signed =
      rw (laws.available, k) at s in
    let same : out ++ ("signature", signature_block kid sig) ∷ [] ≡ signed = cc in
    rw (← same) (
      (verify_manifest-accepted p trust _ kid).1 (record {
        sigblock = ("alg", str "ed25519") ∷ ("key_id", str kid) ∷ ("sig", str (b64encode sig)) ∷ [];
        entry = entry;
        key = key;
        sig = sig;
        available = laws.available;
        has_block = rw (lookup-add "signature" (signature_block kid sig) manifest);
        has_alg = refl;
        names_key = refl;
        is_known = l;
        in_use = u;
        has_key = d;
        has_sig = b64decode-b64encode sig (laws.sign_bytes seed (canonical_bytes p out));
        genuine =
            rw (canonical_bytes-add p manifest (signature_block kid sig))
              (laws.verify_sign seed key _ k);
      }))
