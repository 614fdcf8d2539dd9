-- ===== src/Signing/Reorder.antt =====
-- The order of a manifest's members, which JSON does not promise to keep.
use netplex_support.Prelude.{
  String, false, Option, none, some, List, ◌∷◌, without, lookup, ◌≡◌, ◌≢◌, inl, inr, refl, sym, ap,
  ◌∙◌, Bool-cases, eq_iff, ◌==◌,
}
use netplex_support.Base64.{Bytes, b64decode}
use netplex_support.Json.{Value, null, str, Dict, of_dict, get_default, as_dict}
use netplex_support.Json.Write.{write, sort_members, member_texts, write_members}
use netplex_support.Json.Write.Reorder.{sort_members-swap, sort_members-keep}
use netplex_support.Platform.{Platform}
use netplex_support.Signing.{
  TrustStore, canonical_bytes, verify_manifest, with_block, with_key, with_entry, with_public_key,
  check_signature, judge, b64decode_value, Entry, entry_for,
}

-- One dict is the other with its members in another order: neighbours of different names swap.
pub data Reordered : Dict → Dict → Type 0 where
  same : {m : Dict} → Reordered m m
  keep : {m n : Dict} (x : String × Value) → Reordered m n → Reordered (x ∷ m) (x ∷ n)
  swap : {m : Dict} (x y : String × Value) → x.0 ≢ y.0 → Reordered (x ∷ y ∷ m) (y ∷ x ∷ m)
  both : {m n o : Dict} → Reordered m n → Reordered n o → Reordered m o

-- The members that are signed, as texts.
abbrev texts : Platform → Dict → List (String × String)
texts p m = member_texts false p.float_text (of_dict (without "signature" m))

abbrev member_text : Platform → String × Value → String × String
member_text p x = (x.0, write false p.float_text x.1)

pub lookup-Reordered :
    (asked : String) (m n : Dict) → Reordered m n → lookup asked m ≡ lookup asked n
lookup-Reordered asked m n same = refl
lookup-Reordered asked m n (keep x r) = elim (Bool-cases (x.0 == asked)) [
  | inl e ↦ rw e refl
  | inr e ↦ rw e (lookup-Reordered asked _ _ r)
]
lookup-Reordered asked m n (swap x y other) = elim (Bool-cases (x.0 == asked)) [
  | inl e ↦ elim (Bool-cases (y.0 == asked)) [
    | inl f ↦ absurd (other ((eq_iff x.0 asked).0 e ∙ sym ((eq_iff y.0 asked).0 f)))
    | inr f ↦ rw (e, f) refl
  ]
  | inr e ↦ elim (Bool-cases (y.0 == asked)) [ inl f ↦ rw (e, f) refl | inr f ↦ rw (e, f) refl ]
]
lookup-Reordered asked m n (both r s) = lookup-Reordered asked m _ r ∙ lookup-Reordered asked _ n s

sorted-Reordered :
    (p : Platform) (m n : Dict)
    → Reordered m n
    → sort_members (texts p m) ≡ sort_members (texts p n)
unfolding member_texts
sorted-Reordered p m n same = refl
sorted-Reordered p m n (keep {m = a} {n = b} x r) = elim (Bool-cases (x.0 == "signature")) [
  | inl e ↦ rw e (sorted-Reordered p a b r)
  | inr e ↦
      rw e (sort_members-keep (member_text p x) (texts p a) (texts p b) (sorted-Reordered p a b r))
]
sorted-Reordered p m n (swap {m = a} x y other) = elim (Bool-cases (x.0 == "signature")) [
  | inl e ↦ elim (Bool-cases (y.0 == "signature")) [
    | inl f ↦ rw (e, f) refl
    | inr f ↦ rw (e, f) refl
  ]
  | inr e ↦ elim (Bool-cases (y.0 == "signature")) [
    | inl f ↦ rw (e, f) refl
    | inr f ↦ rw (e, f) (sort_members-swap (member_text p x) (member_text p y) (texts p a) other)
  ]
]
sorted-Reordered p m n (both {n = a} r s) = sorted-Reordered p m a r ∙ sorted-Reordered p a n s

canonical_bytes-Reordered :
    (p : Platform) (m n : Dict) → Reordered m n → canonical_bytes p m ≡ canonical_bytes p n
unfolding canonical_bytes write_members
canonical_bytes-Reordered p m n r = rw (sorted-Reordered p m n r) refl

-- Manifests of the same bytes are treated alike.
module _ (p : Platform) (m n : Dict) (e : canonical_bytes p m ≡ canonical_bytes p n) where
  by_bytes :
      (sig : Option Value) (sig_bytes : Option Bytes) (key : Bytes) (kid : String)
      → check_signature p m sig sig_bytes key kid ≡ check_signature p n sig sig_bytes key kid
  unfolding check_signature
  by_bytes sig none key kid = refl
  by_bytes sig (some b) key kid = ap (λ bytes. judge (p.verify key bytes b) kid) e

  by_public_key :
      (sig : Option Value) (kid : String) (key : Option Bytes)
      → with_public_key p m sig kid key ≡ with_public_key p n sig kid key
  unfolding with_public_key
  by_public_key sig kid none = refl
  by_public_key sig kid (some key) = by_bytes sig (b64decode_value sig) key kid

  by_entry :
      (sigblock : Dict) (kid : String) (entry : Entry)
      → with_entry p m sigblock kid entry ≡ with_entry p n sigblock kid entry
  unfolding with_entry
  by_entry sigblock kid entry =
      rw (by_public_key (lookup "sig" sigblock) kid (b64decode entry.public_key)) refl

  by_key :
      (sigblock : Dict) (entry : Option (Option (String × Entry)))
      → with_key p m sigblock entry ≡ with_key p n sigblock entry
  unfolding with_key
  by_key sigblock none = refl
  by_key sigblock (some none) = refl
  by_key sigblock (some (some (kid, entry))) = by_entry sigblock kid entry

  by_block :
      (trust : TrustStore) (block : Option Dict)
      → with_block p trust m block ≡ with_block p trust n block
  unfolding with_block
  by_block trust none = refl
  by_block trust (some sigblock) =
      rw (by_key sigblock (entry_for trust (get_default sigblock "key_id" (str "")))) refl

-- verify_manifest gives the same answer for a manifest with its members in another order, at the top
-- level: members of different names may change places, as they do where JSON texts are written anew.
pub verify_manifest-Reordered :
    (p : Platform) (m n : Dict) (trust : TrustStore)
    → Reordered m n
    → verify_manifest p m trust ≡ verify_manifest p n trust
unfolding verify_manifest
verify_manifest-Reordered p m n trust r =
    rw
      (by_block p m n (canonical_bytes-Reordered p m n r) trust
        (as_dict (get_default m "signature" null)))
      (rw (lookup-Reordered "signature" m n r) refl)
