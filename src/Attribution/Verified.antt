-- ===== src/Attribution/Verified.antt =====
-- What `_verify` and `_attribute` say of a stamp that a key of the list has signed.
use netplex_support.Prelude.{
  String, Bool, true, false, none, some, List, [], ◌∷◌, ◌≡◌, inl, inr, refl, sym, ap, ◌∙◌, any,
  Bool-cases, Option-cases, eq_iff, ◌==◌, if◌then◌else◌,
}
use netplex_support.Prelude.Options.{◌>>=◌}
use netplex_support.Prelude.Text.Utf8.{utf8}
use netplex_support.Prelude.Text.Utf8.Decode.{decode-utf8}
use netplex_support.Json.{Value, null, obj, Dict, of_dict, to_dict-of_dict}
use netplex_support.Base64.{b64decode}
use netplex_support.Platform.{Platform}
use netplex_support.Cryptography.{Cryptography}
use netplex_support.Signing.{accepted, b64decode_value, is_text}
use netplex_support.Attribution.{
  Ledger, passes, id_of_key, first_key, verify, with_bytes, get, stamp_type, signature_of, find_row,
  ledger_customer, in_ledger, stamp_report, attribute,
}
use netplex_support.Attribution.Scan.{attribute_blob}

abbrev pub holds : String → List String → Bool
holds x = any (λ t. t == x)

-- A key of the list that passes is found, or one before it.
pub first_key-some :
    (p : Platform) (c : Cryptography) (claims : Dict) (sig : Value) (k : String) (ks : List String)
    → passes p c claims sig k ≡ true
    → holds k ks ≡ true
    → (kid : String) × (first_key p c claims sig ks ≡ some kid)
unfolding first_key
first_key-some p c claims sig k [] h m = cc
first_key-some p c claims sig k (j ∷ ks) h m = elim (Bool-cases (passes p c claims sig j)) [
  | inl e ↦ (id_of_key p j, rw e)
  | inr e ↦ elim (Bool-cases (j == k)) [
    | inl q ↦
        let same : j ≡ k = (eq_iff j k).0 q in
        let clash : false ≡ true = sym e ∙ ap (passes p c claims sig) same ∙ h in cc
    | inr q ↦
        let (kid, found) = first_key-some p c claims sig k ks h (rw q at m) in (kid, rw (e, found))
  ]
]

pub passes_eq :
    (p : Platform) (c : Cryptography) (claims : Dict) (sig : Value) (k : String)
    → passes p c claims sig k ≡ with_bytes p c claims (b64decode k) (b64decode_value (some sig))
unfolding passes
passes_eq p c claims sig k = refl

pub empty_row : (p : Platform) (v : Value) → find_row p v [] ≡ none
unfolding find_row
empty_row p v = refl

-- Where the ledger has no row for an id, it has no customer for it.
pub ledger_lem :
    (p : Platform) (ledger : Ledger) (v : Value)
    → (if in_ledger p ledger v then ledger_customer p ledger v else null)
      ≡ ledger_customer p ledger v
ledger_lem p ledger v = elim (Option-cases (find_row p v ledger)) [
  | inl e ↦ rw e
  | inr (r, e) ↦ rw e
]

pub verify-accepted :
    (p : Platform) (c : Cryptography) (claims : Dict) (sig : Value) (keys : List String)
    (kid : String)
    → c.available ≡ true
    → signature_of p claims ≡ some sig
    → first_key p c claims sig keys ≡ some kid
    → verify p c claims keys ≡ accepted kid
unfolding verify
verify-accepted p c claims sig keys kid here s found = rw (here, s, found)

pub attribute-stamp :
    (p : Platform) (c : Cryptography) (trust : List String) (ledger : Ledger) (claims : Dict)
    (text : String)
    → p.loads text ≡ some (obj (of_dict claims))
    → is_text (get claims "type") stamp_type ≡ true
    → attribute p c trust ledger text ≡ stamp_report p c trust ledger claims
unfolding attribute
attribute-stamp p c trust ledger claims text reads stamped =
    rw (reads, to_dict-of_dict claims, stamped)

pub attribute_blob-utf8 :
    (p : Platform) (c : Cryptography) (trust : List String) (ledger : Ledger) (text : String)
    → attribute_blob p c trust ledger (utf8 text) ≡ attribute p c trust ledger text
unfolding attribute_blob
attribute_blob-utf8 p c trust ledger text =
    ap (λ t. t >>= attribute p c trust ledger) (decode-utf8 text)
