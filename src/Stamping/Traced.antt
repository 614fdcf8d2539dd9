-- ===== src/Stamping/Traced.antt =====
-- A stamp that survives at one site names the customer.
use mathlib.Core.Path.{subst}
use text.Mathlib.TextLemmas.{cons-append}
use netplex_support.Prelude.{
  ◌≤◌, String, true, ◌&&◌, not, Option, none, some, List, [], ◌∷◌, ◌++◌, without, ◌≡◌, inl, inr,
  refl, sym, ap, ◌∙◌, any-append, Bool-cases, arith, eq_iff, ◌==◌, length, if◌then◌else◌,
}
use netplex_support.Prelude.Text.{non_empty}
use netplex_support.Prelude.Text.Utf8.{utf8}
use netplex_support.Json.{str, obj, Dict, of_dict, is_hashable}
use netplex_support.Base64.{Bytes, b64decode, b64encode}
use netplex_support.Base64.Laws.{b64decode-b64encode}
use netplex_support.Platform.{Platform, truth}
use netplex_support.Cryptography.{Cryptography, IsEd25519}
use netplex_support.Signing.{canonical_bytes, key_id_for, accepted}
use netplex_support.Minting.{or_text}
use netplex_support.Tool.{done, done-inj}
use netplex_support.Attribution.{
  Ledger, Report, download_stamp, passes, verify, with_bytes, signature_of, ledger_customer,
  in_ledger, stamp_report, attribute, pinned_stamp_trust,
}
use netplex_support.Attribution.Pattern.Shape.{is_plain}
use netplex_support.Attribution.Scan.{File, Entry, read_limit, key_of, same_key, scan}
use netplex_support.Attribution.Scan.Verdicts.{lists, scan-lists}
use netplex_support.Stamping.{Download, Stamped, id_of, stamp, sign, site_text, stamp_artifact}
use netplex_support.Stamping.Text.{IsPlain, signed, find_all-site_text}
use netplex_support.Attribution.Verified.{
  holds, first_key-some, passes_eq, empty_row, ledger_lem, verify-accepted, attribute-stamp,
  attribute_blob-utf8,
}

or_text_given :
    (o : Option String) (t : String) → non_empty t ≡ true → non_empty (or_text o t) ≡ true
or_text_given none t h = h
or_text_given (some s) t h = elim (Bool-cases (non_empty s)) [ inl e ↦ rw e e | inr e ↦ rw e h ]

pub id_given : (d : Download) (hex : String) → non_empty (id_of d hex) ≡ true
id_given d hex = or_text_given d.download_id _ (ap non_empty (cons-append "d" "l_" hex))

module _ (p : Platform) (c : Cryptography) (d : Download) (hex issued : String) (key : Bytes) where
  abbrev out : Dict
  out = without "signature" (stamp d hex issued)

  abbrev sig : Bytes
  sig = c.sign d.key_seed (canonical_bytes p out)

  abbrev full : Dict
  full = signed d hex issued (key_id_for p key) sig

  signature_lem : signature_of p full ≡ some (str (b64encode sig))
  unfolding truth
  signature_lem = elim (Bool-cases d.embed_customer) [ inl e ↦ rw e | inr e ↦ rw e ]

  canonical_lem : canonical_bytes p full ≡ canonical_bytes p out
  unfolding canonical_bytes
  canonical_lem = elim (Bool-cases d.embed_customer) [ inl e ↦ rw e | inr e ↦ rw e ]

  passes_lem :
      (k : String)
      → IsEd25519 c
      → c.public_key d.key_seed ≡ some key
      → b64decode k ≡ some key
      → passes p c full (str (b64encode sig)) k ≡ true
  passes_lem k laws has same =
      let read = b64decode-b64encode sig (laws.sign_bytes d.key_seed (canonical_bytes p out)) in
      passes_eq p c full (str (b64encode sig)) k
      ∙ ap (λ o. with_bytes p c full o (b64decode (b64encode sig))) same
      ∙ ap (with_bytes p c full (some key)) read
      ∙ ap (c.verifies key sig) canonical_lem
      ∙ laws.verifies_sign d.key_seed key (canonical_bytes p out) has

  -- What is reported of the stamp, in the name of a key id.
  abbrev pub traced_report : Ledger → String → Report
  traced_report ledger kid = download_stamp (record {
    ok = true;
    signature_key_id = some kid;
    reason = none;
    customer_ref =
        if d.embed_customer then str d.customer else ledger_customer p ledger (str (id_of d hex));
    download_id = str (id_of d hex);
    tier = str d.tier;
    package_name = str d.package_name;
    version = str d.version;
    issued_at = str issued;
    resolved_via_ledger = not d.embed_customer && in_ledger p ledger (str (id_of d hex));
  })

  stamp_report-traced :
      (trust : List String) (ledger : Ledger) (kid : String)
      → non_empty d.customer ≡ true
      → verify p c full (trust ++ pinned_stamp_trust) ≡ accepted kid
      → stamp_report p c trust ledger full ≡ some (traced_report ledger kid)
  unfolding stamp_report
  stamp_report-traced trust [] kid named v = elim (Bool-cases d.embed_customer) [
    | inl e ↦ rw (v, e, named) (rw (id_given d hex, named))
    | inr e ↦ rw (v, e, id_given d hex, empty_row p (str (id_of d hex)))
  ]
  stamp_report-traced trust (r ∷ rs) kid named v = elim (Bool-cases d.embed_customer) [
    | inl e ↦ rw (v, e, named) (rw (id_given d hex, named))
    | inr e ↦ rw (v, e, id_given d hex, ledger_lem p (r ∷ rs) (str (id_of d hex)))
  ]

  verify-traced :
      (trust : List String) (k : String)
      → IsEd25519 c
      → c.available ≡ true
      → c.public_key d.key_seed ≡ some key
      → b64decode k ≡ some key
      → holds k trust ≡ true
      → (kid : String) × (verify p c full (trust ++ pinned_stamp_trust) ≡ accepted kid)
  verify-traced trust k laws here has same listed =
      let more : holds k (trust ++ pinned_stamp_trust) ≡ true =
        any-append (λ t. t == k) trust pinned_stamp_trust ∙ rw listed in
      let (kid, found) =
        first_key-some p c full (str (b64encode sig)) k (trust ++ pinned_stamp_trust)
          (passes_lem k laws has same) more in
      (
        kid,
        verify-accepted p c full (str (b64encode sig)) (trust ++ pinned_stamp_trust) kid here
            signature_lem found,
      )

  attribute-traced :
      (trust : List String) (ledger : Ledger) (kid : String)
      → non_empty d.customer ≡ true
      → p.loads (site_text p full) ≡ some (obj (of_dict full))
      → verify p c full (trust ++ pinned_stamp_trust) ≡ accepted kid
      → attribute p c trust ledger (site_text p full) ≡ some (traced_report ledger kid)
  attribute-traced trust ledger kid named reads v =
      attribute-stamp p c trust ledger full (site_text p full) reads refl
      ∙ stamp_report-traced trust ledger kid named v

  key-traced :
      (ledger : Ledger) (kid : String)
      → (is_hashable (key_of p (traced_report ledger kid)).ident ≡ true)
        × (same_key p (key_of p (traced_report ledger kid)) (key_of p (traced_report ledger kid))
            ≡ true)
  unfolding key_of same_key
  key-traced ledger kid =
      rw (id_given d hex) (refl, ground (arith, eq_iff (id_of d hex) (id_of d hex), eq_iff kid kid))

  stamp_of :
      (r : Stamped)
      → c.public_key d.key_seed ≡ some key
      → stamp_artifact p c true d hex issued ≡ done r
      → r.stamp ≡ full
  unfolding stamp_artifact sign
  stamp_of r has made = sym (ap (λ s. s.stamp) (done-inj _ r (rw has at made)))

-- A stamp, as a dict, of which the text at one site is traced.
IsTraced :
    (p : Platform) (c : Cryptography) (d : Download) (hex issued : String) (key : Bytes)
    (trust : List String) (ledger : Ledger) (fs gs : List File) (path : String) (es : List Entry)
    (kid : String)
    → Dict
    → Type 0
IsTraced p c d hex issued key trust ledger fs gs path es kid s =
    let text = site_text p s in
    p.loads text ≡ some (obj (of_dict s))
    → length (utf8 text) ≤ read_limit
    → scan p c trust ledger (fs ++ (path, some (utf8 text)) ∷ gs) ≡ some es
    → (attribute p c trust ledger text ≡ some (traced_report p c d hex issued key ledger kid))
      × (lists p path (key_of p (traced_report p c d hex issued key ledger kid)) es ≡ true)

full-IsTraced :
    (p : Platform) (c : Cryptography) (d : Download) (hex issued : String) (key : Bytes)
    (trust : List String) (ledger : Ledger) (fs gs : List File) (path : String) (es : List Entry)
    (kid : String)
    → non_empty d.customer ≡ true
    → IsPlain d hex issued
    → is_plain (key_id_for p key) ≡ true
    → verify p c (full p c d hex issued key) (trust ++ pinned_stamp_trust) ≡ accepted kid
    → IsTraced p c d hex issued key trust ledger fs gs path es kid (full p c d hex issued key)
unfolding IsTraced
full-IsTraced p c d hex issued key trust ledger fs gs path es kid named plain plain_id v reads short
      scanned =
    let report = traced_report p c d hex issued key ledger kid in
    let text = site_text p (full p c d hex issued key) in
    let a = attribute-traced p c d hex issued key trust ledger kid named reads v in
    let (good, same) = key-traced p c d hex issued key ledger kid in
    let one =
      find_all-site_text p d hex issued (key_id_for p key) (sig p c d hex issued key) plain
        plain_id in
    (
      a,
      scan-lists p c trust ledger fs gs path (utf8 text) report es short one
          (attribute_blob-utf8 p c trust ledger text ∙ a) good same scanned,
    )

-- What `stamp_artifact` writes, attribute_leak.py reads back: where `cryptography` verifies what it
-- signs, json.loads reads the written text as the dict that was written, the customer is not blank,
-- the texts of the stamp hold no brace, and the seed's public key is one of the keys that are given
-- for stamps, `_attribute` reports the text that is written to the sites as signed, with the
-- customer (the one in the stamp, or the one that the ledger has for the download id, if the stamp
-- does not carry the customer), the download id, the tier, the package and the version. And a
-- `_scan` that ends lists that finding, with the file's path, for every tree that holds a file of
-- just that text, of at most 2,000,000 bytes, whatever the other files hold.
pub stamp_artifact-traced :
    (p : Platform) (c : Cryptography) (d : Download) (hex issued : String) (key : Bytes)
    (r : Stamped) (k : String) (trust : List String) (ledger : Ledger) (fs gs : List File)
    (path : String) (es : List Entry)
    → let text = site_text p r.stamp in
      IsEd25519 c
      → c.available ≡ true
      → stamp_artifact p c true d hex issued ≡ done r
      → p.loads text ≡ some (obj (of_dict r.stamp))
      → non_empty d.customer ≡ true
      → IsPlain d hex issued
      → is_plain (key_id_for p key) ≡ true
      → c.public_key d.key_seed ≡ some key
      → b64decode k ≡ some key
      → holds k trust ≡ true
      → length (utf8 text) ≤ read_limit
      → scan p c trust ledger (fs ++ (path, some (utf8 text)) ∷ gs) ≡ some es
      → (kid : String) × (attribute p c trust ledger text
          ≡ some (traced_report p c d hex issued key ledger kid))
        × (lists p path (key_of p (traced_report p c d hex issued key ledger kid)) es ≡ true)
unfolding IsTraced
stamp_artifact-traced p c d hex issued key r k trust ledger fs gs path es laws here made reads named
      plain plain_id has same listed short scanned =
    let made_of = stamp_of p c d hex issued key r has made in
    let (kid, v) = verify-traced p c d hex issued key trust k laws here has same listed in
    let traced =
      full-IsTraced p c d hex issued key trust ledger fs gs path es kid named plain plain_id v in
    let (named_so, listed_so) =
      subst (IsTraced p c d hex issued key trust ledger fs gs path es kid) (sym made_of) traced
        reads short scanned in
    (kid, named_so, listed_so)
