-- ===== src/Minting/Hidden.antt =====
-- A scan for leaked tokens does not see the tokens that mint_license.py writes: their member
-- `entitlements` is a dict that stands in front of the signature.
use Prim.Native.String
use mathlib.Core.List
use text.Mathlib.TextLemmas.{append_assoc}
use netplex_support.Prelude.{
  ℕ, ◌≤◌, String, Bool, true, false, some, List, [], ◌∷◌, ◌++◌, ◌≡◌, ◌≢◌, refl, sym, ap, ◌∙◌, All,
  length,
}
use netplex_support.Prelude.Int.{decimal_ℤ}
use netplex_support.Prelude.Text.{lower, all_chars}
use netplex_support.Prelude.Text.Utf8.{utf8}
use netplex_support.Prelude.Text.Utf8.Append.{utf8-append, utf8-All}
use netplex_support.Json.{Value, null, bool, int, float, str, arr, obj, Dict}
use netplex_support.Json.Write.{quoted}
use netplex_support.Json.Dump.{dump, compact}
use netplex_support.Json.Dump.Brackets.{each_with}
use netplex_support.Base64.{Bytes, b64encode}
use netplex_support.Platform.{Platform}
use netplex_support.Cryptography.{Cryptography}
use netplex_support.Signing.{key_id_for}
use netplex_support.Tool.{done}
use netplex_support.Attribution.Pattern.{no_brace, signed_blob, find_all}
use netplex_support.Attribution.{Ledger}
use netplex_support.Attribution.Pattern.Shape.{is_plain, high_plain}
use netplex_support.Attribution.Pattern.Plain.{
  quoted_plain, both_plain, each_with_plain, decimal_plain, sig_plain,
}
use netplex_support.Attribution.Scan.{File, read_limit, scan}
use netplex_support.Attribution.Scan.Verdicts.{scan-unseen}
use netplex_support.Attribution.Pattern.Nested.{other, colon, end_of, find_all-hidden, ends_in_s}
use netplex_support.Minting.{
  Options, token_text, or_text, license_id_of, issued_at, expires_at, read_entitlements, signed,
  mint,
}
use netplex_support.Minting.Policy.{mint-done, caps_complete}
use netplex_support.Minting.Text.{
  member, text_member, expiry_text, floating_texts, rest_texts, block_text, full, caps_text, cut,
  first_part, third_part, token_cut,
}

infixr 66 ◌⧺◌
abbrev ◌⧺◌ : String → String → String
s ⧺ t = String.◌++◌ s t

-- The bytes, cut at the braces.
utf8-cut :
    (w v u t : String)
    → utf8 (cut w v u t)
      ≡ b'{' ∷ utf8 w
        ++ b'{' ∷ (utf8 v ++ b'}' ∷ (utf8 u ++ b'{' ∷ (utf8 t ++ b'}' ∷ b'}' ∷ utf8 "\n")))
unfolding utf8
utf8-cut w v u t = simp (utf8-append)

first_ends :
    (m : String) → end_of (other 0) (utf8 (m ⧺ "," ⧺ "\"entitlements\"" ⧺ ":")) ≢ colon b'e'
unfolding utf8
first_ends m e =
    let bytes =
      utf8-append m ",\"entitlements\":"
      ∙ sym (List.append_assoc (utf8 m) (utf8 ",\"") (b'e' ∷ utf8 "ntitlements\":")) in
    ends_in_s (utf8 m ++ utf8 ",\"") (ap (end_of (other 0)) (sym bytes) ∙ e)

-- The texts that a token is made of hold no brace.
pub record IsPlain (p : Platform) (o : Options) : Type 0 where
  pub tier : is_plain (lower o.tier) ≡ true
  pub buyer_id : is_plain o.buyer_id ≡ true
  pub customer_ref : is_plain (or_text o.customer_ref o.buyer_id) ≡ true
  pub license_id : is_plain (license_id_of p o) ≡ true
  pub machine : is_plain o.machine ≡ true

abbrev IsLabel : String → Type 0
IsLabel key = is_plain (quoted false key ⧺ ":") ≡ true

text_member_plain :
    (key value : String)
    → IsLabel key
    → is_plain value ≡ true
    → is_plain (text_member key value) ≡ true
text_member_plain key value h k =
    rw (← append_assoc (quoted false key) ":" (quoted false value))
      (both_plain (quoted false key ⧺ ":") (quoted false value) h (quoted_plain false value k))

member_plain :
    (key value : String) → IsLabel key → is_plain value ≡ true → is_plain (member key value) ≡ true
member_plain key value h k =
    rw (← append_assoc (quoted false key) ":" value) (both_plain (quoted false key ⧺ ":") value h k)

-- What the members begin with.
labels :
    IsLabel "buyer_id"
    × IsLabel "customer_ref"
    × IsLabel "license_id"
    × IsLabel "fingerprint"
    × IsLabel "issued_at"
    × IsLabel "expires_at"
    × IsLabel "tier"
    × IsLabel "key_id"
    × IsLabel "sig"
unfolding all_chars quoted
labels = (refl, refl, refl, refl, refl, refl, refl, refl, refl)

pieces :
    (is_plain "," ≡ true)
    × (is_plain (text_member "alg" "ed25519") ≡ true)
    × (is_plain (",\"entitlements\":") ≡ true)
    × (is_plain ("\"signature\":") ≡ true)
    × (is_plain "\n" ≡ true)
unfolding all_chars quoted
pieces = (refl, refl, refl, refl, refl)

expiry_plain : (v : Value) → is_plain (expiry_text v) ≡ true
unfolding all_chars
expiry_plain null = refl
expiry_plain (bool b) = refl
expiry_plain (int n) = decimal_plain n
expiry_plain (float s) = refl
expiry_plain (str s) = refl
expiry_plain (arr xs) = refl
expiry_plain (obj ms) = refl

floating_plain : (b : Bool) → All (λ s. is_plain s ≡ true) (floating_texts b)
unfolding all_chars quoted
floating_plain true = (refl, tt)
floating_plain false = tt

rest_plain :
    (p : Platform) (o : Options) (time : ℕ)
    → IsPlain p o
    → All (λ s. is_plain s ≡ true) (rest_texts o time (license_id_of p o))
rest_plain p o time h =
    let (buyer, customer, license, machine, issued, expires, tier, key_id, sig) = labels in
    let customer_text = or_text o.customer_ref o.buyer_id in
    let issued_text = decimal_ℤ (issued_at o time) in
    let expires_text = expiry_text (expires_at o time) in
    (
      text_member_plain "buyer_id" o.buyer_id buyer h.buyer_id,
      (
        text_member_plain "customer_ref" customer_text customer h.customer_ref,
        (
          text_member_plain "license_id" (license_id_of p o) license h.license_id,
          (
            text_member_plain "fingerprint" o.machine machine h.machine,
            (
              member_plain "issued_at" issued_text issued (decimal_plain (issued_at o time)),
              (
                member_plain "expires_at" expires_text expires (expiry_plain (expires_at o time)),
                floating_plain o.allow_floating,
              ),
            ),
          ),
        ),
      ),
    )

comma_plain : (s t : String) → is_plain s ≡ true → is_plain t ≡ true → is_plain (s ⧺ "," ⧺ t) ≡ true
comma_plain s t h k = both_plain s ("," ⧺ t) h (both_plain "," t (pieces.0) k)

block_plain :
    (kid : String) (sig : Bytes)
    → is_plain kid ≡ true
    → is_plain (block_text kid (b64encode sig)) ≡ true
block_plain kid sig h =
    let (buyer, customer, license, machine, issued, expires, tier, key_id, sig_label) = labels in
    comma_plain (text_member "alg" "ed25519")
      (text_member "key_id" kid ⧺ "," ⧺ text_member "sig" (b64encode sig)) (pieces.1)
      (comma_plain (text_member "key_id" kid) (text_member "sig" (b64encode sig))
        (text_member_plain "key_id" kid key_id h)
        (text_member_plain "sig" (b64encode sig) sig_label (sig_plain sig)))

module _ (p : Platform) (o : Options) (time : ℕ) (caps : Value) (kid : String) (sig : Bytes)
    (h : IsPlain p o) where
  first_plain : is_plain (first_part p o time caps kid sig) ≡ true
  first_plain =
      both_plain (text_member "tier" (lower o.tier)) ",\"entitlements\":"
        (text_member_plain "tier" (lower o.tier) (labels.6) h.tier) (pieces.2)

  third_plain : is_plain (third_part p o time caps kid sig) ≡ true
  third_plain =
      let rest = rest_texts o time (license_id_of p o) in
      both_plain "," (each_with "," rest ⧺ "\"signature\":") (pieces.0) (
        both_plain (each_with "," rest) "\"signature\":"
          (each_with_plain "," rest (pieces.0) (rest_plain p o time h)) (pieces.3))

  full_hidden :
      (inner : String)
      → caps_text p caps ≡ "{" ⧺ inner ⧺ "}"
      → is_plain inner ≡ true
      → is_plain kid ≡ true
      → find_all signed_blob (utf8 (token_text p (full p o time caps kid sig) ⧺ "\n")) ≡ []
  full_hidden inner e plain plain_id =
      let w = first_part p o time caps kid sig in
      let u = third_part p o time caps kid sig in
      let t = block_text kid (b64encode sig) in
      let bytes = utf8-All no_brace high_plain in
      ap (λ s. find_all signed_blob (utf8 s)) (token_cut p o time caps kid sig inner e)
      ∙ ap (find_all signed_blob) (utf8-cut w inner u t)
      ∙ find_all-hidden (utf8 w) (utf8 inner) (utf8 u) (utf8 t) (utf8 "\n") (bytes w first_plain)
          (bytes inner plain) (bytes u third_plain) (bytes t (block_plain kid sig plain_id))
          (bytes "\n" (pieces.4)) (first_ends (text_member "tier" (lower o.tier)))

done-eq : (v w : Value) → done v ≡ done w → v ≡ w
done-eq v w h = cc

-- A scan does not see a token that mint_license.py wrote: where the texts of the token, the ids of
-- keys and the inside of the text of its caps hold no brace, the pattern of `_scan` has no match in
-- the file of that token: a file of at most 2,000,000 bytes changes no scan.
pub mint-hidden :
    (p : Platform) (c : Cryptography) (o : Options) (time : ℕ) (token : Dict) (caps : Value)
    (inner path : String) (trust : List String) (ledger : Ledger) (fs gs : List File)
    → let file = utf8 (token_text p token ⧺ "\n") in
      mint p c o time ≡ done token
      → read_entitlements p o.entitlements ≡ done caps
      → dump compact p.float_text 1 caps ≡ "{" ⧺ inner ⧺ "}"
      → is_plain inner ≡ true
      → IsPlain p o
      → ((key : Bytes) → is_plain (key_id_for p key) ≡ true)
      → length file ≤ read_limit
      → scan p c trust ledger (fs ++ (path, some file) ∷ gs) ≡ scan p c trust ledger (fs ++ gs)
unfolding signed
mint-hidden p c o time token caps inner path trust ledger fs gs minted has e plain h plain_ids
      short =
    let m = (mint-done p c o time token).0 minted in
    let same : m.entitlements ≡ caps =
      done-eq _ _ (sym (caps_complete p o.entitlements m.entitlements m.has_caps) ∙ has) in
    let sig = c.sign m.seed _ in
    let none_of : find_all signed_blob (utf8 (token_text p token ⧺ "\n")) ≡ [] =
      ap (λ d. find_all signed_blob (utf8 (token_text p d ⧺ "\n"))) (m.token_eq)
      ∙ full_hidden p o time m.entitlements (key_id_for p m.key) sig h inner
          (ap (λ v. dump compact p.float_text 1 v) same ∙ e) plain (plain_ids m.key) in
    scan-unseen p c trust ledger fs gs path (utf8 (token_text p token ⧺ "\n")) short none_of
