-- ===== src/Minting/Text.antt =====
-- The text of a token that mint_license.py writes, cut at its braces.
use Prim.Native.String
use text.Mathlib.TextLemmas.{append_assoc, nil-append}
use netplex_support.Prelude.{
  ℕ, String, Bool, true, false, List, [], ◌∷◌, ◌++◌, ◌≡◌, inl, inr, ap, ◌∙◌, Bool-cases,
}
use netplex_support.Prelude.Int.{decimal_ℤ}
use netplex_support.Prelude.Text.{lower}
use netplex_support.Json.{Value, int, Dict}
use netplex_support.Json.Write.{quoted}
use netplex_support.Json.Dump.{dump, compact, bracketed}
use netplex_support.Json.Dump.Brackets.{each_with, bracketed-last}
use netplex_support.Base64.{Bytes, b64encode}
use netplex_support.Platform.{Platform}
use netplex_support.Signing.{signature_block}
use netplex_support.Minting.{
  Options, claims, token_text, or_text, license_id_of, issued_at, expires_at,
}

infixr 66 ◌⧺◌
abbrev ◌⧺◌ : String → String → String
s ⧺ t = String.◌++◌ s t

-- One member of the token's text.
abbrev pub member : String → String → String
member key value = quoted false key ⧺ ":" ⧺ value

abbrev pub text_member : String → String → String
text_member key value = member key (quoted false value)

abbrev pub expiry_text : Value → String
expiry_text (int n) = decimal_ℤ n
expiry_text v = "null"

abbrev pub floating_texts : Bool → List String
floating_texts true = member "allow_floating" "true" ∷ []
floating_texts false = []

-- The members between the caps and the signature.
abbrev pub rest_texts : Options → ℕ → String → List String
rest_texts o time license_id =
    text_member "buyer_id" o.buyer_id
    ∷ text_member "customer_ref" (or_text o.customer_ref o.buyer_id)
    ∷ text_member "license_id" license_id
    ∷ text_member "fingerprint" o.machine
    ∷ member "issued_at" (decimal_ℤ (issued_at o time))
    ∷ member "expires_at" (expiry_text (expires_at o time))
    ∷ floating_texts o.allow_floating

abbrev pub block_text : String → String → String
block_text kid sig =
    text_member "alg" "ed25519" ⧺ "," ⧺ text_member "key_id" kid ⧺ "," ⧺ text_member "sig" sig

abbrev signature_text : String → String → String
signature_text kid sig = "\"signature\"" ⧺ ":" ⧺ "{" ⧺ "" ⧺ block_text kid sig ⧺ "" ⧺ "}"

abbrev pub full : Platform → Options → ℕ → Value → String → Bytes → Dict
full p o time caps kid sig = claims p o time caps ++ ("signature", signature_block kid sig) ∷ []

abbrev pub caps_text : Platform → Value → String
caps_text p caps = dump compact p.float_text 1 caps

token_bracketed :
    (p : Platform) (o : Options) (time : ℕ) (caps : Value) (kid : String) (sig : Bytes)
    → token_text p (full p o time caps kid sig)
      ≡ bracketed compact 0 "{" "}" (
          (text_member "tier" (lower o.tier)
            ∷ member "entitlements" (caps_text p caps)
            ∷ rest_texts o time (license_id_of p o))
          ++ signature_text kid (b64encode sig) ∷ [])
unfolding dump claims
token_bracketed p o time caps kid sig = elim (Bool-cases o.allow_floating) [
  | inl e ↦ elim (Bool-cases o.perpetual) [ inl f ↦ rw (e, f) | inr f ↦ rw (e, f) ]
  | inr e ↦ elim (Bool-cases o.perpetual) [ inl f ↦ rw (e, f) | inr f ↦ rw (e, f) ]
]

-- The same text, cut at its braces.
abbrev pub cut : String → String → String → String → String
cut w v u t = "{" ⧺ w ⧺ "{" ⧺ v ⧺ "}" ⧺ u ⧺ "{" ⧺ t ⧺ "}" ⧺ "}" ⧺ "\n"

regroup :
    (ob cb m s q cl inner r sg j nl : String)
    → (ob
          ⧺ ""
          ⧺ (m ⧺ s ⧺ (q ⧺ cl ⧺ ob ⧺ inner ⧺ cb) ⧺ s ⧺ r)
          ⧺ (sg ⧺ cl ⧺ ob ⧺ "" ⧺ j ⧺ "" ⧺ cb)
          ⧺ ""
          ⧺ cb)
        ⧺ nl
      ≡ ob ⧺ (m ⧺ s ⧺ q ⧺ cl) ⧺ ob ⧺ inner ⧺ cb ⧺ (s ⧺ r ⧺ sg ⧺ cl) ⧺ ob ⧺ j ⧺ cb ⧺ cb ⧺ nl
regroup ob cb m s q cl inner r sg j nl = simp (append_assoc, nil-append)

module _ (p : Platform) (o : Options) (time : ℕ) (caps : Value) (kid : String) (sig : Bytes) where
  abbrev pub first_part : String
  first_part = text_member "tier" (lower o.tier) ⧺ "," ⧺ "\"entitlements\"" ⧺ ":"

  abbrev pub third_part : String
  third_part = "," ⧺ each_with "," (rest_texts o time (license_id_of p o)) ⧺ "\"signature\"" ⧺ ":"

  pub token_cut :
      (inner : String)
      → caps_text p caps ≡ "{" ⧺ inner ⧺ "}"
      → token_text p (full p o time caps kid sig) ⧺ "\n"
        ≡ cut first_part inner third_part (block_text kid (b64encode sig))
  unfolding quoted
  token_cut inner e =
      let tier = text_member "tier" (lower o.tier) in
      let rest = rest_texts o time (license_id_of p o) in
      let block = block_text kid (b64encode sig) in
      let text = λ (x : String).
        ("{"
          ⧺ ""
          ⧺ each_with "," (tier ∷ member "entitlements" x ∷ rest)
          ⧺ signature_text kid (b64encode sig)
          ⧺ ""
          ⧺ "}")
        ⧺ "\n" in
      ap (λ s. s ⧺ "\n")
        (token_bracketed p o time caps kid sig
          ∙ bracketed-last compact 0 "{" "}" (signature_text kid (b64encode sig))
              (tier ∷ member "entitlements" (caps_text p caps) ∷ rest))
      ∙ ap text e
      ∙ regroup "{" "}" tier "," "\"entitlements\"" ":" inner (each_with "," rest) "\"signature\""
          block "\n"
