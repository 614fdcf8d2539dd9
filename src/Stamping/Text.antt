-- ===== src/Stamping/Text.antt =====
-- The text of a stamp: one match of the pattern that attribute_leak.py searches for.
use Prim.Native.String
use text.Mathlib.TextLemmas.{append_assoc}
use netplex_support.Prelude.{
  String, Bool, true, false, List, [], ◌∷◌, ◌++◌, ◌≡◌, inl, inr, refl, ◌∙◌, Bool-cases, without,
  All, any, ◌==◌,
}
use netplex_support.Prelude.Text.{all_chars}
use netplex_support.Prelude.Text.Utf8.{utf8}
use netplex_support.Json.{Dict}
use netplex_support.Json.Write.{quoted}
use netplex_support.Json.Dump.{dump, indented, bracketed}
use netplex_support.Json.Dump.Brackets.{each_with, between, bracketed-last}
use netplex_support.Base64.{Bytes, b64encode}
use netplex_support.Platform.{Platform}
use netplex_support.Signing.{signature_block}
use netplex_support.Attribution.Pattern.{signed_blob, find_all}
use netplex_support.Attribution.Pattern.Shape.{is_plain, shape, find_all-shape}
use netplex_support.Attribution.Pattern.Plain.{
  quoted_plain, fixed_from, both_plain, each_with_plain, sig_plain,
}
use netplex_support.Stamping.{Download, id_of, stamp, site_text}

infixr 66 ◌⧺◌
abbrev ◌⧺◌ : String → String → String
s ⧺ t = String.◌++◌ s t

-- The texts that a stamp is made of hold no brace.
pub record IsPlain (d : Download) (hex issued : String) : Type 0 where
  pub id : is_plain (id_of d hex) ≡ true
  pub customer : is_plain d.customer ≡ true
  pub tier : is_plain d.tier ≡ true
  pub package_name : is_plain d.package_name ≡ true
  pub version : is_plain d.version ≡ true
  pub issued_at : is_plain issued ≡ true

abbrev member : String → String → String
member key value = quoted true key ⧺ ": " ⧺ quoted true value

abbrev customer_text : Bool → String → List String
customer_text true customer = member "customer_ref" customer ∷ []
customer_text false customer = []

-- The members before `signature`, of the stamp and of the signature those behind `alg`.
abbrev member_texts : Download → String → String → List String
member_texts d hex issued =
    member "type" "netplex-download-stamp"
    ∷ member "download_id" (id_of d hex)
    ∷ member "tier" d.tier
    ∷ member "package" d.package_name
    ∷ member "version" d.version
    ∷ member "issued_at" issued
    ∷ customer_text d.embed_customer d.customer

abbrev before : Download → String → String → String
before d hex issued = "\n  " ⧺ each_with (between indented 0) (member_texts d hex issued)

abbrev rest_of_block : String → String → String
rest_of_block kid sig =
    between indented 1 ⧺ member "key_id" kid ⧺ between indented 1 ⧺ member "sig" sig

abbrev after : String → String → String
after kid sig = rest_of_block kid sig ⧺ "\n  "

abbrev pub signed : Download → String → String → String → Bytes → Dict
signed d hex issued kid sig =
    without "signature" (stamp d hex issued) ++ ("signature", signature_block kid sig) ∷ []

-- The member `signature`, in its parts.
abbrev signature_text : String → String → String
signature_text kid sig =
    "\"signature\""
    ⧺ ": "
    ⧺ "{"
    ⧺ "\n    "
    ⧺ (("\"alg\"" ⧺ ": " ⧺ "\"ed25519\"") ⧺ rest_of_block kid sig)
    ⧺ "\n  "
    ⧺ "}"

site_text-bracketed :
    (p : Platform) (d : Download) (hex issued kid : String) (sig : Bytes)
    → site_text p (signed d hex issued kid sig)
      ≡ bracketed indented 0 "{" "}"
          (member_texts d hex issued ++ signature_text kid (b64encode sig) ∷ [])
unfolding dump
site_text-bracketed p d hex issued kid sig = elim (Bool-cases d.embed_customer) [
  | inl e ↦ rw e
  | inr e ↦ rw e
]

regroup :
    (o nl pre q col ob nl' al ed rest nl'' cb tail : String)
    → o ⧺ nl ⧺ pre ⧺ (q ⧺ col ⧺ ob ⧺ nl' ⧺ ((al ⧺ col ⧺ ed) ⧺ rest) ⧺ nl'' ⧺ cb) ⧺ tail
      ≡ o ⧺ (nl ⧺ pre) ⧺ q ⧺ col ⧺ ob ⧺ nl' ⧺ al ⧺ col ⧺ ed ⧺ (rest ⧺ nl'') ⧺ cb ⧺ tail
regroup o nl pre q col ob nl' al ed rest nl'' cb tail = simp (append_assoc)

site_text-shape :
    (p : Platform) (d : Download) (hex issued kid : String) (sig : Bytes)
    → site_text p (signed d hex issued kid sig)
      ≡ shape (before d hex issued) "\n    " (after kid (b64encode sig))
site_text-shape p d hex issued kid sig =
    site_text-bracketed p d hex issued kid sig
    ∙ bracketed-last indented 0 "{" "}" (signature_text kid (b64encode sig))
        (member_texts d hex issued)
    ∙ regroup "{" "\n  " _ "\"signature\"" ": " "{" "\n    " "\"alg\"" "\"ed25519\"" _ "\n  " "}"
        "\n}"

-- The texts of the program that stand in a stamp.
abbrev fixed_texts : List String
fixed_texts =
    "type"
    ∷ "netplex-download-stamp"
    ∷ "download_id"
    ∷ "tier"
    ∷ "package"
    ∷ "version"
    ∷ "issued_at"
    ∷ "customer_ref"
    ∷ "key_id"
    ∷ "sig"
    ∷ ": "
    ∷ "\n  "
    ∷ "\n    "
    ∷ between indented 0
    ∷ between indented 1
    ∷ ""
    ∷ []

fixed-All : All (λ s. is_plain s ≡ true) fixed_texts
unfolding all_chars
fixed-All = (
  refl,
  (
    refl,
    (
      refl,
      (
        refl,
        (
          refl,
          (
            refl,
            (refl, (refl, (refl, (refl, (refl, (refl, (refl, (refl, (refl, (refl, tt)))))))))),
          ),
        ),
      ),
    ),
  ),
)

fixed_plain : (s : String) → any (λ t. t == s) fixed_texts ≡ true → is_plain s ≡ true
fixed_plain s h = fixed_from fixed_texts s fixed-All h

member_plain :
    (key value : String)
    → is_plain key ≡ true
    → is_plain value ≡ true
    → is_plain (member key value) ≡ true
member_plain key value h k =
    both_plain (quoted true key) (": " ⧺ quoted true value) (quoted_plain true key h)
      (both_plain ": " (quoted true value) (fixed_plain ": " refl) (quoted_plain true value k))

customer_plain :
    (embed : Bool) (customer : String)
    → is_plain customer ≡ true
    → All (λ s. is_plain s ≡ true) (customer_text embed customer)
customer_plain true customer h =
    (member_plain "customer_ref" _ (fixed_plain "customer_ref" refl) h, tt)
customer_plain false customer h = tt

before_plain :
    (d : Download) (hex issued : String)
    → IsPlain d hex issued
    → is_plain (before d hex issued) ≡ true
before_plain d hex issued h = both_plain "\n  " _ (fixed_plain "\n  " refl) (
    each_with_plain (between indented 0) (member_texts d hex issued)
      (fixed_plain (between indented 0) refl)
      (
        member_plain "type" "netplex-download-stamp" (fixed_plain "type" refl)
            (fixed_plain "netplex-download-stamp" refl),
        (
          member_plain "download_id" _ (fixed_plain "download_id" refl) (h.id),
          (
            member_plain "tier" _ (fixed_plain "tier" refl) (h.tier),
            (
              member_plain "package" _ (fixed_plain "package" refl) (h.package_name),
              (
                member_plain "version" _ (fixed_plain "version" refl) (h.version),
                (
                  member_plain "issued_at" _ (fixed_plain "issued_at" refl) (h.issued_at),
                  customer_plain d.embed_customer d.customer (h.customer),
                ),
              ),
            ),
          ),
        ),
      ))

after_plain :
    (kid sig : String) → is_plain kid ≡ true → is_plain sig ≡ true → is_plain (after kid sig) ≡ true
after_plain kid sig h k =
    both_plain _ "\n  "
      (both_plain (between indented 1) _ (fixed_plain (between indented 1) refl) (
        both_plain _ _ (member_plain "key_id" _ (fixed_plain "key_id" refl) h) (
          both_plain (between indented 1) _ (fixed_plain (between indented 1) refl)
            (member_plain "sig" _ (fixed_plain "sig" refl) k))))
      (fixed_plain "\n  " refl)

-- The text of a stamp without braces is one match, the whole text.
pub find_all-site_text :
    (p : Platform) (d : Download) (hex issued kid : String) (sig : Bytes)
    → IsPlain d hex issued
    → is_plain kid ≡ true
    → let blob = utf8 (site_text p (signed d hex issued kid sig)) in
      find_all signed_blob blob ≡ blob ∷ []
find_all-site_text p d hex issued kid sig h k = rw (site_text-shape p d hex issued kid sig) (
    find_all-shape (before d hex issued) "\n    " (after kid (b64encode sig))
      (before_plain d hex issued h) (fixed_plain "\n    " refl)
      (after_plain kid (b64encode sig) k (sig_plain sig)))
