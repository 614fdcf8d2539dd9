-- ===== src/Offline/Examples.antt =====
-- A toy key that is made, a release that is signed with it and uploaded, and an integrity manifest.
use netplex_support.Prelude.{
  String, Option, none, some, [], ◌∷◌, ◌++◌, ◌≡◌, refl, arith, if◌then◌else◌, ◌==◌,
}
use netplex_support.Prelude.Text.{strip}
use netplex_support.Http.{ok}
use netplex_support.Json.{str, obj, Dict, of_dict}
use netplex_support.Base64.{Bytes, b64encode}
use netplex_support.Platform.{Platform}
use netplex_support.Platform.Toy.{toy, toy_reading, toy-HasEd25519}
use netplex_support.Cryptography.Toy.{toy_keys, toy_seed}
use netplex_support.Config.{Settings, settings}
use netplex_support.Auth.{Request, require_admin}
use netplex_support.Signing.{signature_block, canonical_bytes, key_id_for}
use netplex_support.Releases.{about, upload_manifest}
use netplex_support.Tool.{done, raises}
use netplex_support.Offline.{Keypair, gen_keypair, sign_release, sign_integrity}
use netplex_support.Offline.Uploaded.{row_of, sign_release-uploads}

abbrev seed : Bytes
seed = 1 ∷ 2 ∷ 3 ∷ []

abbrev keypair : Keypair
keypair = record {
  private_file = "AQID\n";
  public_file = "Aw==\n";
  key_id = "0011223344556677";
  entry = record { public_key = "Aw=="; status = str "active" };
}

abbrev manifest_file : String
manifest_file = "{\"version\": \"1.2\", \"channel\": \"beta\"}"

abbrev manifest : Dict
manifest = ("version", str "1.2") ∷ ("channel", str "beta") ∷ []

abbrev reader : Platform
reader = toy_reading manifest_file manifest

abbrev signed : Dict
signed =
    manifest
    ++ (
      "signature",
      signature_block "0011223344556677" (toy.sign seed (canonical_bytes toy manifest)),
    )
      ∷ []

abbrev configured : Settings
configured = record settings { signing_public_key = "Aw=="; admin_api_tokens = "s3cret" }

abbrev admin : Request
admin = record { client_host = none; authorization = some "Bearer s3cret"; x_forwarded_for = none }

keypair_test : gen_keypair reader seed ≡ done keypair
unfolding gen_keypair
keypair_test = refl

release_test : sign_release reader keypair.private_file manifest_file ≡ done signed
unfolding sign_release b64encode canonical_bytes
release_test = refl

is_admin : require_admin configured admin ≡ ok tt
unfolding require_admin
is_admin = refl

public_test : configured.signing_public_key ≡ strip keypair.public_file
unfolding strip
public_test = refl

blank_test : strip configured.signing_trust_store_json ≡ ""
unfolding strip
blank_test = refl

sign_release-uploads_example : upload_manifest reader configured admin 1 7 signed [] ≡ (
  ok (about (row_of reader 1 7 "beta" "0011223344556677" signed)),
  row_of reader 1 7 "beta" "0011223344556677" signed ∷ [],
)
sign_release-uploads_example =
    sign_release-uploads reader configured admin 1 7 seed (3 ∷ []) keypair manifest_file "beta"
      signed [] (toy-HasEd25519 manifest_file manifest)
      (omega arith, (omega arith, (omega arith, tt))) refl (omega arith, tt) (omega arith)
      keypair_test release_test is_admin blank_test public_test refl refl

-- A folder in which one module is built, and has its source beside it.
abbrev folder : String → Option Bytes
folder name =
    if name == "license_verify.py"
    then some []
    else if name == "entitlements.so"
    then some []
    else if name == "entitlements.py"
    then some (1 ∷ [])
    else if name == "integrity.py"
    then some []
    else none

abbrev digests : Dict
digests =
    ("license_verify.py", str (toy.sha256_hexdigest []))
    ∷ ("entitlements.so", str (toy.sha256_hexdigest []))
    ∷ ("integrity.py", str (toy.sha256_hexdigest []))
    ∷ []

abbrev unsigned : Dict
unsigned = ("type", str "integrity") ∷ ("files", obj (of_dict digests)) ∷ []

-- A module that has no file makes the tool raise.
integrity_tests :
    (sign_integrity toy toy_keys folder "AAAAAAAAAAAAAAAAAAAAAAAAAAAAAAAAAAAAAAAAAAA=\n"
      ≡ done (
          unsigned
          ++ (
            "signature",
            signature_block "0011223344556677"
                (toy_keys.sign toy_seed (canonical_bytes toy unsigned)),
          )
            ∷ []))
    × (sign_integrity toy toy_keys (λ name. none) "AAAA" ≡ raises)
unfolding sign_integrity key_id_for
integrity_tests = (refl, refl)
