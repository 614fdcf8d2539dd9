-- ===== src/Releases/Examples.antt =====
-- A manifest that is uploaded and served on the toy platform.
use netplex_support.Prelude.{String, true, none, some, [], ◌∷◌, ◌++◌, ◌≡◌, ◌≢◌, ap, ◌==◌, ◌⊎◌, refl}
use netplex_support.Http.{ok}
use netplex_support.Json.{Value, str, Dict, of_dict, null, get_default}
use netplex_support.Base64.{b64encode}
use netplex_support.Json.Write.{write_members, member_texts}
use netplex_support.Platform.{Platform, text_of}
use netplex_support.Platform.Toy.{toy, toy_reading}
use netplex_support.Signing.Reorder.{Reordered, both, swap, keep}
use netplex_support.Config.{Settings, settings}
use netplex_support.Auth.{Request, require_admin}
use netplex_support.Database.Memory.{memory}
use netplex_support.Signing.{verify_manifest, signature_block, canonical_bytes}
use netplex_support.Releases.{
  ReleaseManifest, UploadResult, about, upload_manifest, get_manifest, signing_trust_store,
}
use netplex_support.Releases.Upload.{
  IsUpload, IsServed, upload_manifest-gate, upload_manifest-stores, get_manifest-upload,
}

abbrev manifest : Dict
manifest = ("version", str "1.2") ∷ ("channel", str "beta") ∷ []

abbrev signed : Dict
signed =
    manifest
    ++ (
      "signature",
      signature_block "0011223344556677" (toy.sign (1 ∷ []) (canonical_bytes toy manifest)),
    )
      ∷ []

abbrev configured : Settings
configured = record settings { signing_public_key = "AQ=="; admin_api_tokens = "s3cret" }

abbrev admin : Request
admin = record {
  client_host = some "203.0.113.9";
  authorization = some "Bearer s3cret";
  x_forwarded_for = none;
}

abbrev row : ReleaseManifest
row = record {
  id = 1;
  channel = "beta";
  version = "1.2";
  key_id = "0011223344556677";
  manifest_json = write_members true (member_texts true toy.float_text (of_dict signed));
  uploaded_at = 7;
}

row-IsUpload : IsUpload toy configured admin 1 7 signed row
unfolding require_admin signing_trust_store verify_manifest text_of b64encode
row-IsUpload = record {
  trust = ("0011223344556677", record { public_key = "AQ=="; status = str "active" }) ∷ [];
  is_admin = refl;
  names_channel = refl;
  has_channel = refl;
  has_trust = refl;
  signed = refl;
  made = refl;
}

upload_manifest-gate_example :
    ((r : ReleaseManifest) × IsUpload toy configured admin 1 7 signed r
      × (upload_manifest toy configured admin 1 7 signed [] ≡ (ok (about r), [] ++ r ∷ [])))
    ⊎ ((upload_manifest toy configured admin 1 7 signed []).1 ≡ [])
      × ((r : UploadResult) → (upload_manifest toy configured admin 1 7 signed []).0 ≢ ok r)
upload_manifest-gate_example = upload_manifest-gate toy configured admin 1 7 signed []

upload_manifest-stores_test :
    upload_manifest toy configured admin 1 7 signed [] ≡ (ok (about row), row ∷ [])
upload_manifest-stores_test =
    upload_manifest-stores toy configured admin 1 7 signed [] row row-IsUpload

-- The text that is stored, and the manifest as it is read from it: with its members sorted.
abbrev manifest_text : String
manifest_text = write_members true (member_texts true toy.float_text (of_dict signed))

abbrev signature : String × Value
signature = (
  "signature",
  signature_block "0011223344556677" (toy.sign (1 ∷ []) (canonical_bytes toy manifest)),
)

abbrev read_back : Dict
read_back = ("channel", str "beta") ∷ signature ∷ ("version", str "1.2") ∷ []

abbrev reader : Platform
reader = toy_reading manifest_text read_back

signed-Reordered : Reordered signed read_back
signed-Reordered =
    both
      (swap ("version", str "1.2") ("channel", str "beta") (λ e. cc (ap (λ k. k == "version") e)))
      (keep ("channel", str "beta")
        (swap ("version", str "1.2") signature (λ e. cc (ap (λ k. k == "version") e))))

get_manifest-upload_example :
    (get_default signed "channel" null ≡ str "beta")
    × IsServed reader configured "0011223344556677" read_back (
        get_manifest memory reader "beta" (upload_manifest reader configured admin 1 7 signed []).1)
unfolding upload_manifest b64encode
get_manifest-upload_example =
    get_manifest-upload memory reader configured admin 1 7 signed read_back [] (about row) refl tt
      refl signed-Reordered
