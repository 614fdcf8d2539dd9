-- ===== src/Signing/Examples.antt =====
-- A manifest that is signed and verified on the toy platform.
use netplex_support.Prelude.{String, ◌≢◌, eq_iff, true, none, some, [], ◌∷◌, ◌++◌, ◌≡◌, ◌↔◌, refl}
use netplex_support.Json.{str, arr, nil, obj, of_dict, Dict}
use netplex_support.Base64.{Bytes, b64decode, b64encode}
use netplex_support.Platform.Toy.{toy, toy-HasEd25519}
use netplex_support.Signing.{
  TrustStore, Entry, accepted, rejected, fails, verify_manifest, sign_manifest, signature_block,
  canonical_bytes, trust_store_from_settings, or_key_id, key_id_for,
}
use netplex_support.Signing.Accept.{IsSigned, verify_manifest-accepted}
use netplex_support.Signing.Store.{
  AreFiled, HasBadKeyId, trust_store_from_settings-AreFiled, verify_manifest-fails,
}
use netplex_support.Signing.Reorder.{swap, verify_manifest-Reordered}
use netplex_support.Signing.RoundTrip.{sign_manifest-verify}

abbrev seed : Bytes
seed = 1 ∷ 2 ∷ 3 ∷ []

abbrev manifest : Dict
manifest = ("version", str "1.2") ∷ ("channel", str "beta") ∷ []

abbrev signed : Dict
signed =
    manifest
    ++ (
      "signature",
      signature_block "0011223344556677" (toy.sign seed (canonical_bytes toy manifest)),
    )
      ∷ []

abbrev entry : Entry
entry = record { public_key = "Aw=="; status = str "active" }

abbrev store : TrustStore
store = ("0011223344556677", entry) ∷ []

store_test : trust_store_from_settings toy "  " "Aw==" ≡ some store
unfolding trust_store_from_settings
store_test = refl

-- The same manifest with a member more, with its key revoked, and with no key known.
verify_tests :
    (verify_manifest toy signed store ≡ accepted "0011223344556677")
    × (verify_manifest toy (("hotfix", str "x") ∷ signed) store ≡ rejected "bad-signature")
    × (verify_manifest toy signed
          (("0011223344556677", record entry { status = str "revoked" }) ∷ [])
        ≡ rejected "revoked-key")
    × (verify_manifest toy signed [] ≡ rejected "unknown-key")
unfolding verify_manifest b64encode
verify_tests = (refl, refl, refl, refl)

verify_manifest-accepted_example :
    (verify_manifest toy signed store ≡ accepted "0011223344556677")
    ↔ IsSigned toy store signed "0011223344556677"
verify_manifest-accepted_example = verify_manifest-accepted toy store signed "0011223344556677"

trust_store_from_settings-AreFiled_example : AreFiled toy store
trust_store_from_settings-AreFiled_example =
    trust_store_from_settings-AreFiled toy "  " "Aw==" store store_test

abbrev with_bad_key_id : Dict
with_bad_key_id =
    ("signature", obj (of_dict (("alg", str "ed25519") ∷ ("key_id", arr nil) ∷ []))) ∷ []

verify_manifest-fails_example :
    (verify_manifest toy with_bad_key_id store ≡ fails)
    ↔ ((toy.has_nacl ≡ true) × HasBadKeyId toy with_bad_key_id)
verify_manifest-fails_example =
    verify_manifest-fails toy "  " "Aw==" store with_bad_key_id store_test

sign_manifest-verify_example :
    verify_manifest toy signed store ≡ accepted (or_key_id none (key_id_for toy (3 ∷ [])))
unfolding sign_manifest key_id_for b64decode
sign_manifest-verify_example =
    sign_manifest-verify toy manifest signed seed (3 ∷ []) none store entry (toy-HasEd25519 "" [])
      refl refl refl refl refl

abbrev reordered : Dict
reordered =
    ("channel", str "beta")
    ∷ ("version", str "1.2")
    ∷ (
      "signature",
      signature_block "0011223344556677" (toy.sign seed (canonical_bytes toy manifest)),
    )
    ∷ []

other_names : ◌≢◌ {A = String} "version" "channel"
other_names e = let clash = (eq_iff "version" "channel").1 e in cc

verify_manifest-Reordered_example :
    verify_manifest toy signed store ≡ verify_manifest toy reordered store
verify_manifest-Reordered_example =
    verify_manifest-Reordered toy signed reordered store
      (swap ("version", str "1.2") ("channel", str "beta") other_names)
