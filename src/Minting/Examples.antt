-- ===== src/Minting/Examples.antt =====
-- Tokens that are minted with a toy key.
use Prim.Native.String
use netplex_support.Prelude.{true, false, none, some, [], ◌∷◌, ◌≡◌, ◌↔◌, refl, arith}
use netplex_support.Prelude.Int.{pos}
use netplex_support.Http.{ok}
use netplex_support.Json.{str, int, null, obj, end, Dict, of_dict}
use netplex_support.Json.Dump.{dump}
use netplex_support.Base64.{b64decode, b64encode}
use netplex_support.Prelude.Text.{lower, strip}
use netplex_support.Platform.{Platform}
use netplex_support.Platform.Toy.{toy, toy_reading}
use netplex_support.Cryptography.Toy.{toy_keys, toy_seed, toy-AreCompatible}
use netplex_support.Signing.{TrustStore, signature_block, canonical_bytes, key_id_for}
use netplex_support.Licensing.{verify_token, valid_result}
use netplex_support.Tool.{done, exits}
use netplex_support.Minting.{Options, claims, check_policy, mint, token_text}
use netplex_support.Minting.Policy.{IsMinted, mint-done}
use netplex_support.Minting.Accepted.{mint-verify_token}
use netplex_support.Minting.Hidden.{IsPlain, mint-hidden}
use netplex_support.Minting.{license_id_of}
use netplex_support.Prelude.Text.{all_chars}
use netplex_support.Prelude.Text.Utf8.{utf8}
use netplex_support.Attribution.Scan.{scan}

abbrev options : Options
options = record {
  key = "AAAAAAAAAAAAAAAAAAAAAAAAAAAAAAAAAAAAAAAAAAA=\n";
  tier = "Architect";
  buyer_id = "acme";
  customer_ref = none;
  license_id = none;
  machine = "f00d";
  allow_floating = false;
  entitlements = none;
  days = pos 365;
  perpetual = true;
  now = some (pos 1000);
}

abbrev minted : Dict
minted =
    ("tier", str "architect")
    ∷ ("entitlements", obj end)
    ∷ ("buyer_id", str "acme")
    ∷ ("customer_ref", str "acme")
    ∷ ("license_id", str "lic-00112233")
    ∷ ("fingerprint", str "f00d")
    ∷ ("issued_at", int (pos 1000))
    ∷ ("expires_at", null)
    ∷ (
      "signature",
      signature_block "0011223344556677"
          (toy_keys.sign toy_seed (canonical_bytes toy (claims toy options 0 (obj end)))),
    )
    ∷ []

abbrev reader : Platform
reader = toy_reading (token_text toy minted) minted

abbrev store : TrustStore
store = ("0011223344556677", record { public_key = "IA=="; status = str "active" }) ∷ []

mint_test : mint reader toy_keys options 0 ≡ done minted
unfolding mint key_id_for
mint_test = refl

-- An architect subscription is bound to no machine, a floating one is not bound, and a tier outside
-- the policy is refused.
policy_tests :
    (check_policy (record options { perpetual = false })
      ≡ exits
          "refusing to hardware-lock a SUBSCRIPTION 'architect' token: only Architect-PERPETUAL is node-locked (§11.4). Add --perpetual, or use --machine any.")
    × (check_policy (record options { perpetual = false; allow_floating = true }) ≡ done tt)
    × (check_policy (record options { tier = "Pro" })
        ≡ exits
            "refusing to hardware-lock a 'pro' token: policy binds only ['architect', 'enterprise', 'master'] (§11.9). Use --machine any or --allow-floating for this tier.")
unfolding check_policy
policy_tests = (refl, refl, refl)

mint-done_example :
    (mint reader toy_keys options 0 ≡ done minted) ↔ IsMinted reader toy_keys options 0 minted
mint-done_example = mint-done reader toy_keys options 0 minted

reads_test : reader.loads (token_text reader minted) ≡ some (obj (of_dict minted))
unfolding dump b64encode canonical_bytes claims
reads_test = refl

mint-verify_token_example :
    verify_token reader 5 (token_text reader minted) store ≡ ok (valid_result "architect" none)
unfolding lower b64decode strip key_id_for
mint-verify_token_example =
    mint-verify_token reader toy_keys options 0 5 minted store
      (record { public_key = "IA=="; status = str "active" }) toy_seed (32 ∷ [])
      (toy-AreCompatible (token_text toy minted) minted) mint_test reads_test refl refl refl refl
      refl tt

options-IsPlain : IsPlain reader options
unfolding lower license_id_of all_chars
options-IsPlain = record {
  tier = refl;
  buyer_id = refl;
  customer_ref = refl;
  license_id = refl;
  machine = refl;
}

mint-hidden_example :
    scan reader toy_keys [] []
      (("token.json", some (utf8 (String.◌++◌ (token_text reader minted) "\n"))) ∷ [])
    ≡ scan reader toy_keys [] [] []
unfolding dump lower license_id_of all_chars key_id_for utf8 b64encode canonical_bytes claims
mint-hidden_example =
    mint-hidden reader toy_keys options 0 minted (obj end) "" "token.json" [] [] [] [] mint_test
      refl refl refl options-IsPlain (λ key. refl) (omega arith)
