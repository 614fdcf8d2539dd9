-- ===== src/Attribution/Examples.antt =====
-- Scans of small trees, with toy keys.
use Prim.Native.String
use netplex_support.Prelude.{
  String, true, false, none, some, List, [], ◌∷◌, ◌++◌, ◌≡◌, ◌↔◌, refl, All, any, keep, length,
}
use netplex_support.Prelude.Text.Utf8.{utf8}
use netplex_support.Prelude.Text.Utf8.Decode.{decode}
use netplex_support.Json.{str, null, nil, cons, arr, obj, Dict, of_dict}
use netplex_support.Platform.{Platform}
use netplex_support.Platform.Toy.{toy_reading}
use netplex_support.Cryptography.Toy.{toy_keys}
use netplex_support.Attribution.{license_token, token_report, attribute}
use netplex_support.Attribution.Command.{
  Command, stamp_trust_of, ledger_of, scan_command, token_command,
}
use netplex_support.Attribution.Pattern.{find_all}
use netplex_support.Attribution.Scan.{File, Entry, hits, scan}
use netplex_support.Attribution.Scan.Counts.{
  is_planted, is_attributed, total, scan-none, scan-total,
}

abbrev planted_text : String
planted_text = "{\"license_id\": [null], \"signature\": {\"alg\": \"ed25519\"}}"

abbrev planted : Dict
planted =
    ("license_id", arr (cons null nil))
    ∷ ("signature", obj (of_dict (("alg", str "ed25519") ∷ [])))
    ∷ []

abbrev leaked_text : String
leaked_text = "{\"jti\": \"lic-1\", \"signature\": {\"alg\": \"ed25519\"}}"

abbrev claims : Dict
claims = ("jti", str "lic-1") ∷ ("signature", obj (of_dict (("alg", str "ed25519") ∷ []))) ∷ []

abbrev reads_planted : Platform
reads_planted = toy_reading planted_text planted

abbrev reads_token : Platform
reads_token = toy_reading leaked_text claims

abbrev planted_tree : List File
planted_tree = ("leak/a.txt", none) ∷ ("leak/b.txt", some (utf8 planted_text)) ∷ []

-- One copy stands twice in the first file, with other text around it.
abbrev tree : List File
tree =
    ("a.bin", some (0 ∷ 255 ∷ utf8 leaked_text ++ 10 ∷ utf8 leaked_text))
    ∷ ("b.txt", none)
    ∷ ("c.txt", some (utf8 leaked_text))
    ∷ []

abbrev findings : List Entry
findings =
    record {
      key = record { kind = some "license-token"; ident = str "lic-1"; key_id = none; ok = false };
      report = license_token (record {
        ok = false;
        signature_key_id = none;
        reason = some "no-trusted-key";
        buyer_id = null;
        license_id = str "lic-1";
        tier = null;
        issued_at = null;
        expires_at = null;
      });
      copies = 3;
      artifacts = "a.bin" ∷ "a.bin" ∷ "c.txt" ∷ [];
    }
    ∷ []

scan_test : scan reads_token toy_keys [] [] tree ≡ some findings
unfolding scan attribute token_report utf8 decode find_all
scan_test = refl

planted_test : scan reads_planted toy_keys [] [] planted_tree ≡ none
unfolding scan attribute token_report utf8 decode find_all
planted_test = refl

scan-none_example :
    (scan reads_planted toy_keys [] [] planted_tree ≡ none)
    ↔ (any (is_planted reads_planted toy_keys [] []) (hits planted_tree) ≡ true)
scan-none_example = scan-none reads_planted toy_keys [] [] planted_tree

scan-total_example :
    (total findings ≡ length (keep (is_attributed reads_token toy_keys [] []) (hits tree)))
    × All (λ e. e.copies ≡ length e.artifacts) findings
scan-total_example = scan-total reads_token toy_keys [] [] tree findings scan_test

abbrev command : Command
command = record {
  stamp_pubkeys = "AA==" ∷ [];
  env_keys = " AQ==, ,Ag== ";
  ledger_lines = "\n" ∷ "NPX\n" ∷ [];
}

-- The keys of the option and of the environment, a ledger without a row, a scan that finds a token
-- and one that finds nothing, and a token that is read with a line end.
command_tests :
    (stamp_trust_of command ≡ "AA==" ∷ "AQ==" ∷ "Ag==" ∷ [])
    × (ledger_of reads_token command ≡ [])
    × (scan_command reads_token toy_keys command tree ≡ some (findings, 0))
    × (scan_command reads_token toy_keys command [] ≡ some ([], 2))
    × (token_command reads_token toy_keys command (String.◌++◌ leaked_text "\n")
        ≡ attribute reads_token toy_keys ("AA==" ∷ []) [] leaked_text)
unfolding scan_command token_command attribute token_report utf8 decode find_all
command_tests = (refl, refl, refl, refl, refl)
