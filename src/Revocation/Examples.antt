-- ===== src/Revocation/Examples.antt =====
-- A list of three revoked licenses.
use netplex_support.Prelude.Text.{strip}
use netplex_support.Prelude.Text.Replace.{starts_with}
use netplex_support.Prelude.{true, false, String, none, some, List, [], ◌∷◌, ◌++◌, ◌≡◌, refl}
use netplex_support.Prelude.Int.{pos}
use netplex_support.Json.{Dict}
use netplex_support.Platform.Toy.{toy}
use netplex_support.Cryptography.Toy.{toy_keys, toy_seed, toy_keys-IsEd25519}
use netplex_support.Signing.{signature_block, canonical_bytes}
use netplex_support.Tool.{done, exits}
use netplex_support.Revocation.{Options, unsigned, mint_crl}
use netplex_support.Revocation.Listed.{is_named, IsCrl, mint_crl-lists}

abbrev options : Options
options = record {
  key = "AAAAAAAAAAAAAAAAAAAAAAAAAAAAAAAAAAAAAAAAAAA=\n";
  revoke = "lic-b" ∷ "lic-a" ∷ [];
  revoke_file = some ("# old" ∷ " lic-c " ∷ "" ∷ "lic-a" ∷ []);
  now = some (pos 7);
}

abbrev revoked : List String
revoked = "lic-a" ∷ "lic-b" ∷ "lic-c" ∷ []

abbrev crl : Dict
crl =
    unsigned options 0 revoked
    ++ (
      "signature",
      signature_block "0011223344556677"
          (toy_keys.sign toy_seed (canonical_bytes toy (unsigned options 0 revoked))),
    )
      ∷ []

mint_crl_test : mint_crl toy toy_keys options 0 ≡ done crl
unfolding mint_crl
mint_crl_test = refl

empty_test :
    mint_crl toy toy_keys (record options { revoke = []; revoke_file = none }) 0
    ≡ exits "refusing to mint an empty CRL - pass --revoke / --revoke-file"
unfolding mint_crl
empty_test = refl

named_tests :
    (is_named options "lic-c" ≡ true)
    × (is_named options "# old" ≡ false)
    × (is_named options "" ≡ false)
unfolding strip starts_with
named_tests = (refl, refl, refl)

mint_crl-lists_example : IsCrl toy toy_keys options 0 crl
mint_crl-lists_example = mint_crl-lists toy toy_keys options 0 crl toy_keys-IsEd25519 mint_crl_test
