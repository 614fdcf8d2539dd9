-- ===== src/Base64/Examples.antt =====
-- Bytes, encoded and decoded.
use netplex_support.Prelude.{◌≡◌, some, [], ◌∷◌, arith}
use netplex_support.Base64.{Bytes, b64encode, b64decode, b64decode_strict}
use netplex_support.Base64.Laws.{both_decodings-b64encode}

abbrev four_bytes : Bytes
four_bytes = 77 ∷ 0 ∷ 255 ∷ 33 ∷ []

both_decodings-b64encode_test :
    (b64decode (b64encode four_bytes) ≡ some four_bytes)
    × (b64decode_strict (b64encode four_bytes) ≡ some four_bytes)
both_decodings-b64encode_test =
    both_decodings-b64encode four_bytes
      (omega arith, (omega arith, (omega arith, (omega arith, tt))))
