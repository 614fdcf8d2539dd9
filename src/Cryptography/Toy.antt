-- ===== src/Cryptography/Toy.antt =====
-- The keys of the toy platform, as `cryptography` would offer them.
use netplex_support.Prelude.{
  ℕ, zero, suc, String, true, some, none, ◌∷◌, [], ◌≡◌, ◌%◌, refl, length, nat_eq, arith,
  if◌then◌else◌,
}
use netplex_support.Json.{Dict}
use netplex_support.Base64.{Bytes}
use netplex_support.Platform.Toy.{toy_key, toy_reading, checksum, head_or_zero, nat_eq_refl}
use netplex_support.Cryptography.{Cryptography, IsEd25519, AreCompatible}

abbrev pub toy_keys : Cryptography
toy_keys = record {
  available = true;
  public_key = λ seed. if nat_eq (length seed) 32 then some (toy_key seed) else none;
  sign = λ seed message. checksum (length seed % 256) message ∷ [];
  verifies = λ key sig message. nat_eq (checksum (head_or_zero key) message) (head_or_zero sig);
}

abbrev zeros : ℕ → Bytes
zeros zero = []
zeros (suc n) = 0 ∷ zeros n

abbrev pub toy_seed : Bytes
toy_seed = zeros 32

key_eq : (seed key : Bytes) → toy_keys.public_key seed ≡ some key → toy_key seed ≡ key
key_eq seed key h = ground arith

pub toy_keys-IsEd25519 : IsEd25519 toy_keys
toy_keys-IsEd25519 = record {
  makes_key = λ seed long. (toy_key seed, rw long);
  sign_bytes = λ seed message. (omega arith, tt);
  verifies_sign = λ seed key message h. rw (← key_eq seed key h, nat_eq_refl);
}

pub toy-AreCompatible :
    (text : String) (claims : Dict) → AreCompatible (toy_reading text claims) toy_keys
toy-AreCompatible text claims = record {
  has_nacl = refl;
  sign_bytes = λ seed message. (omega arith, tt);
  verify_sign = λ seed key message h. rw (← key_eq seed key h, nat_eq_refl);
}
