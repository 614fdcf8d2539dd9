-- ===== src/Platform/Toy.antt =====
-- A platform that computes, for tests: its keys and signatures are checksums, and of JSON texts it
-- reads one.
use netplex_support.Prelude.{
  ℕ, ◌+◌, ◌%◌, String, Bool, true, false, none, some, [], ◌∷◌, ◌≡◌, refl, nat_eq, length, arith,
  ◌==◌, if◌then◌else◌,
}
use netplex_support.Json.{Dict, obj, of_dict}
use netplex_support.Base64.{Bytes}
use netplex_support.Platform.{Platform, HasEd25519, Outcome, valid, bad_signature}

abbrev pub head_or_zero : Bytes → ℕ
head_or_zero [] = 0
head_or_zero (b ∷ bs) = b

abbrev pub checksum : ℕ → Bytes → ℕ
checksum key message = (key + length message) % 256

abbrev pub toy_key : Bytes → Bytes
toy_key seed = (length seed % 256) ∷ []

abbrev outcome : Bool → Outcome
outcome true = valid
outcome false = bad_signature

-- The platform that reads the text `text` as the dict `claims`.
abbrev pub toy_reading : String → Dict → Platform
toy_reading text claims = record {
  has_nacl = true;
  verify =
      λ key message sig. outcome (nat_eq (checksum (head_or_zero key) message) (head_or_zero sig));
  verify_key = λ seed. some (toy_key seed);
  sign = λ seed message. checksum (length seed % 256) message ∷ [];
  sha256_hexdigest = λ blob. "00112233445566778899aabbccddeeff00112233445566778899aabbccddeeff";
  loads = λ t. if t == text then some (obj (of_dict claims)) else none;
  float_text = λ t. t;
  float_str = λ t. t;
  float_truth = λ t. true;
  float_equal = λ v w. false;
  float_int = λ t. none;
  text_int = λ t. none;
  repr = λ v. "";
  sig_error = λ key v. "";
}

abbrev pub toy : Platform
toy = toy_reading "" []

pub nat_eq_refl : (n : ℕ) → nat_eq n n ≡ true
nat_eq_refl n = ground arith

pub toy-HasEd25519 : (text : String) (claims : Dict) → HasEd25519 (toy_reading text claims)
toy-HasEd25519 text claims = record {
  available = refl;
  sign_bytes = λ seed message. (omega arith, tt);
  verify_sign =
      λ seed key message h. let same : toy_key seed ≡ key = cc in rw (← same, nat_eq_refl);
}
