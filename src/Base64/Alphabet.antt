-- ===== src/Base64/Alphabet.antt =====
-- Which characters b64encode writes.
use Prim.Native.Char.{code}
use netplex_support.Prelude.{
  ℕ, zero, suc, ◌+◌, ◌*◌, ◌/◌, ◌%◌, String, Bool, true, [], ◌∷◌, ◌≡◌, refl, arith,
}
use netplex_support.Prelude.Text.{all_chars}
use netplex_support.Base64.{Bytes, b64encode, digit, char_at, alphabet}

-- A test that the alphabet and the pad pass.
module _ (p : ℕ → Bool) (pad : p b'=' ≡ true) (letters : all_chars p alphabet ≡ true) where
  char_at-all : (n : ℕ) (s : String) → all_chars p s ≡ true → p (code (char_at n s)) ≡ true
  unfolding char_at all_chars
  char_at-all n String.[] h = pad
  char_at-all zero (String.◌∷◌ c s) h = ground arith
  char_at-all (suc n) (String.◌∷◌ c s) h = char_at-all n s (ground arith)

  digit-all : (n : ℕ) → p (code (digit n)) ≡ true
  unfolding digit
  digit-all n = char_at-all n alphabet letters

  pub b64encode-all : (bs : Bytes) → all_chars p (b64encode bs) ≡ true
  unfolding b64encode all_chars
  b64encode-all [] = refl
  b64encode-all (a ∷ []) = rw (digit-all (a / 4), digit-all (a % 4 * 16), pad)
  b64encode-all (a ∷ b ∷ []) =
      rw (digit-all (a / 4), digit-all (a % 4 * 16 + b / 16), digit-all (b % 16 * 4), pad)
  b64encode-all (a ∷ b ∷ c ∷ rest) =
      rw
        (
          digit-all (a / 4),
          digit-all (a % 4 * 16 + b / 16),
          digit-all (b % 16 * 4 + c / 64),
          digit-all (c % 64),
        )
        (b64encode-all rest)
