-- ===== src/Prelude/Int.antt =====
-- Signed integers over the native numbers, under the library's names, and decimal digits.
use Prim.Native.Nat.{ℕ, zero, suc, ◌+◌, ◌-◌, ◌*◌, ◌/◌, ◌%◌}
use Prim.Native.Char.{Char, code}
use Prim.Native.String.{String, [], ◌∷◌}
use mathlib.Core.Bool.{Bool, true, false}
use native.Mathlib.Omega.{arith}
use mathlib.Core.Logic.{inl, inr}
use mathlib.Core.Path.{◌≡◌, refl}
use netplex_support.Prelude.Text.{all_chars}
use netplex_support.Prelude.Tests.{ltb, leb, Bool-cases, if◌then◌else◌}

-- `negsuc n` is -(n + 1).
pub data ℤ : Type 0 where
  pos : ℕ → ℤ
  negsuc : ℕ → ℤ

abbrev pub ltb_ℤ : ℤ → ℤ → Bool
ltb_ℤ (pos a) (pos b) = ltb a b
ltb_ℤ (pos a) (negsuc b) = false
ltb_ℤ (negsuc a) (pos b) = true
ltb_ℤ (negsuc a) (negsuc b) = ltb b a

-- a - b, as an integer.
abbrev sub_ℕ : ℕ → ℕ → ℤ
sub_ℕ a b = if leb b a then pos (a - b) else negsuc (b - a - 1)

infixl 65 ◌+ℤ◌
abbrev pub ◌+ℤ◌ : ℤ → ℤ → ℤ
pos a +ℤ pos b = pos (a + b)
pos a +ℤ negsuc b = sub_ℕ a (suc b)
negsuc a +ℤ pos b = sub_ℕ b (suc a)
negsuc a +ℤ negsuc b = negsuc (a + b + 1)

-- a * suc n
abbrev pub times_suc : ℤ → ℕ → ℤ
times_suc (pos a) n = pos (a * suc n)
times_suc (negsuc a) n = negsuc (suc a * suc n - 1)

nth_char : ℕ → String → Char
nth_char n [] = "0"
nth_char zero (c ∷ s) = c
nth_char (suc n) (c ∷ s) = nth_char n s

-- The digit of a number below 16, in lower case.
unfoldable pub digit_char : ℕ → Char
unfolding nth_char
digit_char n = nth_char n "0123456789abcdef"

nth_char-all :
    (p : ℕ → Bool) (n : ℕ) (s : String)
    → p b'0' ≡ true
    → all_chars p s ≡ true
    → p (code (nth_char n s)) ≡ true
unfolding nth_char all_chars
nth_char-all p n [] z h = z
nth_char-all p zero (c ∷ s) z h = ground arith
nth_char-all p (suc n) (c ∷ s) z h = nth_char-all p n s z (ground arith)

-- What holds of the digits holds of every digit that is written.
pub digit_char-all :
    (p : ℕ → Bool) (n : ℕ)
    → p b'0' ≡ true
    → all_chars p "0123456789abcdef" ≡ true
    → p (code (digit_char n)) ≡ true
unfolding digit_char
digit_char-all p n z h = nth_char-all p n "0123456789abcdef" z h

-- The digits of `n` in front of `rest`; `fuel` above `n` is enough.
decimal_from : ℕ → ℕ → String → String
unfolding digit_char
decimal_from zero n rest = rest
decimal_from (suc fuel) n rest =
    let more = decimal_from fuel (n / 10) (digit_char (n % 10) ∷ rest) in
    if ltb n 10 then digit_char n ∷ rest else more

-- str(n)
unfoldable pub decimal : ℕ → String
unfolding decimal_from
decimal n = decimal_from (suc n) n []

unfoldable pub decimal_ℤ : ℤ → String
unfolding decimal
decimal_ℤ (pos n) = decimal n
decimal_ℤ (negsuc n) = "-" ∷ decimal (suc n)

decimal_tests : (decimal 0 ≡ "0") × (decimal 1787000 ≡ "1787000") × (decimal_ℤ (negsuc 9) ≡ "-10")
unfolding decimal_ℤ
decimal_tests = (refl, refl, refl)

decimal_from-all :
    (p : ℕ → Bool) (fuel n : ℕ) (rest : String)
    → p b'0' ≡ true
    → all_chars p "0123456789abcdef" ≡ true
    → all_chars p rest ≡ true
    → all_chars p (decimal_from fuel n rest) ≡ true
unfolding decimal_from all_chars
decimal_from-all p zero n rest z h k = k
decimal_from-all p (suc fuel) n rest z h k =
    let more =
      decimal_from-all p fuel (n / 10) (digit_char (n % 10) ∷ rest) z h
        (ground (arith, digit_char-all p (n % 10) z h)) in
    elim (Bool-cases (ltb n 10)) [
      | inl e ↦ rw e (ground (arith, digit_char-all p n z h))
      | inr e ↦ rw e more
    ]

-- What holds of the digits and the sign holds of every character of a written integer.
pub decimal_ℤ-all :
    (p : ℕ → Bool) (n : ℤ)
    → p b'-' ≡ true
    → p b'0' ≡ true
    → all_chars p "0123456789abcdef" ≡ true
    → all_chars p (decimal_ℤ n) ≡ true
unfolding decimal_ℤ all_chars
decimal_ℤ-all p (pos n) minus z h = decimal_from-all p (suc n) n [] z h refl
decimal_ℤ-all p (negsuc n) minus z h =
    rw (minus, decimal_from-all p (suc (suc n)) (suc n) [] z h refl)
