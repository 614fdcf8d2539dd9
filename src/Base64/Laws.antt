-- ===== src/Base64/Laws.antt =====
-- Decoding what was encoded gives the bytes back, for both kinds of decoding.
use mathlib.Core.Option
use netplex_support.Prelude.{
  Bool-cases, inl, inr, ◌≤◌, ℕ, zero, suc, ◌+◌, ◌*◌, ◌/◌, ◌%◌, ◌<◌, String, ◌≡◌, refl, ap, ◌∙◌,
  Bool, true, false, ◌&&◌, not, Option, none, some, [], ◌∷◌, arith, nat_eq, ltb,
}
use Prim.Native.Char.{Char, code}
use netplex_support.Prelude.Text.{all_chars}
use netplex_support.Base64.{
  Bytes, AreBytes, digit, value, b64encode, b64decode, b64decode_strict, read, Quad, q0, q1, q2, q3,
  next_quad, emit,
}

abbrev is_it : Option ℕ → ℕ → Bool
is_it none n = false
is_it (some m) n = nat_eq m n

check : ℕ → Bool
check n =
    not (nat_eq (code (digit n)) b'=') && ltb (code (digit n)) 128 && is_it (value (digit n)) n

-- `check` of `count` numbers in a row.
checks_from : ℕ → ℕ → Bool
checks_from first zero = true
checks_from first (suc count) = check first && checks_from (first + 1) count

checks_from_lem :
    (count first n : ℕ)
    → checks_from first count ≡ true
    → first ≤ n
    → n < first + count
    → check n ≡ true
unfolding checks_from
checks_from_lem zero first n h from below = absurd (omega arith)
checks_from_lem (suc count) first n h from below = elim (Bool-cases (nat_eq first n)) [
  | inl e ↦ let same : first ≡ n = ground (arith, e) in rw (← same) (ground (arith, h))
  | inr e ↦
      checks_from_lem count (first + 1) n (ground (arith, h)) (ground (arith, e)) (omega arith)
]

check_table : checks_from 0 64 ≡ true
unfolding checks_from check digit value
check_table = refl

is_it→eq : (o : Option ℕ) (n : ℕ) → is_it o n ≡ true → o ≡ some n
is_it→eq o n h = ground arith

-- A character of the alphabet is no pad, is ASCII, and stands for its number.
record IsDigit (n : ℕ) : Type 0 where
  no_pad : nat_eq (code (digit n)) b'=' ≡ false
  ascii : ltb (code (digit n)) 128 ≡ true
  stands : value (digit n) ≡ some n

digit_lem : (n : ℕ) → n < 64 → IsDigit n
unfolding check
digit_lem n h =
    let c = checks_from_lem 64 0 n check_table (omega arith) (omega (arith, h)) in
    record {
      no_pad = ground (arith, c);
      ascii = ground (arith, c);
      stands = is_it→eq (value (digit n)) n (ground (arith, c));
    }

-- One character of the alphabet, read outside any padding.
read-digit :
    (strict : Bool) (q : Quad) (n : ℕ) (s : String)
    → n < 64
    → read strict q false 0 (String.◌∷◌ (digit n) s)
      ≡ Option.map (emit q n) (read strict (next_quad q n) false 0 s)
unfolding read
read-digit true q n s h = let d = digit_lem n h in rw (d.no_pad) (rw (d.stands))
read-digit false q n s h = let d = digit_lem n h in rw (d.no_pad) (rw (d.stands))

cons_cong : {a a' : ℕ} {l l' : Bytes} → a ≡ a' → l ≡ l' → a ∷ l ≡ a' ∷ l'
cons_cong p q = cc

-- A whole group of three bytes.
read-group :
    (strict : Bool) (a b c : ℕ) (s : String) (rest : Bytes)
    → a < 256
    → b < 256
    → c < 256
    → read strict q0 false 0 s ≡ some rest
    → read strict q0 false 0 (
        String.◌∷◌ (digit (a / 4)) (
          String.◌∷◌
            (digit (a % 4 * 16 + b / 16))
            (String.◌∷◌ (digit (b % 16 * 4 + c / 64)) (String.◌∷◌ (digit (c % 64)) s))))
      ≡ some (a ∷ b ∷ c ∷ rest)
read-group strict a b c s rest ha hb hc h = rw (read-digit strict q0 (a / 4) _ (omega arith)) (
    rw (read-digit strict (q1 (a / 4)) (a % 4 * 16 + b / 16) _ (omega arith)) (
      rw (read-digit strict (q2 ((a % 4 * 16 + b / 16) % 16)) (b % 16 * 4 + c / 64) _ (omega arith))
        (rw (read-digit strict (q3 ((b % 16 * 4 + c / 64) % 4)) (c % 64) s (omega arith)) (
          rw h (
            ap some (
              cons_cong (omega arith) (cons_cong (omega arith) (cons_cong (omega arith) refl))))))))

-- The text ends between groups, or behind the pads that a group lacks.
read-end : (strict : Bool) → read strict q0 false 0 "" ≡ some []
unfolding read
read-end strict = refl

read-two_pads : (strict : Bool) (n : ℕ) → read strict (q2 n) false 0 "==" ≡ some []
unfolding read
read-two_pads true n = refl
read-two_pads false n = refl

read-one_pad : (strict : Bool) (n : ℕ) → read strict (q3 n) false 0 "=" ≡ some []
unfolding read
read-one_pad true n = refl
read-one_pad false n = refl

read-b64encode :
    (strict : Bool) (bytes : Bytes)
    → AreBytes bytes
    → read strict q0 false 0 (b64encode bytes) ≡ some bytes
unfolding b64encode
read-b64encode strict [] h = read-end strict
read-b64encode strict (a ∷ []) h = rw (read-digit strict q0 (a / 4) _ (ground (arith, h.0))) (
    rw (read-digit strict (q1 (a / 4)) (a % 4 * 16) _ (omega arith))
      (rw (read-two_pads strict) (ap some (cons_cong (omega arith) refl))))
read-b64encode strict (a ∷ b ∷ []) h =
    let hb = h.1.0 in
    rw (read-digit strict q0 (a / 4) _ (ground (arith, h.0))) (
      rw (read-digit strict (q1 (a / 4)) (a % 4 * 16 + b / 16) _ (omega arith)) (
        rw (read-digit strict (q2 ((a % 4 * 16 + b / 16) % 16)) (b % 16 * 4) _ (omega arith)) (
          rw (read-one_pad strict)
            (ap some (cons_cong (omega arith) (cons_cong (omega arith) refl))))))
read-b64encode strict (a ∷ b ∷ c ∷ rest) h =
    read-group strict a b c (b64encode rest) rest h.0 h.1.0 h.1.1.0
      (read-b64encode strict rest h.1.1.1)

both : {a b : Bool} → a ≡ true → b ≡ true → a && b ≡ true
both p q = rw p q

is_ascii : (n : ℕ) → n < 64 → ltb (code (digit n)) 128 ≡ true
is_ascii n h = (digit_lem n h).ascii

-- What encoding gives is ASCII text.
b64encode-ascii :
    (bytes : Bytes) → AreBytes bytes → all_chars (λ n. ltb n 128) (b64encode bytes) ≡ true
unfolding b64encode all_chars
b64encode-ascii [] h = refl
b64encode-ascii (a ∷ []) h =
    both (is_ascii (a / 4) (ground (arith, h.0))) (both (is_ascii (a % 4 * 16) (omega arith)) refl)
b64encode-ascii (a ∷ b ∷ []) h =
    let hb = h.1.0 in
    both (is_ascii (a / 4) (ground (arith, h.0))) (
      both (is_ascii (a % 4 * 16 + b / 16) (omega arith))
        (both (is_ascii (b % 16 * 4) (omega arith)) refl))
b64encode-ascii (a ∷ b ∷ c ∷ rest) h =
    let hb = h.1.0 in
    let hc = h.1.1.0 in
    both (is_ascii (a / 4) (ground (arith, h.0))) (
      both (is_ascii (a % 4 * 16 + b / 16) (omega arith)) (
        both (is_ascii (b % 16 * 4 + c / 64) (omega arith))
          (both (is_ascii (c % 64) (omega arith)) (b64encode-ascii rest h.1.1.1))))

pub b64decode-b64encode :
    (bytes : Bytes) → AreBytes bytes → b64decode (b64encode bytes) ≡ some bytes
unfolding b64decode
b64decode-b64encode bytes h = rw (b64encode-ascii bytes h) (read-b64encode false bytes h)

read-b64decode_strict :
    (t : String) (c : Char) (s : String)
    → t ≡ String.◌∷◌ c s
    → all_chars (λ n. ltb n 128) t ≡ true
    → nat_eq (code c) b'=' ≡ false
    → b64decode_strict t ≡ read true q0 false 0 t
unfolding b64decode_strict
read-b64decode_strict t c s e h n = let ascii = rw e at h in rw e (rw (ascii, n))

pub b64decode_strict-b64encode :
    (bytes : Bytes) → AreBytes bytes → b64decode_strict (b64encode bytes) ≡ some bytes
unfolding b64encode b64decode_strict
b64decode_strict-b64encode [] h = refl
b64decode_strict-b64encode (a ∷ []) h =
    read-b64decode_strict (b64encode (a ∷ [])) (digit (a / 4)) _ refl (b64encode-ascii (a ∷ []) h)
      ((digit_lem (a / 4) (ground (arith, h.0))).no_pad)
    ∙ read-b64encode true (a ∷ []) h
b64decode_strict-b64encode (a ∷ b ∷ []) h =
    read-b64decode_strict (b64encode (a ∷ b ∷ [])) (digit (a / 4)) _ refl
      (b64encode-ascii (a ∷ b ∷ []) h) ((digit_lem (a / 4) (ground (arith, h.0))).no_pad)
    ∙ read-b64encode true (a ∷ b ∷ []) h
b64decode_strict-b64encode (a ∷ b ∷ c ∷ rest) h =
    read-b64decode_strict (b64encode (a ∷ b ∷ c ∷ rest)) (digit (a / 4)) _ refl
      (b64encode-ascii (a ∷ b ∷ c ∷ rest) h) ((digit_lem (a / 4) (ground (arith, h.0))).no_pad)
    ∙ read-b64encode true (a ∷ b ∷ c ∷ rest) h

-- Bytes that are encoded and then decoded, strictly or not, are the bytes again.
pub both_decodings-b64encode :
    (bytes : Bytes)
    → AreBytes bytes
    → (b64decode (b64encode bytes) ≡ some bytes) × (b64decode_strict (b64encode bytes) ≡ some bytes)
both_decodings-b64encode bytes h = (b64decode-b64encode bytes h, b64decode_strict-b64encode bytes h)
