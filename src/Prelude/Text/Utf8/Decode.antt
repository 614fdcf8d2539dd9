-- ===== src/Prelude/Text/Utf8/Decode.antt =====
-- Python's bytes.decode(), which reads strict UTF-8: no overlong form, no surrogate, nothing above
-- the last code point.
use Prim.Native.Char.{Char, char, code, IsScalar}
use Prim.Native.Nat.{ℕ, zero, suc, ◌+◌, ◌-◌, ◌*◌, ◌<◌, ◌≤◌, ◌/◌, ◌%◌, Ordering, compare}
use Prim.Native.String.{String}
use mathlib.Core.Bool.{Bool, true, ◌&&◌}
use mathlib.Core.List.{List, [], ◌∷◌}
use mathlib.Core.Logic.{◌⊎◌, inl, inr}
use mathlib.Core.Option.{Option, none, some}
use mathlib.Core.Path.{◌≡◌, refl, ap, ◌∙◌}
use native.Mathlib.Omega.{arith}
use text.Mathlib.TextEquality.{IsScalar-prop}
use netplex_support.Prelude.Tests.{ltb, leb, Bool-cases, if◌then◌else◌}
use netplex_support.Prelude.Text.Utf8.{utf8, char_bytes}

Ordering-cases : (o : Ordering) → (o ≡ Ordering.lt) ⊎ ((o ≡ Ordering.eq) ⊎ (o ≡ Ordering.gt))
Ordering-cases Ordering.lt = inl refl
Ordering-cases Ordering.eq = inr (inl refl)
Ordering-cases Ordering.gt = inr (inr refl)

-- Whether a number is that of a character.
IsScalar-dec : (n : ℕ) → Dec (IsScalar n)
IsScalar-dec n = elim (Ordering-cases (compare n 55296)) [
  | inl e ↦ yes (rw e tt)
  | inr (inl e) ↦
      let above : compare 57343 n ≡ Ordering.gt = ground arith in no (λ h. rw (e, above) at h)
  | inr (inr e) ↦ elim (Ordering-cases (compare 57343 n)) [
    | inl d ↦ elim (Ordering-cases (compare n 1114112)) [
      | inl f ↦ yes (rw (e, d, f) tt)
      | inr (inl f) ↦ no (λ h. rw (e, d, f) at h)
      | inr (inr f) ↦ no (λ h. rw (e, d, f) at h)
    ]
    | inr (inl d) ↦ no (λ h. rw (e, d) at h)
    | inr (inr d) ↦ no (λ h. rw (e, d) at h)
  ]
]

from_scalar : (n : ℕ) → Dec (IsScalar n) → Option Char
from_scalar n (yes h) = some (char n h)
from_scalar n (no h) = none

-- The character of a number that is a scalar value.
char_of : ℕ → Option Char
unfolding from_scalar IsScalar-dec Ordering-cases
char_of n = from_scalar n (IsScalar-dec n)

from_scalar_lem :
    (n : ℕ) (d : Dec (IsScalar n)) (h : IsScalar n) → from_scalar n d ≡ some (char n h)
unfolding from_scalar
from_scalar_lem n (yes g) h = ap (λ q. some (char n q)) (IsScalar-prop n g h)
from_scalar_lem n (no g) h = absurd (g h)

char_of-code : (c : Char) → char_of (code c) ≡ some c
unfolding char_of
char_of-code (char n h) = from_scalar_lem n (IsScalar-dec n) h

-- A character lies below the surrogates, or above them and below the end.
code_range : (c : Char) → code c < 1114112
code_range (char n h) = elim (Ordering-cases (compare n 1114112)) [
  | inl f ↦ ground arith
  | inr f ↦
      let above : compare n 55296 ≡ Ordering.gt = ground arith in
      let below : compare 57343 n ≡ Ordering.lt = ground arith in
      elim f [
        | inl g ↦ absurd (rw (above, below, g) at h)
        | inr g ↦ absurd (rw (above, below, g) at h)
      ]
]

-- What a byte starts: a character of one byte, one with continuation bytes still to come (how many,
-- the bits so far, and the least code point of that length), or nothing.
pub data Lead : Type 0 where
  single bad : Lead
  starts : ℕ → ℕ → ℕ → Lead

lead : ℕ → Lead
lead b =
    if ltb b 0x80
    then single
    else if leb 0xc0 b && ltb b 0xe0
    then starts 0 (b - 0xc0) 0x80
    else if leb 0xe0 b && ltb b 0xf0
    then starts 1 (b - 0xe0) 0x800
    else if leb 0xf0 b && ltb b 0xf8
    then starts 2 (b - 0xf0) 0x10000
    else bad

abbrev is_continuation : ℕ → Bool
is_continuation b = leb 0x80 b && ltb b 0xc0

cons_char : Option Char → Option String → Option String
cons_char (some c) (some s) = some (String.◌∷◌ c s)
cons_char _ _ = none

-- Inside a character: how many more bytes than one are to come, the bits so far, the least code
-- point; or between characters.
pub data Place : Type 0 where
  between : Place
  inside : ℕ → ℕ → ℕ → Place

read : Place → List ℕ → Option String
unfolding lead char_of cons_char
read between [] = some ""
read (inside n acc low) [] = none
read between (b ∷ bs) = elim (lead b) [
  | single ↦ cons_char (char_of b) (read between bs)
  | bad ↦ none
  | starts n acc low ↦ read (inside n acc low) bs
]
read (inside zero acc low) (b ∷ bs) =
    let value = acc * 64 + (b - 0x80) in
    let rest = cons_char (char_of value) (read between bs) in
    if is_continuation b && leb low value then rest else none
read (inside (suc n) acc low) (b ∷ bs) =
    let rest = read (inside n (acc * 64 + (b - 0x80)) low) bs in
    if is_continuation b then rest else none

-- bytes.decode(), `none` where it raises
unfoldable pub decode : List ℕ → Option String
unfolding read
decode bs = read between bs

decode_tests :
    (decode (97 ∷ 195 ∷ 169 ∷ []) ≡ some "aé")
    × (decode (0xc1 ∷ 0x81 ∷ []) ≡ none)
    × (decode (0xed ∷ 0xa0 ∷ 0x80 ∷ []) ≡ none)
    × (decode (97 ∷ 195 ∷ []) ≡ none)
unfolding decode
decode_tests = (refl, refl, refl, refl)

read_last :
    (n low : ℕ) (bs : List ℕ)
    → low ≤ n
    → read (inside 0 (n / 64) low) ((128 + n % 64) ∷ bs) ≡ cons_char (char_of n) (read between bs)
unfolding read
read_last n low bs h =
    let value : n / 64 * 64 + (128 + n % 64 - 0x80) ≡ n = omega arith in
    let good : (is_continuation (128 + n % 64) && leb low (n / 64 * 64 + (128 + n % 64 - 0x80)))
        ≡ true =
      rw value (ground arith) in
    rw good (rw value)

read_more :
    (k n acc low : ℕ) (bs : List ℕ)
    → acc ≡ n / 64
    → read (inside (suc k) acc low) ((128 + n % 64) ∷ bs) ≡ read (inside k n low) bs
unfolding read
read_more k n acc low bs e =
    let value : acc * 64 + (128 + n % 64 - 0x80) ≡ n = omega arith in
    let good : is_continuation (128 + n % 64) ≡ true = ground arith in rw good (rw value)

decode_lead :
    (b k acc low : ℕ) (bs : List ℕ)
    → lead b ≡ starts k acc low
    → read between (b ∷ bs) ≡ read (inside k acc low) bs
unfolding read
decode_lead b k acc low bs h = rw (h, read)

lead_two : (n : ℕ) → 0x80 ≤ n → n < 0x800 → lead (192 + n / 64) ≡ starts 0 (n / 64) 0x80
unfolding lead
lead_two n h k = ground arith

lead_three : (n : ℕ) → n < 0x10000 → lead (224 + n / 4096) ≡ starts 1 (n / 4096) 0x800
unfolding lead
lead_three n h = ground arith

lead_four : (n : ℕ) → n < 1114112 → lead (240 + n / 262144) ≡ starts 2 (n / 262144) 0x10000
unfolding lead
lead_four n h = ground arith

lead_one : (n : ℕ) → ltb n 0x80 ≡ true → lead n ≡ single
unfolding lead
lead_one n h = rw h

read_single :
    (n : ℕ) (rest : List ℕ)
    → ltb n 0x80 ≡ true
    → read between (n ∷ rest) ≡ cons_char (char_of n) (read between rest)
unfolding read
read_single n rest h = rw (lead_one n h, read)

-- The bytes of a character, read between two characters.
read-char_bytes :
    (n : ℕ) (rest : List ℕ)
    → n < 1114112
    → read between (char_bytes n rest) ≡ cons_char (char_of n) (read between rest)
unfolding char_bytes
read-char_bytes n rest h = elim (Bool-cases (ltb n 0x80)) [
  | inl e ↦ rw e (read_single n rest e)
  | inr e ↦ elim (Bool-cases (ltb n 0x800)) [
    | inl f ↦
        rw (e, f)
          (decode_lead _ 0 (n / 64) 0x80 _ (lead_two n (ground arith) (ground arith))
            ∙ read_last n 0x80 rest (ground arith))
    | inr f ↦ elim (Bool-cases (ltb n 0x10000)) [
      | inl g ↦
          let shorter : n / 4096 ≡ n / 64 / 64 = omega arith in
          rw (e, f, g)
            (decode_lead _ 1 (n / 4096) 0x800 _ (lead_three n (ground arith))
              ∙ read_more 0 (n / 64) (n / 4096) 0x800 _ shorter
              ∙ read_last n 0x800 rest (ground arith))
      | inr g ↦
          let shorter : n / 262144 ≡ n / 4096 / 64 = omega arith in
          let short : n / 4096 ≡ n / 64 / 64 = omega arith in
          rw (e, f, g)
            (decode_lead _ 2 (n / 262144) 0x10000 _ (lead_four n h)
              ∙ read_more 1 (n / 4096) (n / 262144) 0x10000 _ shorter
              ∙ read_more 0 (n / 64) (n / 4096) 0x10000 _ short
              ∙ read_last n 0x10000 rest (ground arith))
    ]
  ]
]

-- What is encoded is decoded.
pub decode-utf8 : (s : String) → decode (utf8 s) ≡ some s
unfolding decode utf8
decode-utf8 String.[] = refl
decode-utf8 (String.◌∷◌ c s) =
    read-char_bytes (code c) (utf8 s) (code_range c) ∙ rw (char_of-code c, decode-utf8 s)
