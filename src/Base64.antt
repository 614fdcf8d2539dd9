-- ===== src/Base64.antt =====
-- Python's `base64.b64encode` and `base64.b64decode` (the latter is `binascii.a2b_base64`).
mod Examples
pub mod Laws
pub mod Alphabet
use Prim.Native.Char.{Char, code}
use Prim.Native.String
use mathlib.Core.Option
use netplex_support.Prelude.{
  ℕ, zero, suc, ◌+◌, ◌*◌, ◌/◌, ◌%◌, String, Bool, true, false, ◌&&◌, not, Option, none, some, List,
  [], ◌∷◌, nat_eq, leb, ltb, ◌<◌, All, if◌then◌else◌, ◌≡◌, refl,
}
use netplex_support.Prelude.Text.{all_chars}

abbrev pub Bytes : Type 0
Bytes = List ℕ

abbrev pub AreBytes : Bytes → Type 0
AreBytes = All (λ b. b < 256)

abbrev alphabet : String
alphabet = "ABCDEFGHIJKLMNOPQRSTUVWXYZabcdefghijklmnopqrstuvwxyz0123456789+/"

char_at : ℕ → String → Char
char_at n String.[] = "="
char_at zero (String.◌∷◌ c s) = c
char_at (suc n) (String.◌∷◌ c s) = char_at n s

-- The character of a number below 64.
digit : ℕ → Char
unfolding char_at
digit n = char_at n alphabet

index_from : ℕ → Char → String → Option ℕ
index_from i c String.[] = none
index_from i c (String.◌∷◌ d s) =
    let rest = index_from (suc i) c s in if nat_eq (code c) (code d) then some i else rest

value : Char → Option ℕ
unfolding index_from
value c = index_from 0 c alphabet

unfoldable pub b64encode : Bytes → String
unfolding digit
b64encode [] = ""
b64encode (a ∷ []) = String.◌∷◌ (digit (a / 4)) (String.◌∷◌ (digit (a % 4 * 16)) "==")
b64encode (a ∷ b ∷ []) =
    String.◌∷◌ (digit (a / 4))
      (String.◌∷◌ (digit (a % 4 * 16 + b / 16)) (String.◌∷◌ (digit (b % 16 * 4)) "="))
b64encode (a ∷ b ∷ c ∷ rest) = String.◌∷◌ (digit (a / 4)) (
    String.◌∷◌ (digit (a % 4 * 16 + b / 16))
      (String.◌∷◌ (digit (b % 16 * 4 + c / 64)) (String.◌∷◌ (digit (c % 64)) (b64encode rest))))

-- What has been read of a group of four characters: how many, and the bits not yet written out.
pub data Quad : Type 0 where
  q0 : Quad
  q1 q2 q3 : ℕ → Quad

abbrev is_late : Quad → ℕ → Bool
is_late q0 pads = false
is_late (q1 n) pads = false
is_late (q2 n) pads = leb 2 pads
is_late (q3 n) pads = true

abbrev count_pad : Quad → ℕ → ℕ
count_pad (q2 n) pads = suc pads
count_pad (q3 n) pads = suc pads
count_pad q pads = pads

abbrev next_quad : Quad → ℕ → Quad
next_quad q0 v = q1 v
next_quad (q1 n) v = q2 (v % 16)
next_quad (q2 n) v = q3 (v % 4)
next_quad (q3 n) v = q0

abbrev emit : Quad → ℕ → Bytes → Bytes
emit q0 v out = out
emit (q1 n) v out = (n * 4 + v / 16) ∷ out
emit (q2 n) v out = (n * 16 + v / 4) ∷ out
emit (q3 n) v out = (n * 64 + v) ∷ out

abbrev at_end : Quad → Option Bytes
at_end q0 = some []
at_end _ = none

-- The state behind a character that is no pad. `strict` refuses what is not in the alphabet, and
-- data behind a pad.
pub data Step : Type 0 where
  skip refuse : Step
  take : ℕ → Step

abbrev step : Bool → Bool → Option ℕ → Step
step strict padded none = if strict then refuse else skip
step strict padded (some v) = if strict && padded then refuse else take v

abbrev is_empty : String → Bool
is_empty String.[] = true
is_empty (String.◌∷◌ c s) = false

read : Bool → Quad → Bool → ℕ → String → Option Bytes
unfolding value
read strict q padded pads String.[] = at_end q
read strict q padded pads (String.◌∷◌ c s) =
    let pad = read strict q true (count_pad q pads) s in
    let skipped = read strict q padded pads s in
    let later = λ (v : ℕ). Option.map (emit q v) (read strict (next_quad q v) padded 0 s) in
    if nat_eq (code c) b'='
    then (if is_late q (count_pad q pads)
        then (if strict && not (is_empty s) then none else some [])
        else pad)
    else elim (step strict padded (value c)) [ skip ↦ skipped | refuse ↦ none | take v ↦ later v ]

-- base64.b64decode(s.encode("ascii")); `none` where it raises
unfoldable pub b64decode : String → Option Bytes
unfolding read all_chars
b64decode s = if all_chars (λ c. ltb c 128) s then read false q0 false 0 s else none

-- base64.b64decode(s, validate=True)
unfoldable pub b64decode_strict : String → Option Bytes
unfolding read all_chars
b64decode_strict String.[] = some []
b64decode_strict (String.◌∷◌ c s) =
    if all_chars (λ n. ltb n 128) (String.◌∷◌ c s) && not (nat_eq (code c) b'=')
    then read true q0 false 0 (String.◌∷◌ c s)
    else none

base64_tests :
    (b64encode (77 ∷ 97 ∷ 110 ∷ 33 ∷ []) ≡ "TWFuIQ==")
    × (b64decode "TWFuIQ==" ≡ some (77 ∷ 97 ∷ 110 ∷ 33 ∷ []))
    × (b64decode "TW\nFu" ≡ some (77 ∷ 97 ∷ 110 ∷ []))
    × (b64decode "TWF" ≡ none)
    × (b64decode_strict "TW\nFu" ≡ none)
    × (b64decode_strict "TWFuIQ==" ≡ some (77 ∷ 97 ∷ 110 ∷ 33 ∷ []))
unfolding b64encode b64decode b64decode_strict
base64_tests = (refl, refl, refl, refl, refl, refl)
