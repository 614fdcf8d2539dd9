-- ===== src/Prelude/Text/Utf8.antt =====
-- Python's str.encode("utf-8"). Texts hold Unicode scalar values, so that it never raises.
pub mod Decode
pub mod Append
use Prim.Native.Char.{code}
use Prim.Native.Nat.{ℕ, ◌+◌, ◌/◌, ◌%◌}
use Prim.Native.String.{String, [], ◌∷◌}
use mathlib.Core.List.{List}
use mathlib.Core.Path.{◌≡◌, refl}
use netplex_support.Prelude.Tests.{ltb, if◌then◌else◌}

-- The bytes of one code point, in front of `rest`.
char_bytes : ℕ → List ℕ → List ℕ
char_bytes n rest =
    let last = List.◌∷◌ (128 + n % 64) rest in
    let third = List.◌∷◌ (128 + n / 64 % 64) last in
    if ltb n 0x80
    then List.◌∷◌ n rest
    else if ltb n 0x800
    then List.◌∷◌ (192 + n / 64) last
    else if ltb n 0x10000
    then List.◌∷◌ (224 + n / 4096) third
    else List.◌∷◌ (240 + n / 262144) (List.◌∷◌ (128 + n / 4096 % 64) third)

unfoldable pub utf8 : String → List ℕ
unfolding char_bytes
utf8 [] = List.[]
utf8 (c ∷ s) = char_bytes (code c) (utf8 s)

utf8_tests : utf8 "aé" ≡ List.◌∷◌ 97 (List.◌∷◌ 195 (List.◌∷◌ 169 List.[]))
unfolding utf8
utf8_tests = refl
