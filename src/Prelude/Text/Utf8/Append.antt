-- ===== src/Prelude/Text/Utf8/Append.antt =====
-- The bytes of a text put together from others, and of a text of characters of a kind.
use Prim.Native.Char.{code}
use Prim.Native.Nat.{ℕ, ◌≤◌}
use Prim.Native.String
use Prim.Native.String.{String}
use mathlib.Core.Bool.{Bool, true, ◌&&◌}
use mathlib.Core.List.{List, ◌++◌}
use mathlib.Core.Logic.{inl, inr}
use mathlib.Core.Path.{◌≡◌, ap, ◌∙◌}
use native.Mathlib.Omega.{arith}
use text.Mathlib.TextLemmas.{nil-append, cons-append}
use netplex_support.Prelude.Tests.{ltb, Bool-cases}
use netplex_support.Prelude.Lists.{All}
use netplex_support.Prelude.Text.{all_chars}
use netplex_support.Prelude.Text.Utf8.{utf8, char_bytes}

char_bytes-append : (n : ℕ) (xs ys : List ℕ) → char_bytes n (xs ++ ys) ≡ char_bytes n xs ++ ys
unfolding char_bytes
char_bytes-append n xs ys = ground arith

pub utf8-append : (s t : String) → utf8 (String.◌++◌ s t) ≡ utf8 s ++ utf8 t
unfolding utf8
utf8-append String.[] t = ap utf8 (nil-append t)
utf8-append (String.◌∷◌ c s) t =
    ap utf8 (cons-append c s t)
    ∙ ap (char_bytes (code c)) (utf8-append s t)
    ∙ char_bytes-append (code c) (utf8 s) (utf8 t)

pub all_chars-append :
    (p : ℕ → Bool) (s t : String) → all_chars p (String.◌++◌ s t) ≡ (all_chars p s && all_chars p t)
unfolding all_chars
all_chars-append p String.[] t = ap (all_chars p) (nil-append t)
all_chars-append p (String.◌∷◌ c s) t =
    ap (all_chars p) (cons-append c s t) ∙ ground (arith, all_chars-append p s t)

-- A test that all bytes of longer characters pass.
module _ (p : ℕ → Bool) (high : (b : ℕ) → 128 ≤ b → p b ≡ true) where
  char_bytes-All :
      (n : ℕ) (rest : List ℕ)
      → p n ≡ true
      → All (λ b. p b ≡ true) rest
      → All (λ b. p b ≡ true) (char_bytes n rest)
  unfolding char_bytes
  char_bytes-All n rest h k = elim (Bool-cases (ltb n 0x80)) [
    | inl e ↦ rw e (h, k)
    | inr e ↦ elim (Bool-cases (ltb n 0x800)) [
      | inl f ↦ rw (e, f) (high _ (omega arith), (high _ (omega arith), k))
      | inr f ↦ elim (Bool-cases (ltb n 0x10000)) [
        | inl g ↦
            rw (e, f, g) (high _ (omega arith), (high _ (omega arith), (high _ (omega arith), k)))
        | inr g ↦
            rw (e, f, g)
              (
                high _ (omega arith),
                (high _ (omega arith), (high _ (omega arith), (high _ (omega arith), k))),
              )
      ]
    ]
  ]

  pub utf8-All : (s : String) → all_chars p s ≡ true → All (λ b. p b ≡ true) (utf8 s)
  unfolding utf8 all_chars
  utf8-All String.[] h = tt
  utf8-All (String.◌∷◌ c s) h =
      char_bytes-All (code c) (utf8 s) (ground arith) (utf8-All s (ground arith))
