-- ===== src/Json/Write/Characters.antt =====
-- Which characters stand in a JSON text literal.
use Prim.Native.Char.{Char, code}
use netplex_support.Prelude.{
  ℕ, ◌/◌, ◌%◌, String, Bool, true, ◌&&◌, ◌||◌, some, List, [], ◌∷◌, ◌≡◌, inl, inr, refl, ◌∙◌,
  Bool-cases, Option-cases, arith, All, nat_eq, ltb, leb,
}
use netplex_support.Prelude.Int.{digit_char}
use netplex_support.Prelude.Text.{all_chars}
use netplex_support.Prelude.Text.Utf8.Append.{all_chars-append}
use netplex_support.Json.Write.{
  quoted, escape, escape_char, long_escape, hex_escape, short_escape, short_escapes,
}

-- A test that the characters of the escapes pass.
module _ (p : ℕ → Bool) (marks : all_chars p "\"\\nrtfbu" ≡ true)
    (hex : (n : ℕ) → p (code (digit_char n)) ≡ true) (ascii : Bool) where
  hex_escape-all : (n : ℕ) (s : String) → all_chars p s ≡ true → all_chars p (hex_escape n s) ≡ true
  unfolding hex_escape all_chars
  hex_escape-all n s h =
      all_chars-append p "\\u" _
      ∙ ground (arith, marks, hex (n / 4096), hex (n / 256 % 16), hex (n / 16 % 16), hex (n % 16))

  short_escape-All :
      (n : ℕ) (es : List (ℕ × String)) (s : String)
      → All (λ e. all_chars p e.1 ≡ true) es
      → short_escape n es ≡ some s
      → all_chars p s ≡ true
  unfolding short_escape
  short_escape-All n [] s h e = cc
  short_escape-All n ((m, t) ∷ es) s h e = elim (Bool-cases (nat_eq m n)) [
    | inl q ↦ let same : t ≡ s = cc (rw q at e) in rw (← same) (h.0)
    | inr q ↦ short_escape-All n es s (h.1) (rw q at e)
  ]

  short_escapes-All : All (λ e. all_chars p e.1 ≡ true) short_escapes
  unfolding all_chars
  short_escapes-All = ground arith

  long_escape-all :
      (c : Char) (s : String)
      → p (code c) ≡ true
      → all_chars p s ≡ true
      → all_chars p (long_escape ascii c s) ≡ true
  unfolding long_escape all_chars
  long_escape-all c s h k =
      elim (Bool-cases (ltb (code c) 32 || (ascii && ltb 126 (code c) && ltb (code c) 0x10000))) [
        | inl e ↦ rw e (hex_escape-all (code c) s k)
        | inr e ↦ elim (Bool-cases (ascii && leb 0x10000 (code c))) [
          | inl f ↦ rw (e, f) (hex_escape-all _ _ (hex_escape-all _ s k))
          | inr f ↦ rw (e, f) (ground arith)
        ]
      ]

  escape-all : (s : String) → all_chars p s ≡ true → all_chars p (escape ascii s) ≡ true
  unfolding escape escape_char all_chars
  escape-all String.[] h = refl
  escape-all (String.◌∷◌ c s) h =
      let rest = escape-all s (ground arith) in
      elim (Option-cases (short_escape (code c) short_escapes)) [
        | inl e ↦ rw e (long_escape-all c (escape ascii s) (ground arith) rest)
        | inr (t, e) ↦
            let good = short_escape-All (code c) short_escapes t short_escapes-All e in
            rw e (all_chars-append p t (escape ascii s) ∙ rw (good, rest))
      ]

  pub quoted-all : (s : String) → all_chars p s ≡ true → all_chars p (quoted ascii s) ≡ true
  unfolding quoted
  quoted-all s h =
      let mark : all_chars p "\"" ≡ true = unfold all_chars in ground arith in
      all_chars-append p "\"" _
      ∙ rw (mark, all_chars-append p (escape ascii s) "\"", escape-all s h, mark)
