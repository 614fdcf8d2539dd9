-- ===== src/Attribution/Pattern/Plain.antt =====
-- Texts without braces, and what is put together from them.
use Prim.Native.Char.{code}
use Prim.Native.String
use netplex_support.Prelude.{
  ℕ, String, Bool, true, List, [], ◌∷◌, ◌≡◌, inl, inr, refl, ◌∙◌, Bool-cases, All, any, ◌==◌,
  eq_iff,
}
use netplex_support.Prelude.Int.{ℤ, digit_char, digit_char-all, decimal_ℤ, decimal_ℤ-all}
use netplex_support.Prelude.Text.{all_chars}
use netplex_support.Prelude.Text.Utf8.Append.{all_chars-append}
use netplex_support.Json.Write.{quoted}
use netplex_support.Json.Write.Characters.{quoted-all}
use netplex_support.Json.Dump.Brackets.{each_with}
use netplex_support.Base64.{Bytes, b64encode}
use netplex_support.Base64.Alphabet.{b64encode-all}
use netplex_support.Attribution.Pattern.{no_brace}
use netplex_support.Attribution.Pattern.Shape.{is_plain}

infixr 66 ◌⧺◌
abbrev ◌⧺◌ : String → String → String
s ⧺ t = String.◌++◌ s t

marks : all_chars no_brace "\"\\nrtfbu" ≡ true
unfolding all_chars
marks = refl

hex : (n : ℕ) → no_brace (code (digit_char n)) ≡ true
unfolding all_chars
hex n = digit_char-all no_brace n refl refl

pub quoted_plain :
    (ascii : Bool) (s : String) → is_plain s ≡ true → is_plain (quoted ascii s) ≡ true
quoted_plain = quoted-all no_brace marks hex

blank_plain : is_plain "" ≡ true
unfolding all_chars
blank_plain = refl

pub decimal_plain : (n : ℤ) → is_plain (decimal_ℤ n) ≡ true
unfolding all_chars
decimal_plain n = decimal_ℤ-all no_brace n refl refl refl

-- One of several texts that have no brace.
pub fixed_from :
    (ts : List String) (s : String)
    → All (λ t. is_plain t ≡ true) ts
    → any (λ t. t == s) ts ≡ true
    → is_plain s ≡ true
fixed_from [] s h k = cc
fixed_from (t ∷ ts) s h k = elim (Bool-cases (t == s)) [
  | inl e ↦ rw (← (eq_iff t s).0 e) (h.0)
  | inr e ↦ fixed_from ts s (h.1) (rw e at k)
]

pub both_plain : (s t : String) → is_plain s ≡ true → is_plain t ≡ true → is_plain (s ⧺ t) ≡ true
both_plain s t h k = all_chars-append no_brace s t ∙ rw (h, k)

pub each_with_plain :
    (sep : String) (ms : List String)
    → is_plain sep ≡ true
    → All (λ s. is_plain s ≡ true) ms
    → is_plain (each_with sep ms) ≡ true
each_with_plain sep [] h k = blank_plain
each_with_plain sep (m ∷ ms) h k =
    both_plain m _ (k.0) (both_plain sep _ h (each_with_plain sep ms h (k.1)))

pub sig_plain : (sig : Bytes) → is_plain (b64encode sig) ≡ true
unfolding all_chars
sig_plain sig = b64encode-all no_brace refl refl sig
