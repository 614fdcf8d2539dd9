-- ===== src/Attribution/Pattern/Shape.antt =====
-- A JSON text whose member `signature` comes last, and has `alg` first: it is one match.
use Prim.Native.String
use netplex_support.Prelude.{ℕ, ◌+◌, ◌≤◌, String, Bool, true, [], ◌∷◌, ◌++◌, ◌≡◌, refl, arith, All}
use netplex_support.Prelude.Text.{all_chars}
use netplex_support.Prelude.Text.Utf8.{utf8}
use netplex_support.Prelude.Text.Utf8.Append.{utf8-append, utf8-All}
use netplex_support.Base64.{Bytes}
use netplex_support.Attribution.Pattern.{no_brace, signed_blob, find_all}
use netplex_support.Attribution.Pattern.Matches.{
  Matches, stop, leave, through, meet, closes, EndsClosed, find_all-whole,
}

-- A text without braces.
abbrev pub is_plain : String → Bool
is_plain s = all_chars no_brace s

infixr 66 ◌⧺◌
abbrev ◌⧺◌ : String → String → String
s ⧺ t = String.◌++◌ s t

-- The text, in its parts: before `signature`, before `alg`, and behind it.
abbrev pub shape : String → String → String → String
shape before block after =
    "{" ⧺ before ⧺ "\"signature\"" ⧺ ": " ⧺ "{" ⧺ block ⧺ "\"alg\"" ⧺ ": " ⧺ "\"ed25519\"" ⧺ after
    ⧺ "}" ⧺ "\n" ⧺ "}"

-- Its bytes, of the bytes of the three parts.
abbrev bytes_of : Bytes → Bytes → Bytes → Bytes
bytes_of before block after =
    utf8 "{"
    ++ (before
        ++ (utf8 "\"signature\""
            ++ (utf8 ": "
                ++ (utf8 "{"
                    ++ (block
                        ++ (utf8 "\"alg\""
                            ++ (utf8 ": "
                                ++ (utf8 "\"ed25519\""
                                    ++ (after ++ (utf8 "}" ++ (utf8 "\n" ++ utf8 "}")))))))))))

abbrev Plain : Bytes → Type 0
Plain = All (λ b. no_brace b ≡ true)

closes-append : (xs ys : Bytes) → closes (xs ++ ys) ≡ closes xs + closes ys
closes-append [] ys = omega arith
closes-append (x ∷ xs) ys = omega (arith, closes-append xs ys)

closes-Plain : (xs : Bytes) → Plain xs → closes xs ≡ 0
closes-Plain [] h = refl
closes-Plain (x ∷ xs) h = ground (arith, h.0, closes-Plain xs (h.1))

ends-append : (xs : Bytes) (y : ℕ) (ys : Bytes) → EndsClosed (y ∷ ys) → EndsClosed (xs ++ y ∷ ys)
ends-append [] y ys h = h
ends-append (x ∷ []) y ys h = h
ends-append (x ∷ z ∷ xs) y ys h = ends-append (z ∷ xs) y ys h

module _ (before block after : Bytes) (h : Plain before) (k : Plain block) (l : Plain after) where
  matched : Matches signed_blob (bytes_of before block after) []
  unfolding utf8
  matched = meet "{" (
      through before h (
        meet "\"signature\"" (
          leave (
            meet ":" (
              through (32 ∷ []) (refl, tt)
                (meet "{" (
                  through block k (
                    meet "\"alg\"" (
                      leave (
                        meet ":" (
                          through (32 ∷ []) (refl, tt)
                            (meet "\"ed25519\"" (
                              through after l (
                                meet "}"
                                  (through (10 ∷ []) (refl, tt) (meet "}" stop))))))))))))))))

  two_closed : closes (bytes_of before block after) ≡ 2
  unfolding utf8
  two_closed = omega (
    arith,
    closes-append before _,
    closes-append block _,
    closes-append after _,
    closes-Plain before h,
    closes-Plain block k,
    closes-Plain after l,
  )

  ends_closed : EndsClosed (bytes_of before block after)
  unfolding utf8
  ends_closed =
      ends-append (b'{' ∷ before) 34 _
        (ends-append (b'{' ∷ block) 34 _ (ends-append (34 ∷ after) b'}' _ refl))

  found : find_all signed_blob (bytes_of before block after) ≡ bytes_of before block after ∷ []
  found = find_all-whole (bytes_of before block after) [] matched ends_closed two_closed

pub high_plain : (b : ℕ) → 128 ≤ b → no_brace b ≡ true
high_plain b h = ground arith

utf8-shape :
    (before block after : String)
    → utf8 (shape before block after) ≡ bytes_of (utf8 before) (utf8 block) (utf8 after)
utf8-shape before block after = simp (utf8-append)

-- Where the three parts have no brace, the text is the one match in itself.
pub find_all-shape :
    (before block after : String)
    → is_plain before ≡ true
    → is_plain block ≡ true
    → is_plain after ≡ true
    → find_all signed_blob (utf8 (shape before block after)) ≡ utf8 (shape before block after) ∷ []
find_all-shape before block after h k l = rw (utf8-shape before block after) (
    found (utf8 before) (utf8 block) (utf8 after) (utf8-All no_brace high_plain before h)
      (utf8-All no_brace high_plain block k) (utf8-All no_brace high_plain after l))
