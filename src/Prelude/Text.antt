-- ===== src/Prelude/Text.antt =====
-- What the program uses of Python's `str`: strip, split, lower, and prefixes.
pub mod Laws
pub mod Utf8
pub mod Replace
pub mod Strip
pub mod Order
use Prim.Native.Char.{Char, code}
use Prim.Native.String.{String, [], ◌∷◌}
use Prim.Native.Nat.{ℕ, zero, suc, ◌+◌, ◌-◌, ◌*◌}
use mathlib.Core.Bool.{Bool, true, false, ◌&&◌, ◌||◌, not}
use mathlib.Core.List.{List, map}
use netplex_support.Prelude.Tests.{leb, nat_eq, if◌then◌else◌}
use netplex_support.Prelude.Lists.{keep}

-- The code points that `str.isspace` accepts.
abbrev pub is_space : ℕ → Bool
is_space c =
    (leb 9 c && leb c 13)
    || (leb 28 c && leb c 32)
    || nat_eq c 0x85
    || nat_eq c 0xa0
    || nat_eq c 0x1680
    || (leb 0x2000 c && leb c 0x200a)
    || nat_eq c 0x2028
    || nat_eq c 0x2029
    || nat_eq c 0x202f
    || nat_eq c 0x205f
    || nat_eq c 0x3000

-- Truth of a text.
abbrev pub non_empty : String → Bool
non_empty [] = false
non_empty (c ∷ s) = true

unfoldable pub lstrip : String → String
lstrip [] = []
lstrip (c ∷ s) = let rest = lstrip s in if is_space (code c) then rest else c ∷ s

unfoldable pub rstrip : String → String
rstrip [] = []
rstrip (c ∷ s) =
    let rest = rstrip s in if is_space (code c) && not (non_empty rest) then [] else c ∷ rest

-- s.strip()
unfoldable pub strip : String → String
unfolding lstrip rstrip
strip s = rstrip (lstrip s)

unfoldable pub extend_head : Char → List String → List String
extend_head c List.[] = List.◌∷◌ (c ∷ []) List.[]
extend_head c (List.◌∷◌ p ps) = List.◌∷◌ (c ∷ p) ps

-- s.split(sep), for a separator of one character
unfoldable pub split : ℕ → String → List String
unfolding extend_head
split sep [] = List.◌∷◌ [] List.[]
split sep (c ∷ s) =
    let rest = split sep s in if nat_eq (code c) sep then List.◌∷◌ [] rest else extend_head c rest

-- [t.strip() for t in s.split(",") if t.strip()]
unfoldable pub csv : String → List String
unfolding split strip
csv s = keep non_empty (map strip (split b',' s))

unfoldable pub drop_chars : ℕ → String → String
drop_chars zero s = s
drop_chars (suc n) [] = []
drop_chars (suc n) (c ∷ s) = drop_chars n s

-- s[:n]
unfoldable pub take_chars : ℕ → String → String
take_chars zero s = []
take_chars (suc n) [] = []
take_chars (suc n) (c ∷ s) = c ∷ take_chars n s

abbrev pub is_digit : ℕ → Bool
is_digit c = leb 48 c && leb c 57

unfoldable pub all_chars : (ℕ → Bool) → String → Bool
all_chars p [] = true
all_chars p (c ∷ s) = p (code c) && all_chars p s

-- len(s)
unfoldable pub count_chars : String → ℕ
count_chars [] = 0
count_chars (c ∷ s) = suc (count_chars s)

-- The value of a text of digits in a base; `digit` reads one character.
unfoldable pub digits_value : ℕ → (ℕ → ℕ) → ℕ → String → ℕ
digits_value base digit acc [] = acc
digits_value base digit acc (c ∷ s) = digits_value base digit (acc * base + digit (code c)) s

-- s.isascii() and s.isdigit()
abbrev pub ascii_digits : String → Bool
ascii_digits s = non_empty s && all_chars is_digit s

-- int(s) of ASCII digits
abbrev pub decimal_value : String → ℕ
decimal_value s = digits_value 10 (λ c. c - 48) 0 s

-- The lower-case form of an ASCII letter; other characters stay.
abbrev pub lower_code : ℕ → ℕ
lower_code c = if leb b'A' c && leb c b'Z' then c + 32 else c

-- s.lower() == t, for a text t of ASCII characters that no other character is lowered to
unfoldable pub lower_eq : String → String → Bool
lower_eq [] [] = true
lower_eq [] (d ∷ t) = false
lower_eq (c ∷ s) [] = false
lower_eq (c ∷ s) (d ∷ t) = nat_eq (lower_code (code c)) (code d) && lower_eq s t

-- s.lower().startswith(t), for such a text t
unfoldable pub lower_starts : String → String → Bool
lower_starts s [] = true
lower_starts [] (d ∷ t) = false
lower_starts (c ∷ s) (d ∷ t) = nat_eq (lower_code (code c)) (code d) && lower_starts s t

unfoldable pub has_char : ℕ → String → Bool
has_char n [] = false
has_char n (c ∷ s) = nat_eq (code c) n || has_char n s

-- The text before and after the first such character.
unfoldable pub before_char : ℕ → String → String
before_char n [] = []
before_char n (c ∷ s) = let rest = before_char n s in if nat_eq (code c) n then [] else c ∷ rest

unfoldable pub after_char : ℕ → String → String
after_char n [] = []
after_char n (c ∷ s) = let rest = after_char n s in if nat_eq (code c) n then s else rest

unfoldable pub starts_zero : String → Bool
starts_zero [] = false
starts_zero (c ∷ s) = nat_eq (code c) 48

-- The character of `to` that stands where `c` stands in `from`, else `c`.
unfoldable pub translate : String → String → Char → Char
translate (d ∷ from) (e ∷ to) c =
    let rest = translate from to c in if nat_eq (code c) (code d) then e else rest
translate _ _ c = c

-- s.upper() of ASCII text
unfoldable pub upper : String → String
unfolding translate
upper [] = []
upper (c ∷ s) = translate "abcdefghijklmnopqrstuvwxyz" "ABCDEFGHIJKLMNOPQRSTUVWXYZ" c ∷ upper s

-- s.lower() of ASCII text
unfoldable pub lower : String → String
unfolding translate
lower [] = []
lower (c ∷ s) = translate "ABCDEFGHIJKLMNOPQRSTUVWXYZ" "abcdefghijklmnopqrstuvwxyz" c ∷ lower s
