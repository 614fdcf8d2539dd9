-- ===== src/Ip/V6.antt =====
-- IPv6 addresses, as `ipaddress.IPv6Address` reads them.
use netplex_support.Prelude.Options.{◌>>=◌}
use netplex_support.Prelude.{
  ℕ, ◌+◌, ◌-◌, ◌*◌, ◌/◌, ◌%◌, String, Bool, false, ◌&&◌, ◌||◌, not, Option, none, some, List, [],
  ◌∷◌, nat_eq, leb, length, if◌then◌else◌,
}
use Prim.Native.Nat.{◌^◌}
use mathlib.Core.List.{reverse}
use netplex_support.Prelude.Text.{
  split, count_chars, all_chars, digits_value, is_digit, non_empty, has_char, before_char,
  after_char,
}
use netplex_support.Ip.V4.{ipv4}

-- One part between colons: its text, or 16 bits of an IPv4 address in the last part.
pub data Part : Type 0 where
  text : String → Part
  word : ℕ → Part

is_hex : ℕ → Bool
is_hex c = is_digit c || (leb b'a' c && leb c b'f') || (leb b'A' c && leb c b'F')

hex_digit : ℕ → ℕ
hex_digit c = if leb c 57 then c - 48 else if leb c b'F' then c - 55 else c - 87

is_blank : Part → Bool
is_blank (text s) = not (non_empty s)
is_blank (word n) = false

-- _parse_hextet
parse_hextet : Part → Option ℕ
unfolding is_hex hex_digit all_chars count_chars digits_value
parse_hextet (word n) = some n
parse_hextet (text s) =
    if all_chars is_hex s && leb (count_chars s) 4 && non_empty s
    then some (digits_value 16 hex_digit 0 s)
    else none

parse_hextets : ℕ → List Part → Option ℕ
unfolding parse_hextet
parse_hextets acc [] = some acc
parse_hextets acc (p ∷ ps) = do n ← parse_hextet p; parse_hextets (acc * 65536 + n) ps

-- The parts, with a last part that holds a dot read as IPv4.
expand_last : List String → Option (List Part)
unfolding has_char ipv4
expand_last [] = some []
expand_last (s ∷ []) =
    if has_char b'.' s
    then (do n ← ipv4 s; some (word (n / 65536) ∷ word (n % 65536) ∷ []))
    else some (text s ∷ [])
expand_last (s ∷ t ∷ more) = do ps ← expand_last (t ∷ more); some (text s ∷ ps)

-- The parts before and after the one blank part that is neither first nor last.
pub data Skip : Type 0 where
  no_skip : Skip
  two_skips : Skip
  skip_at : List Part → List Part → Skip

add_part : Part → Skip → Skip
add_part p no_skip = no_skip
add_part p two_skips = two_skips
add_part p (skip_at hi lo) = skip_at (p ∷ hi) lo

at_blank : List Part → Skip → Skip
at_blank rest no_skip = skip_at [] rest
at_blank rest other = two_skips

-- The loop over `range(1, len(parts) - 1)`; it starts behind the first part.
find_skip : List Part → Skip
unfolding add_part at_blank is_blank
find_skip [] = no_skip
find_skip (p ∷ []) = no_skip
find_skip (p ∷ q ∷ more) =
    let later = find_skip (q ∷ more) in
    if is_blank p then at_blank (q ∷ more) later else add_part p later

-- A blank first part stands only directly before "::", and a blank last part directly behind it.
trim_first : List Part → Option (List Part)
unfolding is_blank
trim_first [] = some []
trim_first (p ∷ ps) =
    if is_blank p then (if nat_eq (length ps) 0 then some [] else none) else some (p ∷ ps)

trim_last : List Part → Option (List Part)
unfolding trim_first
trim_last ps = do qs ← trim_first (reverse ps); some (reverse qs)

with_skip : List Part → List Part → Option ℕ
unfolding parse_hextets trim_first trim_last
with_skip hi lo = do
  hi' ← trim_first hi
  lo' ← trim_last lo
  let skipped = 8 - (length hi' + length lo')
  high ← parse_hextets 0 hi'
  if nat_eq skipped 0 then none else parse_hextets (high * 2 ^ (16 * skipped)) lo'

without_skip : List Part → Option ℕ
unfolding parse_hextets
without_skip ps = if nat_eq (length ps) 8 then parse_hextets 0 ps else none

from_skip : Part → List Part → Skip → Option ℕ
unfolding with_skip without_skip
from_skip p ps no_skip = without_skip (p ∷ ps)
from_skip p ps two_skips = none
from_skip p ps (skip_at hi lo) = with_skip (p ∷ hi) lo

from_parts : List Part → Option ℕ
unfolding from_skip find_skip
from_parts [] = none
from_parts (p ∷ ps) = if leb (length (p ∷ ps)) 9 then from_skip p ps (find_skip ps) else none

-- _split_scope_id: what stands before a "%"
without_scope : String → Option String
unfolding has_char before_char after_char
without_scope s =
    if has_char b'%' s
    then (if non_empty (after_char b'%' s) && not (has_char b'%' (after_char b'%' s))
        then some (before_char b'%' s)
        else none)
    else some s

-- int(IPv6Address(s))
unfoldable pub ipv6 : String → Option ℕ
unfolding without_scope expand_last from_parts split
ipv6 s = do
  bare ← without_scope s
  ps ← expand_last (split b':' bare)
  if leb 3 (length (split b':' bare)) then from_parts ps else none
