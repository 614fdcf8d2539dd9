-- ===== src/Attribution/Pattern.antt =====
-- Python's `re`, as far as the pattern of _scan in tools/attribute_leak.py goes: a sequence of
-- bytes of a class, and of greedy repetitions of such bytes, with backtracking.
pub mod Matches
pub mod Shape
pub mod Plain
pub mod Meets
pub mod Nested
use Prim.Native.Char.{code}
use Prim.Native.String
use netplex_support.Prelude.{
  ℕ, zero, suc, ◌-◌, String, Bool, true, false, ◌&&◌, ◌||◌, not, Option, none, some, List, [], ◌∷◌,
  ◌++◌, nat_eq, leb, length, take, if◌then◌else◌,
}
use netplex_support.Base64.{Bytes}

pub data Item : Type 0 where
  one : (ℕ → Bool) → Item
  star : (ℕ → Bool) → Item

-- The bytes of an ASCII text, each to be met.
abbrev pub literal : String → List Item
literal String.[] = []
literal (String.◌∷◌ c s) = one (λ b. nat_eq b (code c)) ∷ literal s

-- [^{}]
abbrev pub no_brace : ℕ → Bool
no_brace b = not (nat_eq b b'{') && not (nat_eq b b'}')

-- \s, of bytes
abbrev pub is_blank : ℕ → Bool
is_blank b = (leb 9 b && leb b 13) || nat_eq b 32

-- The tails of the pattern, from its end on.
abbrev pub closing : List Item
closing = star no_brace ∷ literal "}" ++ (star no_brace ∷ literal "}")

abbrev pub alg_value : List Item
alg_value = star is_blank ∷ literal "\"ed25519\"" ++ closing

abbrev pub alg_colon : List Item
alg_colon = star is_blank ∷ literal ":" ++ alg_value

abbrev pub block : List Item
block = star no_brace ∷ literal "\"alg\"" ++ alg_colon

abbrev pub block_start : List Item
block_start = star is_blank ∷ literal "{" ++ block

abbrev pub signature_colon : List Item
signature_colon = star is_blank ∷ literal ":" ++ block_start

abbrev pub members : List Item
members = star no_brace ∷ literal "\"signature\"" ++ signature_colon

-- {[^{}]*"signature"\s*:\s*{[^{}]*"alg"\s*:\s*"ed25519"[^{}]*}[^{}]*}
abbrev pub signed_blob : List Item
signed_blob = literal "{" ++ members

abbrev or_else : Option Bytes → Option Bytes → Option Bytes
or_else (some r) later = some r
or_else none later = later

-- What a match at the start of the text leaves behind it, of the first match in the order in which
-- `re` tries.
unfoldable pub match : List Item → Bytes → Option Bytes
match [] s = some s
match (one p ∷ is) [] = none
match (one p ∷ is) (c ∷ s) = let rest = match is s in if p c then rest else none
match (star p ∷ is) [] = match is []
match (star p ∷ is) (c ∷ s) =
    let longer = match (star p ∷ is) s in
    let stop = match is (c ∷ s) in if p c then or_else longer stop else stop

-- What is found from a position on; `again` searches behind a number of bytes more.
abbrev found_at : Bytes → Option Bytes → (ℕ → List Bytes) → List Bytes
found_at s none again = again 0
found_at s (some r) again = let n = length s - length r in take n s ∷ again (n - 1)

-- finditer, behind `skip` bytes that belong to the match before; the pattern matches no empty text.
unfoldable pub find_from : List Item → ℕ → Bytes → List Bytes
unfolding match
find_from is skip [] = []
find_from is (suc k) (c ∷ s) = find_from is k s
find_from is zero (c ∷ s) = found_at (c ∷ s) (match is (c ∷ s)) (λ k. find_from is k s)

unfoldable pub find_all : List Item → Bytes → List Bytes
unfolding find_from
find_all is s = find_from is 0 s
