-- ===== src/Json/Write.antt =====
-- json.dumps(value, sort_keys=True, separators=(",", ":")), with and without `ensure_ascii`.
pub mod Characters
pub mod Reorder
use Prim.Native.Char.{Char, code}
use Prim.Native.Nat.{Ordering}
use Prim.Native.String
use Prim.Native.String.{compare}
use netplex_support.Prelude.{
  ℕ, ◌+◌, ◌-◌, ◌/◌, ◌%◌, String, Bool, true, false, ◌&&◌, ◌||◌, Option, none, some, List, [], ◌∷◌,
  nat_eq, ltb, leb, if◌then◌else◌, ◌≡◌, refl,
}
use netplex_support.Prelude.Int.{decimal_ℤ, digit_char, negsuc}
use netplex_support.Json.{
  Value, null, bool, int, float, str, arr, obj, Items, nil, cons, Members, end, member,
}

infixr 66 ◌⧺◌
abbrev ◌⧺◌ : String → String → String
s ⧺ t = String.◌++◌ s t

-- `\uXXXX` for a number of 16 bits, in front of `rest`
hex_escape : ℕ → String → String
unfolding digit_char
hex_escape n rest =
    "\\u"
    ⧺ String.◌∷◌ (digit_char (n / 4096)) (
        String.◌∷◌ (digit_char (n / 256 % 16))
          (String.◌∷◌ (digit_char (n / 16 % 16)) (String.◌∷◌ (digit_char (n % 16)) rest)))

-- The characters with an escape of two characters.
abbrev short_escapes : List (ℕ × String)
short_escapes =
    (0x22, "\\\"")
    ∷ (0x5c, "\\\\")
    ∷ (10, "\\n")
    ∷ (13, "\\r")
    ∷ (9, "\\t")
    ∷ (12, "\\f")
    ∷ (8, "\\b")
    ∷ []

short_escape : ℕ → List (ℕ × String) → Option String
short_escape n [] = none
short_escape n ((m, s) ∷ es) = if nat_eq m n then some s else short_escape n es

-- One character that has no short escape, in front of `rest`.
long_escape : Bool → Char → String → String
unfolding hex_escape
long_escape ascii c rest =
    let n = code c in
    if ltb n 32 || (ascii && ltb 126 n && ltb n 0x10000)
    then hex_escape n rest
    else if ascii && leb 0x10000 n
    then hex_escape (0xd800 + (n - 0x10000) / 1024)
        (hex_escape (0xdc00 + (n - 0x10000) % 1024) rest)
    else String.◌∷◌ c rest

escape_char : Bool → Char → String → Option String → String
unfolding long_escape
escape_char ascii c rest (some s) = s ⧺ rest
escape_char ascii c rest none = long_escape ascii c rest

escape : Bool → String → String
unfolding escape_char short_escape
escape ascii String.[] = ""
escape ascii (String.◌∷◌ c s) =
    escape_char ascii c (escape ascii s) (short_escape (code c) short_escapes)

unfoldable pub quoted : Bool → String → String
unfolding escape
quoted ascii s = "\"" ⧺ (escape ascii s ⧺ "\"")

abbrev key_before : String × String → String × String → Bool
key_before a b = elim (compare a.0 b.0) [ Ordering.gt ↦ false | _ ↦ true ]

insert_member : String × String → List (String × String) → List (String × String)
insert_member m [] = m ∷ []
insert_member m (n ∷ ns) =
    let rest = insert_member m ns in if key_before m n then m ∷ n ∷ ns else n ∷ rest

-- sorted(d.items()), by the keys
unfoldable pub sort_members : List (String × String) → List (String × String)
unfolding insert_member
sort_members [] = []
sort_members (m ∷ ms) = insert_member m (sort_members ms)

join_members : Bool → List (String × String) → String
unfolding quoted
join_members ascii [] = ""
join_members ascii ((k, v) ∷ []) = quoted ascii k ⧺ (":" ⧺ v)
join_members ascii ((k, v) ∷ m ∷ ms) =
    quoted ascii k ⧺ (":" ⧺ (v ⧺ ("," ⧺ join_members ascii (m ∷ ms))))

-- {…} of members whose values are written already
unfoldable pub write_members : Bool → List (String × String) → String
unfolding sort_members join_members
write_members ascii ms = "{" ⧺ (join_members ascii (sort_members ms) ⧺ "}")

join_items : List String → String
join_items [] = ""
join_items (v ∷ []) = v
join_items (v ∷ w ∷ vs) = v ⧺ ("," ⧺ join_items (w ∷ vs))

spaced_texts : List String → String
unfolding quoted
spaced_texts [] = ""
spaced_texts (s ∷ []) = quoted true s
spaced_texts (s ∷ t ∷ ts) = quoted true s ⧺ (", " ⧺ spaced_texts (t ∷ ts))

-- json.dumps(texts) of a list of texts, with the default separators
unfoldable pub write_texts : List String → String
unfolding spaced_texts
write_texts texts = "[" ⧺ (spaced_texts texts ⧺ "]")

unfoldable mutual
  unfolding decimal_ℤ quoted write_members join_items

  -- `float_text` is how a float is written.
  pub write : Bool → (String → String) → Value → String
  write ascii float_text null = "null"
  write ascii float_text (bool true) = "true"
  write ascii float_text (bool false) = "false"
  write ascii float_text (int n) = decimal_ℤ n
  write ascii float_text (float s) = float_text s
  write ascii float_text (str s) = quoted ascii s
  write ascii float_text (arr xs) = "[" ⧺ (join_items (write_items ascii float_text xs) ⧺ "]")
  write ascii float_text (obj ms) = write_members ascii (member_texts ascii float_text ms)

  pub write_items : Bool → (String → String) → Items → List String
  write_items ascii float_text nil = []
  write_items ascii float_text (cons v vs) =
      write ascii float_text v ∷ write_items ascii float_text vs

  pub member_texts : Bool → (String → String) → Members → List (String × String)
  member_texts ascii float_text end = []
  member_texts ascii float_text (member k v ms) =
      (k, write ascii float_text v) ∷ member_texts ascii float_text ms

write_tests :
    (write false
        (λ s. s)
        (obj
          (member "b" (arr (cons (int (negsuc 4)) (cons null nil))) (member "a" (str "é\n\"") end)))
      ≡ "{\"a\":\"é\\n\\\"\",\"b\":[-5,null]}")
    × (write true (λ s. s) (str "é𝄞") ≡ "\"\\u00e9\\ud834\\udd1e\"")
unfolding write
write_tests = (refl, refl)
