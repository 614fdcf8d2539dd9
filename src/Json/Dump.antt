-- ===== src/Json/Dump.antt =====
-- json.dumps(value, …) as the tools call it: in the order of the dict or sorted by key, on one line
-- or indented, with and without `ensure_ascii`.
pub mod Brackets
use Prim.Native.String
use netplex_support.Prelude.{
  ℕ, zero, suc, ◌+◌, ◌*◌, String, Bool, true, false, Option, none, some, List, [], ◌∷◌, map,
  if◌then◌else◌, ◌≡◌, refl,
}
use netplex_support.Prelude.Int.{decimal_ℤ, pos}
use netplex_support.Json.{
  Value, null, bool, int, float, str, arr, obj, Items, nil, cons, Members, end, member,
}
use netplex_support.Json.Write.{quoted, sort_members}

infixr 66 ◌⧺◌
abbrev pub ◌⧺◌ : String → String → String
s ⧺ t = String.◌++◌ s t

pub record Style : Type 0 where
  pub sorted : Bool
  pub ascii : Bool
  pub indent : Option ℕ
  pub item_sep : String
  pub colon : String

-- separators=(",", ":"), ensure_ascii=False
abbrev pub compact : Style
compact = record { sorted = false; ascii = false; indent = none; item_sep = ","; colon = ":" }

-- indent=2
abbrev pub indented : Style
indented = record { sorted = false; ascii = true; indent = some 2; item_sep = ","; colon = ": " }

-- sort_keys=True
abbrev pub one_line : Style
one_line = record { sorted = true; ascii = true; indent = none; item_sep = ", "; colon = ": " }

abbrev spaces : ℕ → String
spaces zero = ""
spaces (suc n) = " " ⧺ spaces n

abbrev pub newline : Option ℕ → ℕ → String
newline none level = ""
newline (some n) level = "\n" ⧺ spaces (n * level)

join : String → List String → String
join sep [] = ""
join sep (v ∷ []) = v
join sep (v ∷ w ∷ vs) = v ⧺ (sep ⧺ join sep (w ∷ vs))

-- Texts between brackets, which stand at a level of nesting.
unfoldable pub bracketed : Style → ℕ → String → String → List String → String
unfolding join
bracketed st level opening closing [] = opening ⧺ closing
bracketed st level opening closing (v ∷ vs) =
    opening
    ⧺ newline st.indent (suc level)
    ⧺ join (st.item_sep ⧺ newline st.indent (suc level)) (v ∷ vs)
    ⧺ newline st.indent level
    ⧺ closing

abbrev member_text : Style → String × String → String
member_text st (k, v) = quoted st.ascii k ⧺ st.colon ⧺ v

abbrev in_order : Bool → List (String × String) → List (String × String)
in_order true ms = sort_members ms
in_order false ms = ms

unfoldable mutual
  unfolding decimal_ℤ quoted bracketed sort_members

  -- `float_text` is how a float is written.
  pub dump : Style → (String → String) → ℕ → Value → String
  dump st float_text level null = "null"
  dump st float_text level (bool true) = "true"
  dump st float_text level (bool false) = "false"
  dump st float_text level (int n) = decimal_ℤ n
  dump st float_text level (float s) = float_text s
  dump st float_text level (str s) = quoted st.ascii s
  dump st float_text level (arr xs) =
      bracketed st level "[" "]" (dump_items st float_text (suc level) xs)
  dump st float_text level (obj ms) =
      bracketed st level "{" "}"
        (map (member_text st) (in_order st.sorted (dump_members st float_text (suc level) ms)))

  pub dump_items : Style → (String → String) → ℕ → Items → List String
  dump_items st float_text level nil = []
  dump_items st float_text level (cons v vs) =
      dump st float_text level v ∷ dump_items st float_text level vs

  pub dump_members : Style → (String → String) → ℕ → Members → List (String × String)
  dump_members st float_text level end = []
  dump_members st float_text level (member k v ms) =
      (k, dump st float_text level v) ∷ dump_members st float_text level ms

abbrev sample : Value
sample = obj (member "b" (arr (cons (int (pos 4)) (cons (obj end) nil))) (member "a" (str "é") end))

dump_tests :
    (dump compact (λ s. s) 0 sample ≡ "{\"b\":[4,{}],\"a\":\"é\"}")
    × (dump one_line (λ s. s) 0 sample ≡ "{\"a\": \"\\u00e9\", \"b\": [4, {}]}")
    × (dump indented (λ s. s) 0 sample
        ≡ "{\n  \"b\": [\n    4,\n    {}\n  ],\n  \"a\": \"\\u00e9\"\n}")
unfolding dump
dump_tests = (refl, refl, refl)
