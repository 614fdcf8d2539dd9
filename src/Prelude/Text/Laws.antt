-- ===== src/Prelude/Text/Laws.antt =====
-- Splitting a text at a separator, and joining two texts by one.
use Prim.Native.Char.{Char, code}
use Prim.Native.Nat.{ℕ}
use Prim.Native.String.{String, [], ◌∷◌, ◌++◌}
use mathlib.Core.List
use mathlib.Core.List.{List, map, map-append}
use mathlib.Core.Path.{◌≡◌, refl, ap, ◌∙◌}
use mathlib.Core.Logic.{inl, inr}
use text.Mathlib.TextLemmas.{nil-append, cons-append}
use netplex_support.Prelude.Tests.{nat_eq, Bool-cases}
use netplex_support.Prelude.Lists.{keep-append}
use netplex_support.Prelude.Text.{extend_head, split, strip, csv, non_empty}

-- The text that a proxy leaves in a header to which it appends what it observed.
abbrev pub join_comma : String → String → String
join_comma forged observed = forged ++ ("," ++ observed)

-- A text splits into at least one part.
split_cons :
    (sep : ℕ) (s : String) → (p : String) × (ps : List String) × (split sep s ≡ List.◌∷◌ p ps)
unfolding split extend_head
split_cons sep [] = ([], List.[], refl)
split_cons sep (c ∷ s) = elim (Bool-cases (nat_eq (code c) sep)) [
  | inl e ↦ ([], split sep s, rw e)
  | inr e ↦ let (p, ps, same) = split_cons sep s in (c ∷ p, ps, rw e (rw same))
]

extend_head-append :
    (c : Char) (sep : ℕ) (s : String) (ps : List String)
    → extend_head c (List.◌++◌ (split sep s) ps) ≡ List.◌++◌ (extend_head c (split sep s)) ps
unfolding extend_head
extend_head-append c sep s ps = let (p, more, same) = split_cons sep s in rw same

split-join : (s t : String) → split b',' (join_comma s t) ≡ List.◌++◌ (split b',' s) (split b',' t)
unfolding split
split-join [] t =
    ap (split b',') (nil-append ("," ++ t) ∙ cons-append "," [] t ∙ ap (◌∷◌ ",") (nil-append t))
split-join (c ∷ s) t = elim (Bool-cases (nat_eq (code c) b',')) [
  | inl e ↦ rw cons-append (rw e (ap (List.◌∷◌ []) (split-join s t)))
  | inr e ↦
      rw cons-append
        (rw e (ap (extend_head c) (split-join s t) ∙ extend_head-append c b',' s (split b',' t)))
]

-- Joining two texts by a comma joins the lists that they hold.
pub csv-join : (s t : String) → csv (join_comma s t) ≡ List.◌++◌ (csv s) (csv t)
unfolding csv
csv-join s t =
    rw split-join
      (rw map-append (keep-append non_empty (map strip (split b',' s)) (map strip (split b',' t))))
