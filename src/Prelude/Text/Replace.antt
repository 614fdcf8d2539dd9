-- ===== src/Prelude/Text/Replace.antt =====
-- Python's str.replace, for a text to be replaced that is not empty.
use Prim.Native.Char.{Char, code}
use Prim.Native.Nat.{ℕ, zero, suc}
use Prim.Native.String.{String, [], ◌∷◌, ◌++◌}
use mathlib.Core.Bool.{Bool, true, false, ◌&&◌, not}
use mathlib.Core.Path.{◌≡◌, refl, ap, ◌∙◌}
use text.Mathlib.TextLemmas.{nil-append, cons-append}
use text.Mathlib.TextEquality.{Char-path}
use netplex_support.Prelude.Tests.{nat_eq, if◌then◌else◌}
use native.Mathlib.Omega.{arith}
use netplex_support.Prelude.Text.{all_chars, count_chars}

-- s.startswith(t)
unfoldable pub starts_with : String → String → Bool
starts_with s [] = true
starts_with [] (d ∷ t) = false
starts_with (c ∷ s) (d ∷ t) = nat_eq (code c) (code d) && starts_with s t

-- s.replace(first + rest, new), behind the next `skip` characters of s, which a replaced text covers
unfoldable pub replace_from : Char → String → String → ℕ → String → String
unfolding starts_with count_chars
replace_from first rest new skip [] = []
replace_from first rest new (suc n) (c ∷ s) = replace_from first rest new n s
replace_from first rest new zero (c ∷ s) =
    let behind = replace_from first rest new (count_chars rest) s in
    let kept = c ∷ replace_from first rest new zero s in
    if starts_with (c ∷ s) (first ∷ rest) then new ++ behind else kept

replace_tests :
    (replace_from "a" "a" "b" 0 "aaaxa" ≡ "baxa") × (replace_from "{" "k}" "" 0 "{{k}}" ≡ "{}")
unfolding replace_from starts_with count_chars
replace_tests = (refl, refl)

nat_eq_refl : (n : ℕ) → nat_eq n n ≡ true
nat_eq_refl n = ground arith

nat_eq→eq : (a b : ℕ) → nat_eq a b ≡ true → a ≡ b
nat_eq→eq a b h = ground arith

starts_with-append : (t s : String) → starts_with (t ++ s) t ≡ true
unfolding starts_with
starts_with-append [] s = refl
starts_with-append (c ∷ t) s = rw (cons-append, nat_eq_refl) (starts_with-append t s)

-- Texts that do not have the character `n`.
abbrev pub lacks : ℕ → String → Bool
lacks n = all_chars (λ c. not (nat_eq c n))

lacks_head : (n : ℕ) (c : Char) (s : String) → lacks n (c ∷ s) ≡ true → nat_eq (code c) n ≡ false
unfolding all_chars
lacks_head n c s h = ground arith

lacks_tail : (n : ℕ) (c : Char) (s : String) → lacks n (c ∷ s) ≡ true → lacks n s ≡ true
unfolding all_chars
lacks_tail n c s h = ground arith

-- Of two names without the character behind them, only the same is found.
pub starts_with-eq :
    (k j : String) (e : Char) (s t : String)
    → lacks (code e) k ≡ true
    → lacks (code e) j ≡ true
    → starts_with (k ++ (e ∷ s)) (j ++ (e ∷ t)) ≡ true
    → k ≡ j
unfolding starts_with
starts_with-eq [] [] e s t h m f = refl
starts_with-eq [] (d ∷ j) e s t h m f =
    let g : starts_with (e ∷ s) (d ∷ (j ++ (e ∷ t))) ≡ true = rw (nil-append, cons-append) at f in
    let no = lacks_head (code e) d j m in absurd (ground (arith, no, g))
starts_with-eq (c ∷ k) [] e s t h m f =
    let g : starts_with (c ∷ (k ++ (e ∷ s))) (e ∷ t) ≡ true = rw (nil-append, cons-append) at f in
    let no = lacks_head (code e) c k h in absurd (ground (arith, no, g))
starts_with-eq (c ∷ k) (d ∷ j) e s t h m f =
    let g : starts_with (c ∷ (k ++ (e ∷ s))) (d ∷ (j ++ (e ∷ t))) ≡ true =
      rw (cons-append c k, cons-append d j) at f in
    let same : code c ≡ code d = nat_eq→eq (code c) (code d) (ground arith) in
    let rest =
      starts_with-eq k j e s t (lacks_tail (code e) c k h) (lacks_tail (code e) d j m)
        (ground arith) in
    ap (λ x. x ∷ k) (Char-path c d same) ∙ ap (λ x. d ∷ x) rest

module _ (first : Char) (rest new : String) where
  abbrev replaced : String → String
  replaced = replace_from first rest new zero

  pub replace-lacks :
      (t s : String) → lacks (code first) t ≡ true → replaced (t ++ s) ≡ t ++ replaced s
  unfolding replace_from starts_with
  replace-lacks [] s h = ap replaced (nil-append s) ∙ rw nil-append refl
  replace-lacks (c ∷ t) s h =
      rw (cons-append c t, lacks_head (code first) c t h)
        (rw (replace-lacks t s (lacks_tail (code first) c t h), cons-append) refl)

  skipped : (t s : String) → replace_from first rest new (count_chars t) (t ++ s) ≡ replaced s
  unfolding replace_from count_chars
  skipped [] s = ap replaced (nil-append s)
  skipped (c ∷ t) s = rw cons-append (skipped t s)

  pub replace-here : (s : String) → replaced (first ∷ (rest ++ s)) ≡ new ++ replaced s
  unfolding replace_from starts_with
  replace-here s = rw (nat_eq_refl, starts_with-append) (ap (λ x. new ++ x) (skipped rest s))

  pub replace-other :
      (c : Char) (s : String)
      → starts_with (c ∷ s) (first ∷ rest) ≡ false
      → replaced (c ∷ s) ≡ c ∷ replaced s
  unfolding replace_from
  replace-other c s h = rw h refl
