-- ===== src/Prelude/Text/Order.antt =====
-- The order of texts, by code points.
use Prim.Native.Char.{code}
use Prim.Native.Nat
use Prim.Native.Nat.{ℕ, Ordering}
use Prim.Native.String
use Prim.Native.String.{String, compare}
use Prim.Native.String.compare as Compare
use mathlib.Core.Path.{◌≡◌, refl, sym, ◌∙◌}
use mathlib.Core.Logic.{◌⊎◌, inl, inr}
use native.Mathlib.Omega.{arith}
use text.Mathlib.TextPositions.{compare_refl}
use text.Mathlib.TextEquality.{path_by_compare}

pub Ordering-cases : (o : Ordering) → (o ≡ Ordering.lt) ⊎ ((o ≡ Ordering.eq) ⊎ (o ≡ Ordering.gt))
Ordering-cases Ordering.lt = inl refl
Ordering-cases Ordering.eq = inr (inl refl)
Ordering-cases Ordering.gt = inr (inr refl)

flip_then :
    (m n : ℕ) (o o' : Ordering)
    → (o ≡ Ordering.gt → o' ≡ Ordering.lt)
    → String.then (Nat.compare m n) o ≡ Ordering.gt
    → String.then (Nat.compare n m) o' ≡ Ordering.lt
flip_then m n o o' flip h = elim (Ordering-cases (Nat.compare m n)) [
  | inl e ↦ cc (rw e at h)
  | inr (inl e) ↦
      let same : Nat.compare n m ≡ Ordering.eq = ground arith in rw same (flip (rw e at h))
  | inr (inr e) ↦ let less : Nat.compare n m ≡ Ordering.lt = ground arith in rw less
]

-- The order, read from the other side.
pub compare_flip : (s t : String) → compare s t ≡ Ordering.gt → compare t s ≡ Ordering.lt
compare_flip String.[] String.[] h = cc
compare_flip String.[] (String.◌∷◌ d t) h = cc (Compare.nil-cons d t)
compare_flip (String.◌∷◌ c s) String.[] h = Compare.nil-cons c s
compare_flip (String.◌∷◌ c s) (String.◌∷◌ d t) h =
    Compare.cons-cons d c t s
    ∙ flip_then (code c) (code d) (compare s t) (compare t s) (compare_flip s t)
        (sym (Compare.cons-cons c d s t) ∙ h)

then_trans :
    (l m n : ℕ) (a b c : Ordering)
    → (a ≡ Ordering.lt → b ≡ Ordering.lt → c ≡ Ordering.lt)
    → String.then (Nat.compare l m) a ≡ Ordering.lt
    → String.then (Nat.compare m n) b ≡ Ordering.lt
    → String.then (Nat.compare l n) c ≡ Ordering.lt
then_trans l m n a b c rest h k = elim (Ordering-cases (Nat.compare l m)) [
  | inl e ↦ elim (Ordering-cases (Nat.compare m n)) [
    | inl f ↦ let less : Nat.compare l n ≡ Ordering.lt = ground arith in rw less
    | inr (inl f) ↦ let less : Nat.compare l n ≡ Ordering.lt = ground arith in rw less
    | inr (inr f) ↦ cc (rw f at k)
  ]
  | inr (inl e) ↦ elim (Ordering-cases (Nat.compare m n)) [
    | inl f ↦ let less : Nat.compare l n ≡ Ordering.lt = ground arith in rw less
    | inr (inl f) ↦
        let same : Nat.compare l n ≡ Ordering.eq = ground arith in
        rw same (rest (rw e at h) (rw f at k))
    | inr (inr f) ↦ cc (rw f at k)
  ]
  | inr (inr e) ↦ cc (rw e at h)
]

pub compare_trans :
    (r s t : String)
    → compare r s ≡ Ordering.lt
    → compare s t ≡ Ordering.lt
    → compare r t ≡ Ordering.lt
compare_trans String.[] String.[] String.[] h k = k
compare_trans String.[] (String.◌∷◌ d s) String.[] h k = cc (Compare.cons-nil d s)
compare_trans String.[] s (String.◌∷◌ e t) h k = Compare.nil-cons e t
compare_trans (String.◌∷◌ c r) String.[] t h k = cc (Compare.cons-nil c r)
compare_trans (String.◌∷◌ c r) (String.◌∷◌ d s) String.[] h k = cc (Compare.cons-nil d s)
compare_trans (String.◌∷◌ c r) (String.◌∷◌ d s) (String.◌∷◌ e t) h k =
    Compare.cons-cons c e r t
    ∙ then_trans (code c) (code d) (code e) (compare r s) (compare s t) (compare r t)
        (compare_trans r s t) (sym (Compare.cons-cons c d r s) ∙ h)
        (sym (Compare.cons-cons d e s t) ∙ k)

pub compare_flip_lt : (s t : String) → compare s t ≡ Ordering.lt → compare t s ≡ Ordering.gt
compare_flip_lt s t h = elim (Ordering-cases (compare t s)) [
  | inl e ↦ let loop = compare_trans s t s h e in let same = compare_refl s in cc
  | inr (inl e) ↦ let same = path_by_compare t s e in let loop = compare_refl s in cc
  | inr (inr e) ↦ e
]
