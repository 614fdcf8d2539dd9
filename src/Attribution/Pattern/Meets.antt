-- ===== src/Attribution/Pattern/Meets.antt =====
-- The relation `Matches` by recursion, to split a match at a place of the pattern.
use netplex_support.Prelude.{
  ℕ, Bool, true, false, List, [], ◌∷◌, ◌++◌, ◌≡◌, ◌⊎◌, inl, inr, refl, sym, ap, ◌∙◌, arith, All,
  nat_eq,
}
use netplex_support.Base64.{Bytes}
use netplex_support.Attribution.Pattern.{Item, one, star, no_brace}
use netplex_support.Attribution.Pattern.Matches.{Matches, stop, byte, leave, more}

abbrev pub Plain : Bytes → Type 0
Plain = All (λ b. no_brace b ≡ true)

pub nat_eq→eq : (a b : ℕ) → nat_eq a b ≡ true → a ≡ b
nat_eq→eq a b h = ground arith

pub head_eq : (a b : ℕ) (x y : Bytes) → a ∷ x ≡ b ∷ y → a ≡ b
head_eq a b x y h = cc

pub tail_eq : (a b : ℕ) (x y : Bytes) → a ∷ x ≡ b ∷ y → x ≡ y
tail_eq a b x y h = cc

pub cons_eq : (a b : ℕ) (x y : Bytes) → a ≡ b → x ≡ y → a ∷ x ≡ b ∷ y
cons_eq a b x y h k = cc

-- The relation `Matches`, by recursion on the pattern and the text.
unfoldable pub Meets : List Item → Bytes → Bytes → Type 0
Meets [] s r = s ≡ r
Meets (one p ∷ is) [] r = ⊥
Meets (one p ∷ is) (c ∷ s) r = (p c ≡ true) × Meets is s r
Meets (star p ∷ is) [] r = Meets is [] r
Meets (star p ∷ is) (c ∷ s) r = ((p c ≡ true) × Meets (star p ∷ is) s r) ⊎ Meets is (c ∷ s) r

pub leave-Meets :
    (p : ℕ → Bool) (is : List Item) (s r : Bytes) → Meets is s r → Meets (star p ∷ is) s r
unfolding Meets
leave-Meets p is [] r m = m
leave-Meets p is (c ∷ s) r m = inr m

pub to-Meets : {is : List Item} {s r : Bytes} → Matches is s r → Meets is s r
unfolding Meets
to-Meets stop = refl
to-Meets (byte e m) = (e, to-Meets m)
to-Meets {s} {r} (leave {p} {is} m) = leave-Meets p is s r (to-Meets m)
to-Meets (more e m) = inl (e, to-Meets m)

unfoldable pub IsPlainItem : Item → Type 0
IsPlainItem (one p) = (c : ℕ) → p c ≡ true → no_brace c ≡ true
IsPlainItem (star p) = (c : ℕ) → p c ≡ true → no_brace c ≡ true

-- A match of two patterns in a row is a match of the first, which takes a text of its own, and one
-- of the second.
pub split-Meets :
    (is js : List Item) (s r : Bytes)
    → Meets (is ++ js) s r
    → (w : Bytes) × (m : Bytes) × (s ≡ w ++ m) × Meets is w [] × Meets js m r
unfolding Meets
split-Meets [] js s r h = ([], s, refl, refl, h)
split-Meets (one p ∷ is) js [] r h = absurd h
split-Meets (one p ∷ is) js (c ∷ s) r h =
    let (w, m, q, a, b) = split-Meets is js s r (h.1) in (c ∷ w, m, ap (λ t. c ∷ t) q, (h.0, a), b)
split-Meets (star p ∷ is) js [] r h =
    let (w, m, q, a, b) = split-Meets is js [] r h in (w, m, q, leave-Meets p is w [] a, b)
split-Meets (star p ∷ is) js (c ∷ s) r (inl (e, h)) =
    let (w, m, q, a, b) = split-Meets (star p ∷ is) js s r h in
    (c ∷ w, m, ap (λ t. c ∷ t) q, inl (e, a), b)
split-Meets (star p ∷ is) js (c ∷ s) r (inr h) =
    let (w, m, q, a, b) = split-Meets is js (c ∷ s) r h in (w, m, q, leave-Meets p is w [] a, b)

pub Meets-Plain : (is : List Item) (w : Bytes) → Meets is w [] → All IsPlainItem is → Plain w
unfolding Meets IsPlainItem
Meets-Plain is [] m h = tt
Meets-Plain [] (c ∷ w) m h = cc
Meets-Plain (one p ∷ is) (c ∷ w) m h = (h.0 c (m.0), Meets-Plain is w (m.1) (h.1))
Meets-Plain (star p ∷ is) (c ∷ w) (inl (e, m)) h = (h.0 c e, Meets-Plain (star p ∷ is) w m h)
Meets-Plain (star p ∷ is) (c ∷ w) (inr m) h = Meets-Plain is (c ∷ w) m (h.1)

-- The first brace of a text is where it is.
pub first_brace :
    (w v : Bytes) (a b : ℕ) (x y : Bytes)
    → Plain w
    → Plain v
    → no_brace a ≡ false
    → no_brace b ≡ false
    → w ++ a ∷ x ≡ v ++ b ∷ y
    → (w ≡ v) × (a ≡ b)
first_brace [] [] a b x y h k na nb e = (refl, head_eq a b x y e)
first_brace [] (d ∷ v) a b x y h k na nb e =
    let same = head_eq a d x (v ++ b ∷ y) e in
    let clash : true ≡ false = sym (k.0) ∙ ap no_brace (sym same) ∙ na in cc
first_brace (c ∷ w) [] a b x y h k na nb e =
    let same = head_eq c b (w ++ a ∷ x) y e in
    let clash : true ≡ false = sym (h.0) ∙ ap no_brace same ∙ nb in cc
first_brace (c ∷ w) (d ∷ v) a b x y h k na nb e =
    let same = head_eq c d (w ++ a ∷ x) (v ++ b ∷ y) e in
    let (rest, brace) = first_brace w v a b x y (h.1) (k.1) na nb (tail_eq c d _ _ e) in
    (cons_eq c d w v same rest, brace)
