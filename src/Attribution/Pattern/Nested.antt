-- ===== src/Attribution/Pattern/Nested.antt =====
-- Where the pattern matches nothing: it takes one `{` before the member `signature`, so that a dict
-- that stands earlier hides it.
use netplex_support.Prelude.{
  ℕ, true, false, none, List, [], ◌∷◌, ◌++◌, ◌≡◌, ◌≢◌, ◌⊎◌, inl, inr, refl, sym, ap, ◌∙◌,
  Option-cases, arith, All, nat_eq, if◌then◌else◌,
}
use netplex_support.Prelude.Text.Utf8.{utf8}
use netplex_support.Base64.{Bytes}
use netplex_support.Attribution.Pattern.{
  Item, star, literal, no_brace, is_blank, block, signed_blob, match, find_from, find_all,
}
use netplex_support.Attribution.Pattern.Matches.{match_sound}
use netplex_support.Attribution.Pattern.Meets.{
  Plain, nat_eq→eq, Meets, to-Meets, IsPlainItem, split-Meets, Meets-Plain, first_brace,
}

-- What the pattern takes before the brace of the signature's value, in two parts.
abbrev before_e : List Item
before_e = star no_brace ∷ literal "\"signatur"

abbrev from_e : List Item
from_e = literal "e\"" ++ (star is_blank ∷ literal ":" ++ (star is_blank ∷ []))

abbrev head : List Item
head = before_e ++ from_e

head_plain : All IsPlainItem head
unfolding IsPlainItem
head_plain = ground arith

-- What stands at the end of a text: `seen c` for a quote behind `c`, `colon c` for such a quote and
-- a colon behind it, blanks aside.
pub data End : Type 0 where
  other seen colon : ℕ → End

step : End → ℕ → End
step (other c) b = if nat_eq b 34 then seen c else other b
step (seen c) b =
    if is_blank b
    then seen c
    else if nat_eq b 58
    then colon c
    else if nat_eq b 34
    then seen 34
    else other b
step (colon c) b = if is_blank b then colon c else if nat_eq b 34 then seen 58 else other b

pub end_of : End → Bytes → End
end_of q [] = q
end_of q (b ∷ bs) = end_of (step q b) bs

end_of-append : (q : End) (xs ys : Bytes) → end_of q (xs ++ ys) ≡ end_of (end_of q xs) ys
unfolding end_of
end_of-append q [] ys = refl
end_of-append q (x ∷ xs) ys = end_of-append (step q x) xs ys

blanks_end : (c : ℕ) (w : Bytes) → Meets (star is_blank ∷ []) w [] → end_of (colon c) w ≡ colon c
unfolding Meets end_of step
blanks_end c [] m = refl
blanks_end c (b ∷ w) (inl (e, m)) = rw e (blanks_end c w m)
blanks_end c (b ∷ w) (inr m) = cc

step_blank : (c b : ℕ) → is_blank b ≡ true → step (seen c) b ≡ seen c
unfolding step
step_blank c b h = rw h

step_colon : (c b : ℕ) → nat_eq b b':' ≡ true → step (seen c) b ≡ colon c
unfolding step
step_colon c b h = ground arith

step_e : (q : End) (b : ℕ) → nat_eq b b'e' ≡ true → step q b ≡ other b'e'
unfolding step
step_e (other c) b h = ground arith
step_e (seen c) b h = ground arith
step_e (colon c) b h = ground arith

step_quote : (c b : ℕ) → nat_eq b 34 ≡ true → step (other c) b ≡ seen c
unfolding step
step_quote c b h = rw h

colon_end :
    (c : ℕ) (w : Bytes)
    → Meets (star is_blank ∷ literal ":" ++ (star is_blank ∷ [])) w []
    → end_of (seen c) w ≡ colon c
unfolding Meets end_of
colon_end c [] m = absurd m
colon_end c (b ∷ w) (inl (e, m)) = rw (step_blank c b e) (colon_end c w m)
colon_end c (b ∷ w) (inr (e, m)) = rw (step_colon c b e) (blanks_end c w m)

from_e_end : (q : End) (w : Bytes) → Meets from_e w [] → end_of q w ≡ colon b'e'
unfolding Meets end_of
from_e_end q [] m = absurd m
from_e_end q (b ∷ []) m = absurd (m.1)
from_e_end q (b ∷ d ∷ w) m =
    rw (step_e q b (m.0), step_quote b'e' d (m.1.0)) (colon_end b'e' w (m.1.1))

-- The text that the pattern takes before the signature's value ends as its name does.
head_end : (w : Bytes) (q : End) → Meets head w [] → end_of q w ≡ colon b'e'
head_end w q m =
    let (v, u, e, a, b) = split-Meets before_e from_e w [] m in
    ap (end_of q) e ∙ end_of-append q v u ∙ from_e_end (end_of q v) u b

after_head :
    (w v : Bytes) (b : ℕ) (rest m r : Bytes)
    → Plain w
    → no_brace b ≡ false
    → (b ≢ b'{') ⊎ (end_of (other 0) w ≢ colon b'e')
    → w ++ b ∷ rest ≡ v ++ m
    → Meets head v []
    → Meets (literal "{" ++ block) m r
    → ⊥
unfolding Meets
after_head w v b rest [] r h k bad e a n = n
after_head w v b rest (c ∷ m) r h k bad e a n =
    let brace : c ≡ b'{' = nat_eq→eq c b'{' (n.0) in
    let (same, is) =
      first_brace w v b c rest m h (Meets-Plain head v a head_plain) k (rw brace refl) e in
    elim bad [
      | inl other_brace ↦ other_brace (is ∙ brace)
      | inr ends ↦ ends (ap (end_of (other 0)) same ∙ head_end v (other 0) a)
    ]

refuted :
    (w : Bytes) (b : ℕ) (rest r : Bytes)
    → Plain w
    → no_brace b ≡ false
    → (b ≢ b'{') ⊎ (end_of (other 0) w ≢ colon b'e')
    → Meets signed_blob (b'{' ∷ w ++ b ∷ rest) r
    → ⊥
unfolding Meets
refuted w b rest r h k bad m =
    let (v, u, e, a, n) = split-Meets head (literal "{" ++ block) (w ++ b ∷ rest) r (m.1) in
    after_head w v b rest u r h k bad e a n

-- At a brace behind which the next brace does not open the signature's value, nothing is matched.
no_match :
    (w : Bytes) (b : ℕ) (rest : Bytes)
    → Plain w
    → no_brace b ≡ false
    → (b ≢ b'{') ⊎ (end_of (other 0) w ≢ colon b'e')
    → match signed_blob (b'{' ∷ w ++ b ∷ rest) ≡ none
no_match w b rest h k bad = elim (Option-cases (match signed_blob (b'{' ∷ w ++ b ∷ rest))) [
  | inl e ↦ e
  | inr (r, e) ↦ absurd (refuted w b rest r h k bad (to-Meets (match_sound signed_blob _ r e)))
]

no_open : (c : ℕ) → no_brace c ≡ true → nat_eq c b'{' ≡ false
no_open c h = ground arith

-- What is found behind a text with no brace, and behind a brace where nothing is matched.
found_behind :
    (w s : Bytes) → Plain w → find_from signed_blob 0 (w ++ s) ≡ find_from signed_blob 0 s
unfolding find_from
found_behind [] s h = refl
found_behind (c ∷ w) s h = rw (no_open c (h.0)) (found_behind w s (h.1))

found_after_none :
    (c : ℕ) (s : Bytes)
    → match signed_blob (c ∷ s) ≡ none
    → find_from signed_blob 0 (c ∷ s) ≡ find_from signed_blob 0 s
unfolding find_from
found_after_none c s h = rw h

closed_none : (s : Bytes) → match signed_blob (b'}' ∷ s) ≡ none
unfolding match
closed_none s = refl

nothing_left : (z : Bytes) → Plain z → find_from signed_blob 0 z ≡ []
unfolding find_from
nothing_left [] h = refl
nothing_left (c ∷ z) h = rw (no_open c (h.0)) (nothing_left z (h.1))

-- A dict whose member `signature` stands behind another dict: nothing is found.
pub find_all-hidden :
    (w v u t z : Bytes)
    → Plain w
    → Plain v
    → Plain u
    → Plain t
    → Plain z
    → end_of (other 0) w ≢ colon b'e'
    → find_all signed_blob (b'{' ∷ w ++ b'{' ∷ (v ++ b'}' ∷ (u ++ b'{' ∷ (t ++ b'}' ∷ b'}' ∷ z))))
      ≡ []
unfolding find_all
find_all-hidden w v u t z hw hv hu ht hz ends =
    let not_open : b'}' ≢ b'{' = λ e. omega (arith, e) in
    let s4 = t ++ b'}' ∷ b'}' ∷ z in
    let s3 = u ++ b'{' ∷ s4 in
    let s2 = v ++ b'}' ∷ s3 in
    found_after_none b'{' (w ++ b'{' ∷ s2) (no_match w b'{' s2 hw refl (inr ends))
    ∙ found_behind w (b'{' ∷ s2) hw
    ∙ found_after_none b'{' s2 (no_match v b'}' s3 hv refl (inl not_open))
    ∙ found_behind v (b'}' ∷ s3) hv
    ∙ found_after_none b'}' s3 (closed_none s3)
    ∙ found_behind u (b'{' ∷ s4) hu
    ∙ found_after_none b'{' s4 (no_match t b'}' (b'}' ∷ z) ht refl (inl not_open))
    ∙ found_behind t (b'}' ∷ b'}' ∷ z) ht
    ∙ found_after_none b'}' (b'}' ∷ z) (closed_none (b'}' ∷ z))
    ∙ found_after_none b'}' z (closed_none z)
    ∙ nothing_left z hz

colon_inj : (a b : ℕ) → colon a ≡ colon b → a ≡ b
colon_inj a b h = cc

behind_e : end_of (other b'e') (utf8 "ntitlements\":") ≡ colon b's'
unfolding end_of step utf8
behind_e = refl

-- A text that ends in `entitlements":` does not end as the signature's name does.
pub ends_in_s : (w : Bytes) → end_of (other 0) (w ++ (b'e' ∷ utf8 "ntitlements\":")) ≢ colon b'e'
unfolding end_of
ends_in_s w e =
    let q = end_of (other 0) w in
    let letter : end_of (step q b'e') (utf8 "ntitlements\":") ≡ colon b's' =
      ap (λ r. end_of r (utf8 "ntitlements\":")) (step_e q b'e' refl) ∙ behind_e in
    let clash =
      colon_inj b's' b'e'
        (sym (end_of-append (other 0) w (b'e' ∷ utf8 "ntitlements\":") ∙ letter) ∙ e) in
    omega (arith, clash)
