-- ===== src/Json/Write/Reorder.antt =====
-- Sorting by keys forgets the order of members with different keys.
use Prim.Native.Nat.{Ordering}
use Prim.Native.String.{compare}
use text.Mathlib.TextEquality.{path_by_compare}
use netplex_support.Prelude.{
  String, true, false, List, [], ◌∷◌, ◌≡◌, ◌≢◌, inl, inr, refl, sym, ap, ◌∙◌, Bool-cases,
}
use netplex_support.Prelude.Text.Order.{
  Ordering-cases, compare_flip, compare_trans, compare_flip_lt,
}
use netplex_support.Json.Write.{insert_member, sort_members, key_before}

before_lt : (a b : String × String) → compare a.0 b.0 ≡ Ordering.lt → key_before a b ≡ true
before_lt a b h = rw (key_before, h)

not_before : (a b : String × String) → compare a.0 b.0 ≡ Ordering.gt → key_before a b ≡ false
not_before a b h = rw (key_before, h)

-- A key that is below another comes before what that other comes before.
below_both :
    (a b n : String × String)
    → compare a.0 b.0 ≡ Ordering.lt
    → key_before b n ≡ true
    → key_before a n ≡ true
below_both a b n h k = elim (Ordering-cases (compare b.0 n.0)) [
  | inl e ↦ before_lt a n (compare_trans a.0 b.0 n.0 h e)
  | inr (inl e) ↦ before_lt a n (ap (compare a.0) (sym (path_by_compare b.0 n.0 e)) ∙ h)
  | inr (inr e) ↦ let no = not_before b n e in cc
]

module _ (a b : String × String) (h : compare a.0 b.0 ≡ Ordering.lt) where
  first : key_before a b ≡ true
  first = before_lt a b h

  second : key_before b a ≡ false
  second = not_before b a (compare_flip_lt a.0 b.0 h)

  insert_below :
      (ms : List (String × String))
      → insert_member a (insert_member b ms) ≡ insert_member b (insert_member a ms)
  unfolding insert_member
  insert_below [] = rw (first, second) refl
  insert_below (n ∷ ns) = elim (Bool-cases (key_before b n)) [
    | inl e ↦ rw (e, below_both a b n h e) (rw (first, second) (rw e refl))
    | inr e ↦ elim (Bool-cases (key_before a n)) [
      | inl f ↦ rw (e, f) (rw second (rw e refl))
      | inr f ↦ rw (e, f) (rw e (ap (λ ms. n ∷ ms) (insert_below ns)))
    ]
  ]

pub sort_members-swap :
    (a b : String × String) (ms : List (String × String))
    → a.0 ≢ b.0
    → sort_members (a ∷ b ∷ ms) ≡ sort_members (b ∷ a ∷ ms)
unfolding sort_members
sort_members-swap a b ms other = elim (Ordering-cases (compare a.0 b.0)) [
  | inl e ↦ insert_below a b e (sort_members ms)
  | inr (inl e) ↦ absurd (other (path_by_compare a.0 b.0 e))
  | inr (inr e) ↦ sym (insert_below b a (compare_flip a.0 b.0 e) (sort_members ms))
]

pub sort_members-keep :
    (a : String × String) (ms ns : List (String × String))
    → sort_members ms ≡ sort_members ns
    → sort_members (a ∷ ms) ≡ sort_members (a ∷ ns)
unfolding sort_members
sort_members-keep a ms ns h = ap (insert_member a) h
