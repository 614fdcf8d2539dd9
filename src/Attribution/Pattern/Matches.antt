-- ===== src/Attribution/Pattern/Matches.antt =====
-- What a pattern matches, as a relation, and that `match` decides it.
use netplex_support.Prelude.{
  ℕ, suc, ◌+◌, ◌-◌, Bool, true, false, Option, none, some, List, [], ◌∷◌, ◌++◌, ◌≡◌, ◌≢◌, ◌⊎◌, inl,
  inr, refl, ap, ◌∙◌, Bool-cases, Option-cases, arith, All, All-append, length, take, nat_eq,
  String,
}
use Prim.Native.Char.{code}
use netplex_support.Base64.{Bytes}
use netplex_support.Attribution.Pattern.{
  Item, one, star, literal, no_brace, is_blank, closing, alg_value, alg_colon, block, block_start,
  signature_colon, members, signed_blob, match, or_else, find_from, find_all,
}

-- The pattern matches a text but for a rest.
pub data Matches : List Item → Bytes → Bytes → Type 0 where
  stop : {s : Bytes} → Matches [] s s
  byte :
      {p : ℕ → Bool} {is : List Item} {c : ℕ} {s r : Bytes}
      → p c ≡ true
      → Matches is s r
      → Matches (one p ∷ is) (c ∷ s) r
  leave : {p : ℕ → Bool} {is : List Item} {s r : Bytes} → Matches is s r → Matches (star p ∷ is) s r
  more :
      {p : ℕ → Bool} {is : List Item} {c : ℕ} {s r : Bytes}
      → p c ≡ true
      → Matches (star p ∷ is) s r
      → Matches (star p ∷ is) (c ∷ s) r

some-inj : {A : Type 0} (a b : A) → some a ≡ some b → a ≡ b
some-inj a b h = cc

retract : (is : List Item) (s r r' : Bytes) → Matches is s r → some r ≡ some r' → Matches is s r'
retract is s r r' m e = rw (← some-inj r r' e) m

or_else-eq : (a b : Option Bytes) (r : Bytes) → or_else a b ≡ some r → (a ≡ some r) ⊎ (b ≡ some r)
or_else-eq none b r h = inr h
or_else-eq (some x) b r h = inl h

pub match_sound : (is : List Item) (s r : Bytes) → match is s ≡ some r → Matches is s r
unfolding match
match_sound [] s r h = retract [] s s r stop h
match_sound (one p ∷ is) [] r h = cc
match_sound (one p ∷ is) (c ∷ s) r h = elim (Bool-cases (p c)) [
  | inl e ↦ byte e (match_sound is s r (rw e at h))
  | inr e ↦ cc (rw e at h)
]
match_sound (star p ∷ is) [] r h = leave (match_sound is [] r h)
match_sound (star p ∷ is) (c ∷ s) r h = elim (Bool-cases (p c)) [
  | inl e ↦ elim (or_else-eq _ _ r (rw e at h)) [
    | inl longer ↦ more e (match_sound (star p ∷ is) s r longer)
    | inr here ↦ leave (match_sound is (c ∷ s) r here)
  ]
  | inr e ↦ leave (match_sound is (c ∷ s) r (rw e at h))
]

or_else_some : (a b : Option Bytes) → (a ≢ none) ⊎ (b ≢ none) → or_else a b ≢ none
or_else_some none b (inl h) = absurd (h refl)
or_else_some none b (inr h) = h
or_else_some (some x) b h = λ e. cc

leave_some :
    (p : ℕ → Bool) (is : List Item) (c : ℕ) (s : Bytes)
    → match is (c ∷ s) ≢ none
    → match (star p ∷ is) (c ∷ s) ≢ none
unfolding match
leave_some p is c s h = elim (Bool-cases (p c)) [
  | inl e ↦ rw e (or_else_some _ _ (inr h))
  | inr e ↦ rw e h
]

match_complete : {is : List Item} {s r : Bytes} → Matches is s r → match is s ≢ none
unfolding match
match_complete stop = λ e. cc
match_complete (byte e m) = rw e (match_complete m)
match_complete {s = []} (leave m) = match_complete m
match_complete {s = c ∷ s} (leave {p} {is} m) = leave_some p is c s (match_complete m)
match_complete (more e m) = rw e (or_else_some _ _ (inl (match_complete m)))

-- Ways to build a match.
pub through :
    {p : ℕ → Bool} {is : List Item} (w : Bytes) {s r : Bytes}
    → All (λ c. p c ≡ true) w
    → Matches is s r
    → Matches (star p ∷ is) (w ++ s) r
through [] h m = leave m
through (c ∷ w) h m = more (h.0) (through w (h.1) m)

abbrev pub codes : String → Bytes
codes String.[] = []
codes (String.◌∷◌ c t) = code c ∷ codes t

nat_eq_refl : (n : ℕ) → nat_eq n n ≡ true
nat_eq_refl n = ground arith

pub meet :
    (t : String) {is : List Item} {s r : Bytes}
    → Matches is s r
    → Matches (literal t ++ is) (codes t ++ s) r
meet String.[] m = m
meet (String.◌∷◌ c t) m = byte (nat_eq_refl (code c)) (meet t m)

-- How many closing braces stand in a text, and how many a pattern takes.
abbrev one_if : Bool → ℕ
one_if true = 1
one_if false = 0

abbrev pub closes : Bytes → ℕ
closes [] = 0
closes (c ∷ s) = one_if (nat_eq c b'}') + closes s

abbrev weight : Item → ℕ
weight (one p) = one_if (p b'}')
weight (star p) = 0

abbrev weights : List Item → ℕ
weights [] = 0
weights (i ∷ is) = weight i + weights is

abbrev IsFair : Item → Type 0
IsFair (one p) = (c : ℕ) → p c ≡ true → one_if (nat_eq c b'}') ≡ one_if (p b'}')
IsFair (star p) = (c : ℕ) → p c ≡ true → one_if (nat_eq c b'}') ≡ 0

closes-Matches :
    {is : List Item} {s r : Bytes}
    → Matches is s r
    → All IsFair is
    → closes s ≡ weights is + closes r
closes-Matches stop h = omega arith
closes-Matches (byte e m) h = omega (arith, h.0 _ e, closes-Matches m (h.1))
closes-Matches (leave m) h = omega (arith, closes-Matches m (h.1))
closes-Matches (more e m) h = omega (arith, h.0 _ e, closes-Matches m h)

literal-IsFair : (t : String) → All IsFair (literal t)
literal-IsFair String.[] = tt
literal-IsFair (String.◌∷◌ c t) = (λ b h. ground arith, literal-IsFair t)

no_brace_fair : (c : ℕ) → no_brace c ≡ true → one_if (nat_eq c b'}') ≡ 0
no_brace_fair c h = ground arith

is_blank_fair : (c : ℕ) → is_blank c ≡ true → one_if (nat_eq c b'}') ≡ 0
is_blank_fair c h = ground arith

-- A text that ends in a closing brace, if in anything.
abbrev pub EndsClosed : Bytes → Type 0
EndsClosed [] = Unit
EndsClosed (c ∷ []) = c ≡ b'}'
EndsClosed (c ∷ d ∷ s) = EndsClosed (d ∷ s)

tail-EndsClosed : (c : ℕ) (s : Bytes) → EndsClosed (c ∷ s) → EndsClosed s
tail-EndsClosed c [] h = tt
tail-EndsClosed c (d ∷ s) h = h

rest-EndsClosed : {is : List Item} {s r : Bytes} → Matches is s r → EndsClosed s → EndsClosed r
rest-EndsClosed stop h = h
rest-EndsClosed {s = c ∷ s} (byte e m) h = rest-EndsClosed m (tail-EndsClosed c s h)
rest-EndsClosed (leave m) h = rest-EndsClosed m h
rest-EndsClosed {s = c ∷ s} (more e m) h = rest-EndsClosed m (tail-EndsClosed c s h)

none_left : (r : Bytes) → EndsClosed r → closes r ≡ 0 → r ≡ []
none_left [] h k = refl
none_left (c ∷ []) h k = absurd (omega (arith, ap (λ b. one_if (nat_eq b b'}')) h))
none_left (c ∷ d ∷ s) h k = let rest = none_left (d ∷ s) h (omega arith) in cc

behind_literal : (t : String) (is : List Item) → All IsFair is → All IsFair (literal t ++ is)
behind_literal t is h = All-append IsFair (literal t) is (literal-IsFair t) h

signed_blob-IsFair : All IsFair signed_blob
signed_blob-IsFair = behind_literal "{" members (
  no_brace_fair,
  behind_literal "\"signature\"" signature_colon (
    is_blank_fair,
    behind_literal ":" block_start (
      is_blank_fair,
      behind_literal "{" block (
        no_brace_fair,
        behind_literal "\"alg\"" alg_colon (
          is_blank_fair,
          behind_literal ":" alg_value (
            is_blank_fair,
            behind_literal "\"ed25519\"" closing (
              no_brace_fair,
              behind_literal "}" (star no_brace ∷ literal "}") (no_brace_fair, literal-IsFair "}"),
            ),
          ),
        ),
      ),
    ),
  ),
)

-- A text with two closing braces that ends in one is matched whole, if it is matched.
pub whole : (s r : Bytes) → Matches signed_blob s r → EndsClosed s → closes s ≡ 2 → r ≡ []
whole s r m ends two =
    let count = closes-Matches m signed_blob-IsFair in
    none_left r (rest-EndsClosed m ends) (omega (arith, two, count))

take_all {ℓ} : {A : Type ℓ} (xs : List A) → take (length xs) xs ≡ xs
take_all [] = refl
take_all (x ∷ xs) = ap (λ ys. x ∷ ys) (take_all xs)

skip_all : (is : List Item) (s : Bytes) → find_from is (length s) s ≡ []
unfolding find_from
skip_all is [] = refl
skip_all is (c ∷ s) = skip_all is s

pub find_whole :
    (is : List Item) (c : ℕ) (s : Bytes)
    → match is (c ∷ s) ≡ some []
    → find_all is (c ∷ s) ≡ (c ∷ s) ∷ []
unfolding find_all find_from
find_whole is c s h =
    let all : suc (length s) - 0 ≡ suc (length s) = omega arith in
    let shorter : suc (length s) - 1 ≡ length s = omega arith in
    rw h (rw (all, shorter, skip_all is s) (ap (λ x. (c ∷ x) ∷ []) (take_all s)))

-- Such a text is the one match in itself.
pub find_all-whole :
    (s r : Bytes)
    → Matches signed_blob s r
    → EndsClosed s
    → closes s ≡ 2
    → find_all signed_blob s ≡ s ∷ []
find_all-whole [] r m ends two = absurd (omega arith)
find_all-whole (c ∷ s) r m ends two = elim (Option-cases (match signed_blob (c ∷ s))) [
  | inl e ↦ absurd (match_complete m e)
  | inr (r', e) ↦
      find_whole signed_blob c s
        (e ∙ ap some (whole (c ∷ s) r' (match_sound signed_blob (c ∷ s) r' e) ends two))
]
