-- ===== src/Concurrency/Machines.antt =====
-- tools/concurrency_report.py, analyze: what the check-ins of a licence say of its machines and seats,
-- read off the ledger.
use netplex_support.Prelude.{
  ℕ, ◌+◌, ◌*◌, String, Bool, true, false, ◌&&◌, ◌||◌, not, Option, none, some, List, [], ◌∷◌, ◌++◌,
  ◌≡◌, refl, ap, ◌∙◌, inl, inr, lookup, any, any-append, keep, Bool-cases, arith, eq_iff, ◌==◌, leb,
  if◌then◌else◌,
}
use text.Mathlib.TextPositions.{eq_refl}
use mathlib.Core.Option.{get_or}
use netplex_support.Prelude.Int.{ℤ, pos, negsuc}
use netplex_support.Prelude.Text.{non_empty, lower}
use netplex_support.Concurrency.{
  CheckIn, Group, default_seats, empty_group, gather, counts, has_license, add_given,
  seat_allowance, cutoff_of, older_than, or_tier, first_seats,
}
use netplex_support.Concurrency.Groups.{gathered, own}

-- The field is given, and is this text.
abbrev pub is_given : String → Option String → Bool
is_given s none = false
is_given s (some t) = t == s

-- No more than `window_days` days before `now`, where both times are known.
abbrev pub in_window : ℕ → Option ℕ → Option ℕ → Bool
in_window window_days (some now) (some ts) = leb now (ts + window_days * 86400)
in_window window_days now ts = true

-- The check-ins in the window of the licence named `lid`, which is not empty.
abbrev pub check_ins : ℕ → Option ℕ → String → List CheckIn → List CheckIn
check_ins window_days now lid records =
    keep (λ r. in_window window_days now r.ts && (non_empty lid && is_given lid r.license_id))
      records

-- One of the check-ins comes from the machine of this fingerprint, which is not empty.
abbrev pub is_machine : String → List CheckIn → Bool
is_machine x rs = non_empty x && any (λ r. is_given x r.fingerprint) rs

abbrev pub IsDistinct : List String → Type 0
IsDistinct [] = Unit
IsDistinct (x ∷ xs) = (any (λ t. t == x) xs ≡ false) × IsDistinct xs

-- The text that is given, where it is not empty.
abbrev pub given_or : String → Option String → String
given_or old none = old
given_or old (some t) = if non_empty t then t else old

-- The tier that was named last.
abbrev pub last_tier : String → List CheckIn → String
last_tier old [] = old
last_tier old (r ∷ rs) = last_tier (given_or old r.tier) rs

-- The seats that were given first.
abbrev pub first_given : Option ℤ → List CheckIn → Option ℤ
first_given none [] = none
first_given none (r ∷ rs) = first_given r.seats rs
first_given (some n) rs = some n

abbrev is_one_of : String → List String → Bool
is_one_of t names = any (λ name. name == t) names

-- The seats of a tier, where 0 stands for no limit.
abbrev pub tier_seats : String → ℕ
tier_seats t =
    if is_one_of t ("free" ∷ "associate" ∷ [])
    then 1
    else if is_one_of t ("pro" ∷ "professional" ∷ "architect" ∷ [])
    then 2
    else if is_one_of t ("team" ∷ "classroom" ∷ "class" ∷ "enterprise" ∷ "master" ∷ [])
    then 0
    else 1

-- The seats that the check-ins allow: those that were given first, unless they are below 0 or none
-- were given, and else those of the tier that was named last.
abbrev pub allowed : List CheckIn → ℕ
allowed rs = elim (first_given none rs) [
  | none ↦ tier_seats (lower (last_tier "" rs))
  | some (pos n) ↦ n
  | some (negsuc n) ↦ tier_seats (lower (last_tier "" rs))
]

window_same :
    (window_days : ℕ) (now ts : Option ℕ)
    → not (older_than (cutoff_of window_days now) ts) ≡ in_window window_days now ts
window_same window_days none none = refl
window_same window_days none (some ts) = refl
window_same window_days (some now) none = refl
window_same window_days (some now) (some ts) = ground arith

license_same :
    (lid : String) (license : Option String) (recent : Bool)
    → (non_empty (get_or license "") && recent && get_or license "" == lid)
      ≡ (recent && (non_empty lid && is_given lid license))
license_same lid none recent = ground arith
license_same lid (some l) recent = elim (Bool-cases (l == lid)) [
  | inl e ↦ let same : l ≡ lid = (eq_iff l lid).0 e in rw e (rw same (ground arith))
  | inr e ↦ rw e (ground arith)
]

counts-own :
    (window_days : ℕ) (now : Option ℕ) (lid : String) (r : CheckIn)
    → (counts (cutoff_of window_days now) r && has_license lid r)
      ≡ (in_window window_days now r.ts && (non_empty lid && is_given lid r.license_id))
unfolding counts
counts-own window_days now lid r =
    rw (window_same window_days now (r.ts)) (license_same lid (r.license_id) _)

-- The check-ins that the loop counts for a licence are its own in the window.
pub own-check_ins :
    (window_days : ℕ) (now : Option ℕ) (lid : String) (records : List CheckIn)
    → own (cutoff_of window_days now) lid records ≡ check_ins window_days now lid records
own-check_ins window_days now lid [] = refl
own-check_ins window_days now lid (r ∷ rs) =
    rw (counts-own window_days now lid r, own-check_ins window_days now lid rs) refl

abbrev pub group_of : Option Group → Group
group_of g = get_or g empty_group

add_given-holds :
    (x : String) (o : Option String) (set : List String)
    → any (λ t. t == x) (add_given o set) ≡ (any (λ t. t == x) set || (non_empty x && is_given x o))
add_given-holds x none set = ground arith
add_given-holds x (some s) set = elim (Bool-cases (s == x)) [
  | inr e ↦ elim (Bool-cases (non_empty s && not (any (λ t. t == s) set))) [
    | inl added ↦ rw (added, any-append, e) (ground arith)
    | inr kept ↦ rw (kept, e) (ground arith)
  ]
  | inl e ↦
      let same : s ≡ x = (eq_iff s x).0 e in
      rw same (elim (Bool-cases (non_empty x && not (any (λ t. t == x) set))) [
        | inl added ↦ rw (added, any-append, eq_refl x) (ground arith)
        | inr kept ↦ rw (kept, eq_refl x) (ground arith)
      ])
]

append-IsDistinct :
    (s : String) (set : List String)
    → any (λ t. t == s) set ≡ false
    → IsDistinct set
    → IsDistinct (set ++ s ∷ [])
append-IsDistinct s [] h d = (refl, tt)
append-IsDistinct s (x ∷ xs) h d =
    let apart : (s == x) ≡ false = ground (arith, eq_iff x s, eq_iff s x) in
    (
      any-append (λ t. t == x) xs (s ∷ []) ∙ rw (apart, d.0) refl,
      append-IsDistinct s xs (ground arith) (d.1),
    )

add_given-IsDistinct :
    (o : Option String) (set : List String) → IsDistinct set → IsDistinct (add_given o set)
add_given-IsDistinct none set d = d
add_given-IsDistinct (some s) set d =
    elim (Bool-cases (non_empty s && not (any (λ t. t == s) set))) [
      | inl added ↦ rw added (append-IsDistinct s set (ground arith) d)
      | inr kept ↦ rw kept d
    ]

-- What the loop holds of a licence after its check-ins `rs`, in terms of what it held before.
pub gathered-machines :
    (x : String) (rs : List CheckIn) (g : Option Group)
    → any (λ t. t == x) (group_of (gathered rs g)).fps
      ≡ (any (λ t. t == x) (group_of g).fps || is_machine x rs)
unfolding gather
gathered-machines x [] g = ground arith
gathered-machines x (r ∷ rs) g =
    gathered-machines x rs (some (gather r (group_of g)))
    ∙ rw (add_given-holds x (r.fingerprint) ((group_of g).fps)) (ground arith)

pub gathered-IsDistinct :
    (rs : List CheckIn) (g : Option Group)
    → IsDistinct (group_of g).fps
    → IsDistinct (group_of (gathered rs g)).fps
unfolding gather
gathered-IsDistinct [] g d = d
gathered-IsDistinct (r ∷ rs) g d =
    gathered-IsDistinct rs (some (gather r (group_of g)))
      (add_given-IsDistinct (r.fingerprint) ((group_of g).fps) d)

or_tier_lem : (o : Option String) (old : String) → or_tier o old ≡ given_or old o
or_tier_lem none old = refl
or_tier_lem (some t) old = refl

gathered-tier :
    (rs : List CheckIn) (g : Option Group)
    → (group_of (gathered rs g)).tier ≡ last_tier (group_of g).tier rs
unfolding gather
gathered-tier [] g = refl
gathered-tier (r ∷ rs) g =
    gathered-tier rs (some (gather r (group_of g)))
    ∙ ap (λ t. last_tier t rs) (or_tier_lem (r.tier) ((group_of g).tier))

first_given_none : (o : Option ℤ) → o ≡ first_given o []
first_given_none none = refl
first_given_none (some n) = refl

first_given_more :
    (old new : Option ℤ) (r : CheckIn) (rs : List CheckIn)
    → r.seats ≡ new
    → first_given (first_seats old new) rs ≡ first_given old (r ∷ rs)
first_given_more none new r rs e = rw e refl
first_given_more (some n) new r rs e = refl

gathered-seats :
    (rs : List CheckIn) (g : Option Group)
    → (group_of (gathered rs g)).seats ≡ first_given (group_of g).seats rs
unfolding gather
gathered-seats [] g = first_given_none ((group_of g).seats)
gathered-seats (r ∷ rs) g =
    gathered-seats rs (some (gather r (group_of g)))
    ∙ first_given_more ((group_of g).seats) (r.seats) r rs refl

-- The names of `names` with `n` seats each, before other rows.
with_rows : List String → ℕ → List (String × ℕ) → List (String × ℕ)
with_rows [] n rest = rest
with_rows (name ∷ names) n rest = (name, n) ∷ with_rows names n rest

lookup-with_rows :
    (t : String) (names : List String) (n : ℕ) (rest : List (String × ℕ))
    → get_or (lookup t (with_rows names n rest)) 1
      ≡ (if is_one_of t names then n else get_or (lookup t rest) 1)
unfolding with_rows
lookup-with_rows t [] n rest = refl
lookup-with_rows t (name ∷ names) n rest = elim (Bool-cases (name == t)) [
  | inl e ↦ rw e refl
  | inr e ↦ rw e (lookup-with_rows t names n rest)
]

abbrev individual : List String
individual = "pro" ∷ "professional" ∷ "architect" ∷ []

abbrev shared : List String
shared = "team" ∷ "classroom" ∷ "class" ∷ "enterprise" ∷ "master" ∷ []

tier_seats_lem : (t : String) → get_or (lookup t default_seats) 1 ≡ tier_seats t
unfolding with_rows
tier_seats_lem t =
    lookup-with_rows t ("free" ∷ "associate" ∷ []) 1
      (with_rows individual 2 (with_rows shared 0 []))
    ∙ ap (λ n. if is_one_of t ("free" ∷ "associate" ∷ []) then 1 else n)
        (lookup-with_rows t individual 2 (with_rows shared 0 [])
          ∙ ap (λ n. if is_one_of t individual then 2 else n) (lookup-with_rows t shared 0 []))

seat_allowance-allowed :
    (tier : String) (seats : Option ℤ)
    → seat_allowance tier seats ≡ elim seats [
      | none ↦ tier_seats (lower tier)
      | some (pos n) ↦ n
      | some (negsuc n) ↦ tier_seats (lower tier)
    ]
unfolding seat_allowance
seat_allowance-allowed tier none = tier_seats_lem (lower tier)
seat_allowance-allowed tier (some (pos n)) = refl
seat_allowance-allowed tier (some (negsuc n)) = tier_seats_lem (lower tier)

-- The seats of what is gathered are those that the check-ins allow.
pub gathered-allowed :
    (rs : List CheckIn)
    → seat_allowance (group_of (gathered rs none)).tier (group_of (gathered rs none)).seats
      ≡ allowed rs
gathered-allowed rs =
    rw (gathered-tier rs none, gathered-seats rs none)
      (seat_allowance-allowed (last_tier "" rs) (first_given none rs))
