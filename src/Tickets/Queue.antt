-- ===== src/Tickets/Queue.antt =====
-- app/models.py, admin_queue: what an operator sees, and in which order.
use mathlib.Core.List
use mathlib.Core.List.Perm
use mathlib.Core.List.Pairwise
use mathlib.Core.Nat
use mathlib.Core.List.{
  Perm, Mem, Mem-prop, Pairwise, Pairwise-cons, mem-cons, mem-cons_self, mem-cons_of_mem,
  not-mem-nil,
}
use mathlib.Core.Logic.{◌∨₁◌, ∨₁_prop}
use mathlib.Core.Logic.Or
use netplex_support.Prelude.{
  ℕ, zero, suc, ◌≡◌, true, List, [], ◌∷◌, arith, take, length, keep, leb, ◌++◌, Bool, any, ◌==◌,
  ◌⊎◌, ◌<◌, ◌≤◌, if◌then◌else◌, refl, sym, ap, ◌∙◌,
}
use netplex_support.Database.{IsOrder, Database}
use netplex_support.Database.Query.{mem-select, mem-select_of}
use netplex_support.Tickets.{Ticket, is_open, more_urgent, admin_queue}

pub more_urgent-IsOrder : IsOrder more_urgent
more_urgent-IsOrder = record { total = λ a b. ground arith; trans = λ a b c p q. ground arith }

module _ {A : Type 0} where
  mem-take : (n : ℕ) (l : List A) (x : A) → Mem x (take n l) → Mem x l
  mem-take zero l x m = absurd (not-mem-nil m)
  mem-take (suc n) [] x m = m
  mem-take (suc n) (y ∷ l) x m =
      Or.elim Mem-prop (mem-cons.0 m) (λ q. rw q mem-cons_self)
        (λ k. mem-cons_of_mem y (mem-take n l x k))

  module _ {R : A → A → Type 0} where
    take-Pairwise : (n : ℕ) (l : List A) → Pairwise R l → Pairwise R (take n l)
    take-Pairwise zero l s = Pairwise.nil
    take-Pairwise (suc n) [] s = s
    take-Pairwise (suc n) (x ∷ l) s =
        let (below, rest) = Pairwise-cons.0 s in
        Pairwise.cons (λ y m. below y (mem-take n l y m)) (take-Pairwise n l rest)

    -- What `take` leaves out stands behind what it keeps.
    take-before :
        (n : ℕ) (l : List A) (x y : A)
        → Pairwise R l
        → Mem x (take n l)
        → Mem y l
        → Mem y (take n l) ∨₁ R x y
    take-before zero l x y s m k = absurd (not-mem-nil m)
    take-before (suc n) [] x y s m k = absurd (not-mem-nil m)
    take-before (suc n) (z ∷ l) x y s m k =
        let (below, rest) = Pairwise-cons.0 s in
        Or.elim ∨₁_prop (mem-cons.0 k) (λ q. Or.inl (rw q mem-cons_self))
          (λ later.
            Or.elim ∨₁_prop (mem-cons.0 m) (λ q. Or.inr (rw q (below y later)))
              (λ kept.
                Or.elim ∨₁_prop (take-before n l x y rest kept later)
                  (λ h. Or.inl (mem-cons_of_mem z h)) (λ h. Or.inr h)))

-- The library's number, as a native one.
abbrev native : Nat.ℕ → ℕ
native Nat.zero = zero
native (Nat.suc n) = suc (native n)

length-native : {A : Type 0} (l : List A) → length l ≡ native (List.length l)
length-native [] = refl
length-native (x ∷ l) = ap suc (length-native l)

-- Rearranging a list keeps its length.
length-Perm : {A : Type 0} (xs ys : List A) → Perm xs ys → length xs ≡ length ys
length-Perm xs ys h = length-native xs ∙ ap native (Perm.length-eq h) ∙ sym (length-native ys)

-- The smaller of two numbers.
abbrev pub smaller : ℕ → ℕ → ℕ
smaller m n = if leb m n then m else n

length-take : {A : Type 0} (n : ℕ) (l : List A) → length (take n l) ≡ smaller n (length l)
length-take zero l = ground arith
length-take (suc n) [] = ground arith
length-take (suc n) (x ∷ l) = ground (arith, length-take n l)

-- What `take` keeps, before what it leaves out.
take-rest : {A : Type 0} (n : ℕ) (l : List A) → (rest : List A) × (take n l ++ rest ≡ l)
take-rest zero l = (l, refl)
take-rest (suc n) [] = ([], refl)
take-rest (suc n) (x ∷ l) = let (rest, e) = take-rest n l in (rest, ap (λ xs. x ∷ xs) e)

-- Of one of the four statuses of open tickets.
abbrev pub is_waiting : Ticket → Bool
is_waiting t = any (λ s. t.status == s) ("new" ∷ "triaged" ∷ "in_progress" ∷ "fixed" ∷ [])

-- Of a higher priority, or of the same and reported last no earlier.
abbrev pub IsAhead : Ticket → Ticket → Type 0
IsAhead a b =
    (b.priority_score < a.priority_score)
    ⊎ ((a.priority_score ≡ b.priority_score) × (b.last_seen ≤ a.last_seen))

more_urgent-IsAhead : (a b : Ticket) → more_urgent a b ≡ true → IsAhead a b
more_urgent-IsAhead a b h = ground arith

-- The queue for an operator: as many tickets as there are stored open ones, but no more than `limit`,
-- which with the others are the stored open tickets, the most urgent first; and a stored open ticket
-- that is not listed is no more urgent than any that is.
pub record IsTriage (rows : List Ticket) (limit : ℕ) (listed : List Ticket) : Type 0 where
  pub left : List Ticket
  pub chosen : Perm (listed ++ left) (keep is_waiting rows)
  pub filled : length listed ≡ smaller limit (length (keep is_waiting rows))
  pub open_rows : (t : Ticket) → Mem t listed → Mem t rows × (is_waiting t ≡ true)
  pub sorted : Pairwise IsAhead listed
  pub top :
      (t u : Ticket) → Mem t listed → Mem u rows → is_waiting u ≡ true → Mem u listed ∨₁ IsAhead t u

-- Whatever the database does with ties, the admin queue lists open tickets only, those of the
-- status "new", "triaged", "in_progress" or "fixed", none more often than it is stored, sorted by
-- falling priority and then by falling time of the last report. It lists `limit` of them, or all
-- where there are fewer, and leaves out an open ticket only behind all that it lists.
pub admin_queue-IsTriage :
    (db : Database) (limit : ℕ) (rows : List Ticket)
    → IsTriage rows limit (admin_queue db limit rows)
unfolding admin_queue
admin_queue-IsTriage db limit rows =
    let found = db.select is_open more_urgent rows in
    let sorted =
      Pairwise.imp {S = IsAhead} more_urgent-IsAhead
        (db.select-sorted is_open more_urgent rows more_urgent-IsOrder) in
    let (left, whole) = take-rest limit found in
    let same = db.select-perm is_open more_urgent rows in
    record {
      left = left;
      chosen = rw whole same;
      filled =
          length-take limit found ∙ ap (smaller limit) (length-Perm found (keep is_open rows) same);
      open_rows = λ t m. mem-select db is_open more_urgent rows t (mem-take limit found t m);
      sorted = take-Pairwise limit found sorted;
      top = λ t u m k h.
          take-before limit found t u sorted m (mem-select_of db is_open more_urgent rows u k h);
    }
