-- ===== src/Concurrency/Report.antt =====
-- Which licences the report lists, and in which order.
use mathlib.Core.List.{Pairwise}
use netplex_support.Prelude.{
  ℕ, String, Bool, true, false, ◌&&◌, ◌||◌, not, Option, none, some, List, [], ◌∷◌, ◌≡◌, inl, inr,
  refl, sym, ap, ◌∙◌, lookup, any, Bool-cases, arith, eq_iff, ◌==◌, nat_eq, ltb, length,
}
use netplex_support.Database.{IsOrder}
use netplex_support.Database.Memory.{sort_rows, insert_row, sort_rows-IsSorted}
use netplex_support.Concurrency.{
  CheckIn, Group, groups, severity, is_fine, seat_allowance, Flag, flags, worse, sort_flags,
  cutoff_of, analyze,
}
use netplex_support.Concurrency.Machines.{
  check_ins, is_machine, IsDistinct, allowed, own-check_ins, group_of, gathered-machines,
  gathered-IsDistinct, gathered-allowed,
}
use netplex_support.Concurrency.Groups.{gathered, own, lookup-groups, IsDict, groups-IsDict}

-- More machines than the allowance, where that is not 0, which stands for no limit.
abbrev is_over : Option Group → Bool
is_over none = false
is_over (some g) =
    not (nat_eq (seat_allowance g.tier g.seats) 0)
    && ltb (seat_allowance g.tier g.seats) (length g.fps)

severity-fine :
    (distinct seats : ℕ)
    → is_fine (severity distinct seats) ≡ not (not (nat_eq seats 0) && ltb seats distinct)
unfolding severity
severity-fine distinct seats = ground arith

abbrev pub names : String → Flag → Bool
names lid f = f.license_id == lid

any-insert_row :
    (before : Flag → Flag → Bool) (p : Flag → Bool) (x : Flag) (ys : List Flag)
    → any p (insert_row before x ys) ≡ (p x || any p ys)
unfolding insert_row
any-insert_row before p x [] = refl
any-insert_row before p x (y ∷ ys) = ground (arith, any-insert_row before p x ys)

any-sort_rows :
    (before : Flag → Flag → Bool) (p : Flag → Bool) (xs : List Flag)
    → any p (sort_rows before xs) ≡ any p xs
unfolding sort_rows
any-sort_rows before p [] = refl
any-sort_rows before p (x ∷ xs) =
    any-insert_row before p x (sort_rows before xs) ∙ ap (λ b. p x || b) (any-sort_rows before p xs)

any-flags :
    (lid : String) (gs : List (String × Group))
    → IsDict gs
    → any (names lid) (flags gs) ≡ is_over (lookup lid gs)
unfolding flags
any-flags lid [] d = refl
any-flags lid ((k, g) ∷ gs) d =
    let rest = any-flags lid gs (d.1) in
    let listed = severity-fine (length g.fps) (seat_allowance g.tier g.seats) in
    elim (Bool-cases (k == lid)) [
      | inl e ↦
          let same : k ≡ lid = (eq_iff k lid).0 e in
          let gone : lookup lid gs ≡ none = rw (← same) (d.0) in
          let absent : any (names lid) (flags gs) ≡ false = rest ∙ rw gone in
          elim (Bool-cases (is_over (some g))) [
            | inl over ↦ rw (listed, over, e) (sym over)
            | inr over ↦ rw (listed, over, e) (absent ∙ sym over)
          ]
      | inr e ↦ elim (Bool-cases (is_over (some g))) [
        | inl over ↦ rw (listed, over, e) rest
        | inr over ↦ rw (listed, over, e) rest
      ]
    ]

analyze-gathered :
    (window_days : ℕ) (now : Option ℕ) (records : List CheckIn) (lid : String)
    → any (names lid) (analyze window_days now records)
      ≡ is_over (gathered (own (cutoff_of window_days now) lid records) none)
unfolding analyze sort_flags
analyze-gathered window_days now records lid =
    let cutoff = cutoff_of window_days now in
    any-sort_rows worse (names lid) (flags (groups cutoff records []))
    ∙ any-flags lid (groups cutoff records []) (groups-IsDict cutoff records [] tt)
    ∙ ap is_over (lookup-groups cutoff lid records)

is_over-group_of :
    (g : Option Group)
    → is_over g ≡ (
        not (nat_eq (seat_allowance (group_of g).tier (group_of g).seats) 0)
        && ltb (seat_allowance (group_of g).tier (group_of g).seats) (length (group_of g).fps))
unfolding seat_allowance
is_over-group_of none = refl
is_over-group_of (some g) = refl

-- The report lists a licence exactly if its check-ins in the window come from more machines than
-- the seats that they allow, where these are not 0, which stands for no limit. The machines are the
-- distinct fingerprints of these check-ins; the seats are those that they gave first, or else those
-- of the tier that they named last. A check-in is in the window unless its time and the present are
-- known and it is more than `window_days` days old; the licence's id is not empty.
pub analyze-is_over :
    (window_days : ℕ) (now : Option ℕ) (records : List CheckIn) (lid : String)
    → (machines : List String) × IsDistinct machines
      × ((x : String)
          → any (λ t. t == x) machines ≡ is_machine x (check_ins window_days now lid records))
      × (any (names lid) (analyze window_days now records) ≡ (
          not (nat_eq (allowed (check_ins window_days now lid records)) 0)
          && ltb (allowed (check_ins window_days now lid records)) (length machines)))
analyze-is_over window_days now records lid =
    let mine = check_ins window_days now lid records in
    let same = own-check_ins window_days now lid records in
    (
      (group_of (gathered mine none)).fps,
      gathered-IsDistinct mine none tt,
      λ x. gathered-machines x mine none,
      analyze-gathered window_days now records lid
          ∙ ap (λ rs. is_over (gathered rs none)) same
          ∙ is_over-group_of (gathered mine none)
          ∙ rw (gathered-allowed mine) refl,
    )

worse-IsOrder : IsOrder worse
worse-IsOrder = record { total = λ a b. ground arith; trans = λ a b c p q. ground arith }

-- The report is sorted: the worst severity first, and within a severity the most machines first.
pub analyze-IsSorted :
    (window_days : ℕ) (now : Option ℕ) (records : List CheckIn)
    → Pairwise (λ a b. worse a b ≡ true) (analyze window_days now records)
unfolding analyze sort_flags
analyze-IsSorted window_days now records =
    sort_rows-IsSorted worse worse-IsOrder (flags (groups (cutoff_of window_days now) records []))
