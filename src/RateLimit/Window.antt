-- ===== src/RateLimit/Window.antt =====
-- app/ratelimit.py: how many calls of a key pass in any 60 seconds, over a sequence of calls.
use netplex_support.Prelude.{
  ℕ, ap, insert, ◌+◌, ◌≤◌, ◌<◌, String, ◌≡◌, refl, ◌⊎◌, inl, inr, ◌&&◌, List, [], ◌∷◌, ◌++◌, arith,
  leb, length, keep, All, length-append, lookup-insert, if◌then◌else◌, ◌==◌, eq_iff, Bool-cases,
}
use netplex_support.RateLimit.{rate_window, Hits, queue, popleft_old, rate_ok}

-- One call of `rate_ok`, as the routes make it.
pub record Call : Type 0 where
  pub key : String
  pub limit : ℕ
  pub now : ℕ

-- The times at which calls for `key` were let through, in a run over all calls.
unfoldable pub passed : String → Hits → List Call → List ℕ
passed key hits [] = []
passed key hits (c ∷ cs) =
    let (answer, hits') = rate_ok c.key c.limit c.now hits in
    let rest = passed key hits' cs in if answer && (c.key == key) then c.now ∷ rest else rest

-- The clock does not go back.
abbrev pub IsTimed : ℕ → List Call → Type 0
IsTimed start [] = Unit
IsTimed start (c ∷ cs) = (start ≤ c.now) × IsTimed c.now cs

abbrev pub count_within : ℕ → ℕ → List ℕ → ℕ
count_within lo hi times = length (keep (λ t. leb lo t && leb t hi) times)

count_within-le : (lo hi : ℕ) (ts : List ℕ) → count_within lo hi ts ≤ length ts
count_within-le lo hi [] = omega arith
count_within-le lo hi (t ∷ ts) = ground (arith, count_within-le lo hi ts)

count_within-append :
    (lo hi : ℕ) (xs ys : List ℕ)
    → count_within lo hi (xs ++ ys) ≡ count_within lo hi xs + count_within lo hi ys
count_within-append lo hi [] ys = omega arith
count_within-append lo hi (x ∷ xs) ys = ground (arith, count_within-append lo hi xs ys)

count_within_late : (lo hi : ℕ) (ts : List ℕ) → All (λ t. hi < t) ts → count_within lo hi ts ≡ 0
count_within_late lo hi [] h = refl
count_within_late lo hi (t ∷ ts) h = ground (arith, count_within_late lo hi ts h.1)

-- What `popleft_old` removes either lies before the window, or the window ended before `now`.
popleft_old-count :
    (lo hi now : ℕ) (q : List ℕ)
    → hi ≤ lo + rate_window
    → (count_within lo hi q ≡ count_within lo hi (popleft_old now q)) ⊎ (hi < now)
unfolding popleft_old
popleft_old-count lo hi now [] h = inl refl
popleft_old-count lo hi now (t ∷ q) h = ground (arith, popleft_old-count lo hi now q h)

length-popleft_old : (now : ℕ) (q : List ℕ) → length (popleft_old now q) ≤ length q
unfolding popleft_old
length-popleft_old now [] = omega arith
length-popleft_old now (t ∷ q) = ground (arith, length-popleft_old now q)

All-weaken : (a b : ℕ) (ts : List ℕ) → a ≤ b → All (λ t. b ≤ t) ts → All (λ t. a ≤ t) ts
All-weaken a b [] h k = tt
All-weaken a b (t ∷ ts) h k = (omega arith, All-weaken a b ts h k.1)

All-lt : (a b : ℕ) (ts : List ℕ) → a < b → All (λ t. b ≤ t) ts → All (λ t. a < t) ts
All-lt a b [] h k = tt
All-lt a b (t ∷ ts) h k = (omega arith, All-lt a b ts h k.1)

passed-after :
    (key : String) (start : ℕ) (hits : Hits) (cs : List Call)
    → IsTimed start cs
    → All (λ t. start ≤ t) (passed key hits cs)
unfolding passed
passed-after key start hits [] h = tt
passed-after key start hits (c ∷ cs) h =
    let later = λ (hits' : Hits).
      All-weaken start c.now (passed key hits' cs) h.0 (passed-after key c.now hits' cs h.1) in
    let (answer, hits') = rate_ok c.key c.limit c.now hits in ground (arith, later hits')

pub queue-insert :
    (k key : String) (q : List ℕ) (hits : Hits)
    → queue key (insert k q hits) ≡ (if k == key then q else queue key hits)
queue-insert k key q hits = rw lookup-insert (ground arith)

module _ (key : String) (limit lo hi : ℕ) (short : hi ≤ lo + rate_window) where
  abbrev Limited : List Call → Type 0
  Limited = All (λ c. c.key ≡ key → c.limit ≤ limit)

  -- The calls that passed and are still in the deque, followed by those that will pass.
  all_passed : (start : ℕ) (hits : Hits) (cs : List Call) → List ℕ
  all_passed start hits cs = queue key hits ++ passed key hits cs

  Within : Hits → List Call → Type 0
  Within hits cs =
      count_within lo hi (queue key hits) + count_within lo hi (passed key hits cs) ≤ limit

  module _ (now : ℕ) (hits : Hits) (cs : List Call) (timed : IsTimed now cs) where
    -- One call for the key: the deque `q` loses its old hits, and may gain `now`.
    refused_lem :
        (hits' : Hits)
        → queue key hits' ≡ popleft_old now (queue key hits)
        → length (queue key hits) ≤ limit
        → Within hits' cs
        → count_within lo hi (queue key hits) + count_within lo hi (passed key hits' cs) ≤ limit
    unfolding Within
    refused_lem hits' same fits ih = elim (popleft_old-count lo hi now (queue key hits) short) [
      | inl kept ↦ rw kept (rw same at ih)
      | inr late ↦ omega (
        arith,
        count_within-le lo hi (queue key hits),
        count_within_late lo hi (passed key hits' cs)
            (All-lt hi now (passed key hits' cs) late (passed-after key now hits' cs timed)),
      )
    ]

    accepted_lem :
        (hits' : Hits)
        → queue key hits' ≡ popleft_old now (queue key hits) ++ now ∷ []
        → length (queue key hits) ≤ limit
        → Within hits' cs
        → count_within lo hi (queue key hits) + count_within lo hi (now ∷ passed key hits' cs)
          ≤ limit
    unfolding Within
    accepted_lem hits' same fits ih = elim (popleft_old-count lo hi now (queue key hits) short) [
      | inl kept ↦
          let split = count_within-append lo hi (popleft_old now (queue key hits)) (now ∷ []) in
          rw kept (ground (arith, split, rw same at ih))
      | inr late ↦ ground (
        arith,
        count_within-le lo hi (queue key hits),
        count_within_late lo hi (passed key hits' cs)
            (All-lt hi now (passed key hits' cs) late (passed-after key now hits' cs timed)),
      )
    ]

  passed-Within :
      (start : ℕ) (hits : Hits) (cs : List Call)
      → IsTimed start cs
      → Limited cs
      → length (queue key hits) ≤ limit
      → Within hits cs
  unfolding Within passed rate_ok
  passed-Within start hits [] timed limited fits =
      omega (arith, count_within-le lo hi (queue key hits))
  passed-Within start hits (c ∷ cs) timed limited fits =
      let q = popleft_old c.now (queue c.key hits) in
      let ih = λ (hits' : Hits). passed-Within c.now hits' cs timed.1 limited.1 in
      elim (Bool-cases (c.key == key)) [
        | inl same ↦
            let e : queue c.key hits ≡ queue key hits =
              ap (λ k. queue k hits) ((eq_iff c.key key).0 same) in
            let q' = popleft_old c.now (queue key hits) in
            elim (Bool-cases (leb c.limit (length q))) [
              | inl full ↦
                  let hits' = insert c.key q hits in
                  let kept : queue key hits' ≡ q' =
                    ground (arith, queue-insert c.key key q hits, ap (popleft_old c.now) e) in
                  rw full (
                    refused_lem c.now hits cs timed.1 hits' kept fits
                      (ih hits' (ground (arith, kept, length-popleft_old c.now (queue key hits)))))
              | inr room ↦
                  let hits' = insert c.key (q ++ c.now ∷ []) hits in
                  let kept : queue key hits' ≡ q' ++ c.now ∷ [] = ground (
                    arith,
                    queue-insert c.key key (q ++ c.now ∷ []) hits,
                    ap (λ l. popleft_old c.now l ++ c.now ∷ []) e,
                  ) in
                  let small : length q' < limit = ground (
                    arith,
                    ap (λ l. length (popleft_old c.now l)) e,
                    limited.0 ((eq_iff c.key key).0 same),
                  ) in
                  rw (room, same)
                    (accepted_lem c.now hits cs timed.1 hits' kept fits
                      (ih hits' (ground (arith, kept, small, length-append q' (c.now ∷ [])))))
            ]
        | inr other ↦ elim (Bool-cases (leb c.limit (length q))) [
          | inl full ↦
              rw full
                (ground (arith, other, queue-insert c.key key q hits, ih (insert c.key q hits)))
          | inr room ↦
              rw (room, other)
                (ground (
                  arith,
                  other,
                  queue-insert c.key key (q ++ c.now ∷ []) hits,
                  ih (insert c.key (q ++ c.now ∷ []) hits),
                ))
        ]
      ]

-- From an empty store, over any run of calls whose times do not go back, and whose calls for `key`
-- have no limit above `limit`: in any closed interval of at most 60 seconds, at most `limit` calls
-- for `key` pass.
pub passed-within-limit :
    (key : String) (limit lo hi start : ℕ) (cs : List Call)
    → IsTimed start cs
    → All (λ c. c.key ≡ key → c.limit ≤ limit) cs
    → hi ≤ lo + rate_window
    → count_within lo hi (passed key [] cs) ≤ limit
unfolding Within
passed-within-limit key limit lo hi start cs timed limited short =
    omega (arith, passed-Within key limit lo hi short start [] cs timed limited (omega arith))
