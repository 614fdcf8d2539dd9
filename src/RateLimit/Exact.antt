-- ===== src/RateLimit/Exact.antt =====
-- app/ratelimit.py: exactly when a call passes, in terms of the calls that passed before.
use netplex_support.Prelude.{
  ℕ, ◌-◌, ◌≤◌, String, ◌≡◌, refl, sym, ◌∙◌, ap, inl, inr, Bool, true, false, List, [], ◌∷◌, ◌++◌,
  arith, ltb, leb, length, keep, keep-append, All, All-append, ◌==◌, eq_iff, Bool-cases,
}
use mathlib.Core.List.{append_assoc, append-nil}
use netplex_support.RateLimit.{rate_window, Hits, queue, popleft_old, rate_ok}
use netplex_support.RateLimit.Window.{Call, passed, queue-insert}

-- The state of the limiter after a run of calls.
pub run : Hits → List Call → Hits
run hits [] = hits
run hits (c ∷ cs) = run (rate_ok c.key c.limit c.now hits).1 cs

-- The times that lie in the trailing window of `now`.
abbrev pub recent : ℕ → List ℕ → List ℕ
recent now times = keep (λ t. leb (now - t) rate_window) times

abbrev Ascending : List ℕ → Type 0
Ascending [] = Unit
Ascending (t ∷ ts) = All (λ u. t ≤ u) ts × Ascending ts

recent-All :
    (now t : ℕ) (ts : List ℕ) → now - t ≤ rate_window → All (λ u. t ≤ u) ts → recent now ts ≡ ts
recent-All now t [] h k = refl
recent-All now t (u ∷ ts) h k = ground (arith, recent-All now t ts h k.1)

popleft_old-eq-recent : (now : ℕ) (q : List ℕ) → Ascending q → popleft_old now q ≡ recent now q
unfolding popleft_old
popleft_old-eq-recent now [] h = refl
popleft_old-eq-recent now (t ∷ q) h =
    ground (arith, recent-All now t q, h.0, popleft_old-eq-recent now q h.1)

-- A hit that is old at `now` is old later.
recent-popleft_old :
    (now later : ℕ) (q : List ℕ) → now ≤ later → recent later (popleft_old now q) ≡ recent later q
unfolding popleft_old
recent-popleft_old now later [] h = refl
recent-popleft_old now later (t ∷ q) h = ground (arith, recent-popleft_old now later q h)

All-popleft_old {κ} : (P : ℕ → Type κ) (now : ℕ) (q : List ℕ) → All P q → All P (popleft_old now q)
unfolding popleft_old
All-popleft_old P now [] h = tt
All-popleft_old P now (t ∷ q) h = elim (Bool-cases (ltb rate_window (now - t))) [
  | inl old ↦ rw old (All-popleft_old P now q h.1)
  | inr new ↦ rw new h
]

Ascending-popleft_old : (now : ℕ) (q : List ℕ) → Ascending q → Ascending (popleft_old now q)
unfolding popleft_old
Ascending-popleft_old now [] h = tt
Ascending-popleft_old now (t ∷ q) h = elim (Bool-cases (ltb rate_window (now - t))) [
  | inl old ↦ rw old (Ascending-popleft_old now q h.1)
  | inr new ↦ rw new h
]

Ascending-append :
    (q : List ℕ) (now : ℕ) → Ascending q → All (λ t. t ≤ now) q → Ascending (q ++ now ∷ [])
Ascending-append [] now h k = (tt, tt)
Ascending-append (t ∷ q) now h k =
    (All-append (λ u. t ≤ u) q (now ∷ []) h.0 (k.0, tt), Ascending-append q now h.1 k.1)

All-later : (a b : ℕ) (q : List ℕ) → a ≤ b → All (λ t. t ≤ a) q → All (λ t. t ≤ b) q
All-later a b [] h k = tt
All-later a b (t ∷ q) h k = (omega arith, All-later a b q h k.1)

-- The deque of a key is in order, and ends before `start`.
pub record IsOrdered (start : ℕ) (q : List ℕ) : Type 0 where
  pub ascending : Ascending q
  pub past : All (λ t. t ≤ start) q

popleft_old-IsOrdered :
    (start now : ℕ) (q : List ℕ)
    → start ≤ now
    → IsOrdered start q
    → IsOrdered now (popleft_old now q)
popleft_old-IsOrdered start now q h o = record {
  ascending = Ascending-popleft_old now q o.ascending;
  past = All-popleft_old (λ t. t ≤ now) now q (All-later start now q h o.past);
}

snoc-IsOrdered : (now : ℕ) (q : List ℕ) → IsOrdered now q → IsOrdered now (q ++ now ∷ [])
snoc-IsOrdered now q o = record {
  ascending = Ascending-append q now o.ascending o.past;
  past = All-append (λ t. t ≤ now) q (now ∷ []) o.past (omega arith, tt);
}

module _ (key : String) (c : Call) (hits : Hits) where
  abbrev answer : Bool
  answer = (rate_ok c.key c.limit c.now hits).0

  abbrev after : List ℕ
  after = queue key (rate_ok c.key c.limit c.now hits).1

  -- What one call does to the deque of `key`.
  data Effect : Type 0 where
    unrelated : c.key == key ≡ false → after ≡ queue key hits → Effect
    refused :
        c.key == key ≡ true → answer ≡ false → after ≡ popleft_old c.now (queue key hits) → Effect
    recorded :
        c.key == key ≡ true
        → answer ≡ true
        → after ≡ popleft_old c.now (queue key hits) ++ c.now ∷ []
        → Effect

  effect : Effect
  unfolding rate_ok
  effect =
      let q = popleft_old c.now (queue c.key hits) in
      elim (Bool-cases (c.key == key)) [
        | inl same ↦
            let e : q ≡ popleft_old c.now (queue key hits) =
              ap (λ k. popleft_old c.now (queue k hits)) ((eq_iff c.key key).0 same) in
            elim (Bool-cases (leb c.limit (length q))) [
              | inl full ↦
                  refused same (ground arith) (ground (arith, queue-insert c.key key q hits, e))
              | inr room ↦
                  recorded same (ground arith)
                    (ground (arith, queue-insert c.key key (q ++ c.now ∷ []) hits, e))
            ]
        | inr other ↦ unrelated other (
            ground
              (arith, queue-insert c.key key q hits, queue-insert c.key key (q ++ c.now ∷ []) hits))
      ]

-- The deque stays in order under one call.
effect-IsOrdered :
    (key : String) (c : Call) (hits : Hits) (start : ℕ)
    → start ≤ c.now
    → IsOrdered start (queue key hits)
    → Effect key c hits
    → IsOrdered c.now (after key c hits)
effect-IsOrdered key c hits start h o (unrelated _ kept) =
    rw kept (record { ascending = o.ascending; past = All-later start c.now _ h o.past })
effect-IsOrdered key c hits start h o (refused _ _ kept) =
    rw kept (popleft_old-IsOrdered start c.now _ h o)
effect-IsOrdered key c hits start h o (recorded _ _ kept) =
    rw kept (snoc-IsOrdered c.now _ (popleft_old-IsOrdered start c.now _ h o))

-- The times of the calls do not go back, and end by `now`.
abbrev pub IsBefore : ℕ → ℕ → List Call → Type 0
IsBefore now start [] = start ≤ now
IsBefore now start (c ∷ cs) = (start ≤ c.now) × IsBefore now c.now cs

IsBefore-le : (now start : ℕ) (cs : List Call) → IsBefore now start cs → start ≤ now
IsBefore-le now start [] b = b
IsBefore-le now start (c ∷ cs) b = omega (arith, IsBefore-le now c.now cs b.1)

module _ (key : String) (now : ℕ) where
  -- The call's share of the recent hits.
  effect-recent :
      (c : Call) (hits : Hits) (cs : List Call)
      → c.now ≤ now
      → Effect key c hits
      → recent now (after key c hits)
          ++ recent now (passed key (rate_ok c.key c.limit c.now hits).1 cs)
        ≡ recent now (queue key hits) ++ recent now (passed key hits (c ∷ cs))
  unfolding passed
  effect-recent c hits cs h (unrelated other kept) = rw kept (ground arith)
  effect-recent c hits cs h (refused own no_room kept) =
      rw kept (rw no_room (ground (arith, recent-popleft_old c.now now (queue key hits) h)))
  effect-recent c hits cs h (recorded own room kept) =
      let rest = recent now (passed key (rate_ok c.key c.limit c.now hits).1 cs) in
      rw kept (
        rw (room, own)
          (ground (
            arith,
            keep-append (λ t. leb (now - t) rate_window) (popleft_old c.now (queue key hits))
                (c.now ∷ []),
            recent-popleft_old c.now now (queue key hits) h,
            append_assoc (recent now (queue key hits)) (c.now ∷ []) rest,
            append_assoc (recent now (queue key hits)) [] rest,
          )))

  record Agrees (start : ℕ) (hits : Hits) (cs : List Call) : Type 0 where
    ordered : Ascending (queue key (run hits cs))
    same :
        recent now (queue key (run hits cs))
        ≡ recent now (queue key hits) ++ recent now (passed key hits cs)

  agrees :
      (start : ℕ) (hits : Hits) (cs : List Call)
      → IsBefore now start cs
      → IsOrdered start (queue key hits)
      → Agrees start hits cs
  unfolding run passed
  agrees start hits [] b o = record { ordered = o.ascending; same = sym (append-nil _) }
  agrees start hits (c ∷ cs) b o =
      let e = effect key c hits in
      let later = agrees c.now _ cs b.1 (effect-IsOrdered key c hits start b.0 o e) in
      record {
        ordered = later.ordered;
        same = later.same ∙ effect-recent c hits cs (IsBefore-le now c.now cs b.1) e;
      }

-- From an empty store, after any run of calls whose times do not go back and end by `now`: a call
-- for `key` at `now` passes exactly when fewer than `limit` calls for `key` have passed in the
-- trailing 60 seconds.
pub rate_ok-run :
    (key : String) (limit start now : ℕ) (cs : List Call)
    → IsBefore now start cs
    → (rate_ok key limit now (run [] cs)).0 ≡ ltb (length (recent now (passed key [] cs))) limit
unfolding rate_ok
rate_ok-run key limit start now cs b =
    let a = agrees key now start [] cs b (record { ascending = tt; past = tt }) in
    let e = popleft_old-eq-recent now (queue key (run [] cs)) a.ordered ∙ a.same in
    rw e (ground arith)
