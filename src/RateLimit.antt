-- ===== src/RateLimit.antt =====
-- app/ratelimit.py: the sliding-window rate limiter that every intake route shares.
-- `_hits` is a dictionary from keys to deques of times; a key with no deque reads as the empty one.
-- Times are those of `time.monotonic()`, in nanoseconds.
mod Examples
pub mod Window
pub mod Exact
use netplex_support.Prelude.{
  ℕ, ◌+◌, ◌-◌, ◌*◌, String, Bool, true, false, Option, none, some, List, [], ◌∷◌, ◌++◌, ltb, leb,
  length, lookup, insert, if◌then◌else◌,
}

-- _RATE_WINDOW = 60.0
abbrev pub rate_window : ℕ
rate_window = 60_000_000_000

abbrev pub Hits : Type 0
Hits = List (String × List ℕ)

abbrev or_empty : Option (List ℕ) → List ℕ
or_empty none = []
or_empty (some q) = q

-- _hits[key]
abbrev pub queue : String → Hits → List ℕ
queue key hits = or_empty (lookup key hits)

-- The `while` loop: hits older than the window leave at the left end.
unfoldable pub popleft_old : ℕ → List ℕ → List ℕ
popleft_old now [] = []
popleft_old now (t ∷ q) =
    let rest = popleft_old now q in if ltb rate_window (now - t) then rest else t ∷ q

-- The answer, and the hits with this call recorded if the answer is yes.
unfoldable pub rate_ok : String → ℕ → ℕ → Hits → Bool × Hits
unfolding popleft_old
rate_ok key limit now hits =
    let q = popleft_old now (queue key hits) in
    if leb limit (length q)
    then (false, insert key q hits)
    else (true, insert key (q ++ now ∷ []) hits)
