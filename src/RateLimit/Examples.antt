-- ===== src/RateLimit/Examples.antt =====
-- Runs of the rate limiter.
use netplex_support.Prelude.{ℕ, ◌+◌, ◌≤◌, List, [], ◌∷◌, ◌≡◌, refl, length, ltb, arith}
use netplex_support.RateLimit.{rate_ok, rate_window}
use netplex_support.RateLimit.Window.{Call, passed, count_within, passed-within-limit}
use netplex_support.RateLimit.Exact.{run, recent, rate_ok-run}

abbrev call_at : ℕ → Call
call_at now = record { key = "web:1.2.3.4"; limit = 2; now = now }

-- The third call within a minute does not pass.
abbrev calls : List Call
calls = call_at 1000 ∷ call_at 2000 ∷ call_at 3000 ∷ []

passed_test : passed "web:1.2.3.4" [] calls ≡ 1000 ∷ 2000 ∷ []
unfolding passed rate_ok
passed_test = refl

passed-within-limit_example :
    count_within 500 (500 + rate_window) (passed "web:1.2.3.4" [] calls) ≤ 2
passed-within-limit_example =
    passed-within-limit "web:1.2.3.4" 2 500 (500 + rate_window) 0 calls
      (omega arith, (omega arith, (omega arith, tt)))
      ((λ e. omega arith), ((λ e. omega arith), ((λ e. omega arith), tt))) (omega arith)

rate_ok-run_example :
    (rate_ok "web:1.2.3.4" 2 4000 (run [] calls)).0
    ≡ ltb (length (recent 4000 (passed "web:1.2.3.4" [] calls))) 2
rate_ok-run_example =
    rate_ok-run "web:1.2.3.4" 2 0 4000 calls
      (omega arith, (omega arith, (omega arith, omega arith)))
