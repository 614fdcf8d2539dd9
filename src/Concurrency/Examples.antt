-- ===== src/Concurrency/Examples.antt =====
-- A ledger in which one licence is shared.
use mathlib.Core.List.{Pairwise}
use netplex_support.Prelude.{
  ℕ, String, true, false, ◌&&◌, not, nat_eq, ltb, length, ◌==◌, none, some, List, [], ◌∷◌, ◌≡◌,
  refl, any,
}
use netplex_support.Concurrency.{CheckIn, notify, worse, analyze}
use netplex_support.Prelude.Text.{lower}
use netplex_support.Concurrency.Machines.{check_ins, is_machine, IsDistinct, allowed}
use netplex_support.Concurrency.Report.{names, analyze-is_over, analyze-IsSorted}

abbrev check_in : String → String → ℕ → CheckIn
check_in license machine ts = record {
  license_id = some license;
  fingerprint = some machine;
  instance_id = none;
  ip_prefix = none;
  tier = some "Pro";
  seats = none;
  ts = some ts;
}

-- The first check-in is too old to count.
abbrev ledger : List CheckIn
ledger =
    check_in "lic-1" "m0" 100
    ∷ check_in "lic-1" "m1" 9000000
    ∷ check_in "lic-2" "m1" 9000000
    ∷ check_in "lic-1" "m2" 9000001
    ∷ check_in "lic-1" "m3" 9000002
    ∷ check_in "lic-1" "m3" 9000003
    ∷ []

analyze_test :
    analyze 30 (some 9000010) ledger
    ≡ record {
      license_id = "lic-1";
      tier = "Pro";
      seat_allowance = 2;
      distinct_machines = 3;
      distinct_instances = 0;
      distinct_ip_prefixes = 0;
      severity = notify;
    }
      ∷ []
unfolding analyze
analyze_test = refl

-- The three machines that count, and no machine of the check-in that is too old.
analyze-is_over_example :
    (machines : List String) × IsDistinct machines
    × ((x : String)
        → any (λ t. t == x) machines ≡ is_machine x (check_ins 30 (some 9000010) "lic-1" ledger))
    × (any (names "lic-1") (analyze 30 (some 9000010) ledger) ≡ (
        not (nat_eq (allowed (check_ins 30 (some 9000010) "lic-1" ledger)) 0)
        && ltb (allowed (check_ins 30 (some 9000010) "lic-1" ledger)) (length machines)))
analyze-is_over_example = analyze-is_over 30 (some 9000010) ledger "lic-1"

check_ins_tests :
    (allowed (check_ins 30 (some 9000010) "lic-1" ledger) ≡ 2)
    × (is_machine "m3" (check_ins 30 (some 9000010) "lic-1" ledger) ≡ true)
    × (is_machine "m0" (check_ins 30 (some 9000010) "lic-1" ledger) ≡ false)
unfolding lower
check_ins_tests = (refl, refl, refl)

analyze-IsSorted_test : Pairwise (λ a b. worse a b ≡ true) (analyze 30 (some 9000010) ledger)
analyze-IsSorted_test = analyze-IsSorted 30 (some 9000010) ledger
