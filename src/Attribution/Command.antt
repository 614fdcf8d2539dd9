-- ===== src/Attribution/Command.antt =====
-- main of tools/attribute_leak.py: what the options, the environment and the ledger's file, which is
-- given by its lines, make of a token or of a tree. What is printed is the result.
use netplex_support.Prelude.{ℕ, String, Option, some, List, [], ◌∷◌, ◌++◌, map, keep}
use netplex_support.Prelude.Options.{◌>>=◌}
use netplex_support.Prelude.Text.{strip, csv, non_empty}
use netplex_support.Platform.{Platform}
use netplex_support.Cryptography.{Cryptography}
use netplex_support.Attribution.{Ledger, Report, load_ledger, attribute}
use netplex_support.Attribution.Scan.{File, Entry, scan}

pub record Command : Type 0 where
  pub stamp_pubkeys : List String
  pub env_keys : String
  pub ledger_lines : List String

unfoldable pub stamp_trust_of : Command → List String
unfolding csv
stamp_trust_of m = m.stamp_pubkeys ++ csv m.env_keys

unfoldable pub ledger_of : Platform → Command → Ledger
unfolding load_ledger strip
ledger_of p m = load_ledger p (keep non_empty (map strip m.ledger_lines)) []

-- 0 if hits else 2
abbrev pub exit_code : List Entry → ℕ
exit_code [] = 2
exit_code (e ∷ es) = 0

unfoldable pub scan_command :
    Platform → Cryptography → Command → List File → Option (List Entry × ℕ)
unfolding stamp_trust_of ledger_of scan
scan_command p c m files = do
  found ← scan p c (stamp_trust_of m) (ledger_of p m) files
  some (found, exit_code found)

unfoldable pub token_command : Platform → Cryptography → Command → String → Option Report
unfolding stamp_trust_of ledger_of attribute strip
token_command p c m token = attribute p c (stamp_trust_of m) (ledger_of p m) (strip token)
