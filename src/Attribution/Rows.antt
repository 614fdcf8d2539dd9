-- ===== src/Attribution/Rows.antt =====
-- _load_ledger of tools/attribute_leak.py, and the dict of rows that it makes.
use netplex_support.Prelude.{
  String, Bool, true, false, Option, none, some, List, [], ◌∷◌, ◌==◌, nat_eq, if◌then◌else◌,
}
use netplex_support.Prelude.Int.{ℤ, pos, negsuc}
use netplex_support.Json.{
  Value, null, bool, int, float, str, arr, obj, Dict, as_dict, get_default, is_hashable,
}
use netplex_support.Platform.{Platform, truth}

-- What values are compared by, as keys of a dict.
pub data Scalar : Type 0 where
  text : String → Scalar
  number : ℤ → Scalar
  nothing real compound : Scalar

abbrev scalar : Value → Scalar
scalar null = nothing
scalar (bool true) = number (pos 1)
scalar (bool false) = number (pos 0)
scalar (int n) = number n
scalar (float s) = real
scalar (str s) = text s
scalar (arr xs) = compound
scalar (obj ms) = compound

abbrev eq_ℤ : ℤ → ℤ → Bool
eq_ℤ (pos a) (pos b) = nat_eq a b
eq_ℤ (negsuc a) (negsuc b) = nat_eq a b
eq_ℤ _ _ = false

abbrev same_scalar : Bool → Scalar → Scalar → Bool
same_scalar floats nothing nothing = true
same_scalar floats (text s) (text t) = s == t
same_scalar floats (number a) (number b) = eq_ℤ a b
same_scalar floats (number a) real = floats
same_scalar floats real (number b) = floats
same_scalar floats real real = floats
same_scalar floats _ _ = false

-- v == w, for values that can be keys
unfoldable pub same_value : Platform → Value → Value → Bool
same_value p v w = same_scalar (p.float_equal v w) (scalar v) (scalar w)

-- The ledger: download ids, and their rows.
abbrev pub Ledger : Type 0
Ledger = List (Value × Dict)

unfoldable pub find_row : Platform → Value → Ledger → Option Dict
unfolding same_value
find_row p key [] = none
find_row p key ((k, row) ∷ ledger) = if same_value p k key then some row else find_row p key ledger

unfoldable pub put_row : Platform → Value → Dict → Ledger → Ledger
unfolding same_value
put_row p key row [] = (key, row) ∷ []
put_row p key row ((k, r) ∷ ledger) =
    if same_value p k key then (k, row) ∷ ledger else (k, r) ∷ put_row p key row ledger

-- One line of the ledger's file: it leaves the loop where it raises outside the inner `try`.
pub data Line : Type 0 where
  skipped stops : Line
  row : Value → Dict → Line

abbrev pub row_line : Platform → Dict → Line
row_line p r =
    let id = get_default r "download_id" null in
    if truth p id then (if is_hashable id then row id r else stops) else skipped

abbrev pub read_line : Platform → Option Value → Line
read_line p none = skipped
read_line p (some v) = elim (as_dict v) [ none ↦ stops | some r ↦ row_line p r ]

-- _load_ledger, over the lines that are not blank, into `out`
unfoldable pub load_ledger : Platform → List String → Ledger → Ledger
unfolding put_row truth
load_ledger p [] out = out
load_ledger p (line ∷ lines) out = elim (read_line p (p.loads line)) [
  | skipped ↦ load_ledger p lines out
  | stops ↦ out
  | row id r ↦ load_ledger p lines (put_row p id r out)
]
