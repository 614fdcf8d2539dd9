-- ===== src/Concurrency.antt =====
-- tools/concurrency_report.py: licences that check in from more machines than they allow. A check-in
-- is held with the types that the ledger's format names; a key that is absent or null is `none`.
mod Examples
pub mod Groups
pub mod Machines
pub mod Report
use netplex_support.Prelude.{
  ℕ, ◌+◌, ◌-◌, ◌*◌, String, Bool, true, false, ◌&&◌, ◌||◌, not, Option, none, some, List, [], ◌∷◌,
  ◌++◌, any, keep, length, lookup, insert, ltb, leb, nat_eq, ◌==◌, if◌then◌else◌,
}
use mathlib.Core.Option.{get_or}
use netplex_support.Database.Memory.{sort_rows, insert_row}
use netplex_support.Prelude.Int.{ℤ, pos, negsuc}
use netplex_support.Prelude.Text.{non_empty, lower}

pub record CheckIn : Type 0 where
  pub license_id : Option String
  pub fingerprint : Option String
  pub instance_id : Option String
  pub ip_prefix : Option String
  pub tier : Option String
  pub seats : Option ℤ
  pub ts : Option ℕ

abbrev pub default_seats : List (String × ℕ)
default_seats =
    ("free", 1)
    ∷ ("associate", 1)
    ∷ ("pro", 2)
    ∷ ("professional", 2)
    ∷ ("architect", 2)
    ∷ ("team", 0)
    ∷ ("classroom", 0)
    ∷ ("class", 0)
    ∷ ("enterprise", 0)
    ∷ ("master", 0)
    ∷ []

-- _seat_allowance
unfoldable pub seat_allowance : String → Option ℤ → ℕ
unfolding lower
seat_allowance tier (some (pos n)) = n
seat_allowance tier explicit = get_or (lookup (lower tier) default_seats) 1

pub data Severity : Type 0 where
  fine : Severity
  notify : Severity
  review : Severity
  escalate : Severity

-- max(seats * 5, 9)
abbrev review_bound : ℕ → ℕ
review_bound seats = if ltb (seats * 5) 9 then 9 else seats * 5

-- _severity, where `fine` is "ok"
unfoldable pub severity : ℕ → ℕ → Severity
severity distinct seats =
    if nat_eq seats 0
    then fine
    else if leb distinct seats
    then fine
    else if leb distinct (seats + 2)
    then notify
    else if leb distinct (review_bound seats)
    then review
    else escalate

-- What is gathered for one licence.
pub record Group : Type 0 where
  pub fps : List String
  pub instances : List String
  pub ips : List String
  pub tier : String
  pub seats : Option ℤ

abbrev pub empty_group : Group
empty_group = record { fps = []; instances = []; ips = []; tier = ""; seats = none }

-- set.add of a text that is given and not empty
abbrev pub add_given : Option String → List String → List String
add_given none set = set
add_given (some s) set = if non_empty s && not (any (λ t. t == s) set) then set ++ s ∷ [] else set

abbrev pub or_tier : Option String → String → String
or_tier none old = old
or_tier (some s) old = if non_empty s then s else old

abbrev pub first_seats : Option ℤ → Option ℤ → Option ℤ
first_seats none new = new
first_seats (some n) new = some n

-- The body of the loop, for the group of the check-in's licence.
unfoldable pub gather : CheckIn → Group → Group
gather r g = record {
  fps = add_given r.fingerprint g.fps;
  instances = add_given r.instance_id g.instances;
  ips = add_given r.ip_prefix g.ips;
  tier = or_tier r.tier g.tier;
  seats = first_seats g.seats r.seats;
}

abbrev pub older_than : Option ℕ → Option ℕ → Bool
older_than none ts = false
older_than (some cutoff) none = false
older_than (some cutoff) (some ts) = ltb ts cutoff

abbrev pub has_license : String → CheckIn → Bool
has_license lid r = get_or r.license_id "" == lid

-- Whether the loop reaches its body: the check-in names a licence, and is not too old.
unfoldable pub counts : Option ℕ → CheckIn → Bool
counts cutoff r = non_empty (get_or r.license_id "") && not (older_than cutoff r.ts)

-- The loop over the records, into the dictionary of groups.
unfoldable pub groups : Option ℕ → List CheckIn → List (String × Group) → List (String × Group)
unfolding gather counts
groups cutoff [] by_lic = by_lic
groups cutoff (r ∷ rs) by_lic =
    let lid = get_or r.license_id "" in
    groups cutoff rs (
      if counts cutoff r
      then insert lid (gather r (get_or (lookup lid by_lic) empty_group)) by_lic
      else by_lic)

pub record Flag : Type 0 where
  pub license_id : String
  pub tier : String
  pub seat_allowance : ℕ
  pub distinct_machines : ℕ
  pub distinct_instances : ℕ
  pub distinct_ip_prefixes : ℕ
  pub severity : Severity

abbrev pub flag_of : String × Group → Flag
flag_of (lid, g) =
    let seats = seat_allowance g.tier g.seats in
    record {
      license_id = lid;
      tier = g.tier;
      seat_allowance = seats;
      distinct_machines = length g.fps;
      distinct_instances = length g.instances;
      distinct_ip_prefixes = length g.ips;
      severity = severity (length g.fps) seats;
    }

abbrev pub is_fine : Severity → Bool
is_fine fine = true
is_fine _ = false

-- The rows that are not "ok", in the order of the dictionary.
unfoldable pub flags : List (String × Group) → List Flag
unfolding severity seat_allowance
flags [] = []
flags (g ∷ gs) =
    let rest = flags gs in if is_fine (flag_of g).severity then rest else flag_of g ∷ rest

unfoldable pub rank : Severity → ℕ
rank escalate = 0
rank review = 1
rank notify = 2
rank fine = 9

abbrev pub worse : Flag → Flag → Bool
worse a b =
    if nat_eq (rank a.severity) (rank b.severity)
    then leb b.distinct_machines a.distinct_machines
    else ltb (rank a.severity) (rank b.severity)

-- out.sort(key = …), which is stable
unfoldable pub sort_flags : List Flag → List Flag
unfolding sort_rows insert_row rank
sort_flags xs = sort_rows worse xs

-- now - window_days * 86400, or no cutoff. A cutoff below 0 is 0 here: no ts lies before either.
abbrev pub cutoff_of : ℕ → Option ℕ → Option ℕ
cutoff_of window_days none = none
cutoff_of window_days (some now) = some (now - window_days * 86400)

unfoldable pub analyze : ℕ → Option ℕ → List CheckIn → List Flag
unfolding groups flags sort_flags
analyze window_days now records = sort_flags (flags (groups (cutoff_of window_days now) records []))
