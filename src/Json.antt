-- ===== src/Json.antt =====
-- JSON values as Python's `json` holds them. A number with a fraction or an exponent is held by its
-- text; what it is as a float is asked of the platform (Platform.antt).
pub mod Write
pub mod Dump
use mathlib.Core.Option.{get_or}
use netplex_support.Prelude.{String, Bool, Option, none, some, List, [], ◌∷◌, lookup, ◌≡◌, refl, ap}
use netplex_support.Prelude.Int.{ℤ}

mutual
  pub data Value : Type 0 where
    null : Value
    bool : Bool → Value
    int : ℤ → Value
    float : String → Value
    str : String → Value
    arr : Items → Value
    obj : Members → Value

  pub data Items : Type 0 where
    nil : Items
    cons : Value → Items → Items

  pub data Members : Type 0 where
    end : Members
    member : String → Value → Members → Members

-- A Python dict read from JSON: its keys are texts.
abbrev pub Dict : Type 0
Dict = List (String × Value)

abbrev pub to_dict : Members → Dict
to_dict end = []
to_dict (member k v ms) = (k, v) ∷ to_dict ms

abbrev pub of_dict : Dict → Members
of_dict [] = end
of_dict ((k, v) ∷ d) = member k v (of_dict d)

pub to_dict-of_dict : (d : Dict) → to_dict (of_dict d) ≡ d
to_dict-of_dict [] = refl
to_dict-of_dict ((k, v) ∷ d) = ap (λ ms. (k, v) ∷ ms) (to_dict-of_dict d)

-- v if isinstance(v, dict)
abbrev pub as_dict : Value → Option Dict
as_dict (obj ms) = some (to_dict ms)
as_dict _ = none

-- v if isinstance(v, str)
abbrev pub as_text : Value → Option String
as_text (str s) = some s
as_text _ = none

-- A value that a dict or a set can be asked for: lists and dicts raise TypeError.
abbrev pub is_hashable : Value → Bool
is_hashable (arr xs) = Bool.false
is_hashable (obj ms) = Bool.false
is_hashable _ = Bool.true

-- d.get(key, default)
abbrev pub get_default : Dict → String → Value → Value
get_default d key v = get_or (lookup key d) v
