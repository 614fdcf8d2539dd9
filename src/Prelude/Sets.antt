-- ===== src/Prelude/Sets.antt =====
-- Equality of texts, numbers and integers is decidable, so that equality of rows is a proposition.
use Prim.Native.Nat.{ℕ}
use Prim.Native.String.{String}
use mathlib.Core.HLevel.{hedberg}
use native.Mathlib.Decide.{ℕ_discrete}
use text.Mathlib.Text.{◌==◌}
use text.Mathlib.TextEquality.{eq_iff}
use mathlib.Core.Logic.{inl, inr}
use netplex_support.Prelude.Tests.{Bool-cases}
use netplex_support.Prelude.Int.{ℤ}

pub String-discrete : Discrete String
String-discrete s t = elim (Bool-cases (s == t)) [
  | inl e ↦ yes ((eq_iff s t).0 e)
  | inr e ↦ no (λ q. cc ((eq_iff s t).1 q))
]

pub String-set : IsSet String
String-set = hedberg String-discrete

pub ℕ-set : IsSet ℕ
ℕ-set = hedberg ℕ_discrete

pub ℤ-set : IsSet ℤ
ℤ-set = hlevel (ℕ-set)
