-- ===== src/Concurrency/Groups.antt =====
-- What the report says of one licence, in terms of its own check-ins alone.
use netplex_support.Prelude.{
  ℕ, String, ◌&&◌, Option, none, some, List, [], ◌∷◌, ◌≡◌, inl, inr, refl, ap, ◌∙◌, lookup, insert,
  lookup-insert, keep, Bool-cases, arith, eq_iff, ◌==◌,
}
use mathlib.Core.Option.{get_or}
use netplex_support.Concurrency.{CheckIn, Group, empty_group, gather, counts, groups, has_license}

-- The group of a licence after the check-ins `rs`, which are all its own.
abbrev pub gathered : List CheckIn → Option Group → Option Group
gathered [] g = g
gathered (r ∷ rs) g = gathered rs (some (gather r (get_or g empty_group)))

-- The check-ins of a licence that count.
abbrev pub own : Option ℕ → String → List CheckIn → List CheckIn
own cutoff lid rs = keep (λ r. counts cutoff r && has_license lid r) rs

lookup-groups_from :
    (cutoff : Option ℕ) (lid : String) (rs : List CheckIn) (by_lic : List (String × Group))
    → lookup lid (groups cutoff rs by_lic) ≡ gathered (own cutoff lid rs) (lookup lid by_lic)
unfolding groups
lookup-groups_from cutoff lid [] by_lic = refl
lookup-groups_from cutoff lid (r ∷ rs) by_lic = elim (Bool-cases (counts cutoff r)) [
  | inr e ↦ rw e (lookup-groups_from cutoff lid rs by_lic)
  | inl e ↦ elim (Bool-cases (has_license lid r)) [
    | inl q ↦
        let same : get_or r.license_id "" ≡ lid = (eq_iff _ lid).0 q in
        rw (e, q)
          (lookup-groups_from cutoff lid rs _
            ∙ ap (gathered (own cutoff lid rs)) (lookup-insert _ lid _ by_lic ∙ rw q (rw same)))
    | inr q ↦
        rw (e, q)
          (lookup-groups_from cutoff lid rs _
            ∙ ap (gathered (own cutoff lid rs)) (lookup-insert _ lid _ by_lic ∙ rw q))
  ]
]

-- What the dictionary holds of a licence is gathered from the licence's own check-ins.
pub lookup-groups :
    (cutoff : Option ℕ) (lid : String) (rs : List CheckIn)
    → lookup lid (groups cutoff rs []) ≡ gathered (own cutoff lid rs) none
lookup-groups cutoff lid rs = lookup-groups_from cutoff lid rs []

-- A dictionary has a key once.
abbrev pub IsDict : List (String × Group) → Type 0
IsDict [] = Unit
IsDict ((k, g) ∷ gs) = (lookup k gs ≡ none) × IsDict gs

insert-IsDict :
    (k : String) (g : Group) (gs : List (String × Group)) → IsDict gs → IsDict (insert k g gs)
insert-IsDict k g [] d = (refl, tt)
insert-IsDict k g ((j, h) ∷ gs) d = elim (Bool-cases (j == k)) [
  | inl e ↦ rw e d
  | inr e ↦ rw e (
    lookup-insert k j g gs ∙ ground (arith, e, d.0, eq_iff j k, eq_iff k j),
    insert-IsDict k g gs (d.1),
  )
]

pub groups-IsDict :
    (cutoff : Option ℕ) (rs : List CheckIn) (gs : List (String × Group))
    → IsDict gs
    → IsDict (groups cutoff rs gs)
unfolding groups
groups-IsDict cutoff [] gs d = d
groups-IsDict cutoff (r ∷ rs) gs d = elim (Bool-cases (counts cutoff r)) [
  | inl e ↦ rw e (groups-IsDict cutoff rs _ (insert-IsDict (get_or r.license_id "") _ gs d))
  | inr e ↦ rw e (groups-IsDict cutoff rs gs d)
]
