-- ===== src/Minting/Policy.antt =====
-- Which tokens are minted.
use netplex_support.Prelude.{
  Option, none, ℕ, String, Bool, true, false, ◌&&◌, not, some, ◌≡◌, ◌⊎◌, ◌↔◌, inl, inr, refl, sym,
  ap, ◌∙◌, Bool-cases, nat_eq, length, arith, eq_iff, ◌==◌,
}
use netplex_support.Prelude.Text.{strip, lower, non_empty}
use netplex_support.Json.{Value, null, bool, int, float, str, arr, obj, Members, end, Dict}
use netplex_support.Base64.{Bytes, b64decode}
use netplex_support.Platform.{Platform}
use netplex_support.Cryptography.{Cryptography}
use netplex_support.Tool.{
  done, or_raise, require, bind-done, require-done, or_raise-done, done-inj, ◌>>◌,
}
use netplex_support.Minting.{
  Options, read_seed, real_bind, lockable, check_policy, dict_value, read_entitlements, claims,
  signed, mint,
}

-- A token that is bound to no machine, or that the policy lets be bound.
abbrev pub IsAllowed : Options → Type 0
IsAllowed o =
    ((o.machine ≡ "") ⊎ ((o.machine ≡ "any") ⊎ (o.allow_floating ≡ true)))
    ⊎ ((lower o.tier ≡ "enterprise")
        ⊎ ((lower o.tier ≡ "master") ⊎ ((lower o.tier ≡ "architect") × (o.perpetual ≡ true))))

non_empty_eq : (s : String) → non_empty s ≡ false → s ≡ ""
non_empty_eq String.[] h = refl
non_empty_eq (String.◌∷◌ c s) h = cc

floats : (b : Bool) → not b ≡ false → b ≡ true
floats b h = ground arith

unbound : (o : Options) → real_bind o ≡ false → IsAllowed o
unbound o h = elim (Bool-cases (non_empty o.machine)) [
  | inr e ↦ inl (inl (non_empty_eq o.machine e))
  | inl e ↦ elim (Bool-cases (o.machine == "any")) [
    | inl any ↦ inl (inr (inl ((eq_iff o.machine "any").0 any)))
    | inr other ↦ inl (inr (inr (floats o.allow_floating (rw (e, other) at h))))
  ]
]

module _ (tier : String) (perpetual : Bool) where
  -- The two tests of the guard, and the tiers that they let pass.
  abbrev passes : Bool
  passes = lockable tier && not (tier == "architect" && not perpetual)

  abbrev MayLock : Type 0
  MayLock =
      (tier ≡ "enterprise") ⊎ ((tier ≡ "master") ⊎ ((tier ≡ "architect") × (perpetual ≡ true)))

  passes_sound : passes ≡ true → MayLock
  passes_sound h = elim (Bool-cases (tier == "enterprise")) [
    | inl e ↦ inl ((eq_iff tier "enterprise").0 e)
    | inr e ↦ elim (Bool-cases (tier == "master")) [
      | inl m ↦ inr (inl ((eq_iff tier "master").0 m))
      | inr m ↦ inr (inr ((eq_iff tier "architect").0 (ground arith), ground arith))
    ]
  ]

  passes_complete : MayLock → passes ≡ true
  passes_complete (inl e) = rw e
  passes_complete (inr (inl e)) = rw e
  passes_complete (inr (inr (e, forever))) = rw (e, forever)

require_both :
    (a b : Bool) (s t : String) → (require a s >> require b t) ≡ done tt → (a && b) ≡ true
require_both a b s t h = ground arith

require_all : (a b : Bool) (s t : String) → (a && b) ≡ true → (require a s >> require b t) ≡ done tt
require_all a b s t h = ground arith

policy_sound : (o : Options) → check_policy o ≡ done tt → IsAllowed o
unfolding check_policy
policy_sound o h = elim (Bool-cases (real_bind o)) [
  | inr e ↦ unbound o e
  | inl e ↦ inr (passes_sound (lower o.tier) o.perpetual (require_both _ _ _ _ (rw e at h)))
]

not_bound :
    (o : Options)
    → (o.machine ≡ "") ⊎ ((o.machine ≡ "any") ⊎ (o.allow_floating ≡ true))
    → real_bind o ≡ false
not_bound o (inl e) = rw e
not_bound o (inr (inl e)) = rw e (ground arith)
not_bound o (inr (inr e)) = rw e (ground arith)

policy_complete : (o : Options) → IsAllowed o → check_policy o ≡ done tt
unfolding check_policy
policy_complete o (inl free) = rw (not_bound o free)
policy_complete o (inr h) = elim (Bool-cases (real_bind o)) [
  | inr e ↦ rw e
  | inl e ↦ rw e (require_all _ _ _ _ (passes_complete (lower o.tier) o.perpetual h))
]

-- The caps that are signed: an empty dict where no file is named, else the dict that the file's text
-- is read as.
abbrev pub AreCaps : Platform → Option String → Value → Type 0
AreCaps p none caps = caps ≡ obj end
AreCaps p (some text) caps = (ms : Members) × (p.loads text ≡ some (obj ms)) × (caps ≡ obj ms)

dict_value-done :
    (o : Option Value) (caps : Value)
    → dict_value o ≡ done caps
    → (ms : Members) × (o ≡ some (obj ms)) × (caps ≡ obj ms)
dict_value-done none caps h = cc
dict_value-done (some null) caps h = cc
dict_value-done (some (bool b)) caps h = cc
dict_value-done (some (int n)) caps h = cc
dict_value-done (some (float s)) caps h = cc
dict_value-done (some (str s)) caps h = cc
dict_value-done (some (arr xs)) caps h = cc
dict_value-done (some (obj ms)) caps h = (ms, refl, sym (done-inj (obj ms) caps h))

caps_sound :
    (p : Platform) (o : Option String) (caps : Value)
    → read_entitlements p o ≡ done caps
    → AreCaps p o caps
caps_sound p none caps h = sym (done-inj (obj end) caps h)
caps_sound p (some text) caps h = dict_value-done (p.loads text) caps h

pub caps_complete :
    (p : Platform) (o : Option String) (caps : Value)
    → AreCaps p o caps
    → read_entitlements p o ≡ done caps
caps_complete p none caps h = ap done (sym h)
caps_complete p (some text) caps (ms, reads, same) = rw (reads, same) refl

-- What a run of the tool reads, and what it signs.
pub record IsMinted (p : Platform) (c : Cryptography) (o : Options) (time : ℕ) (token : Dict)
    : Type 0 where
  pub seed : Bytes
  pub key : Bytes
  pub entitlements : Value
  pub has_seed : b64decode (strip o.key) ≡ some seed
  pub seed_length : length seed ≡ 32
  pub has_key : c.public_key seed ≡ some key
  pub is_allowed : IsAllowed o
  pub has_caps : AreCaps p o.entitlements entitlements
  pub token_eq : token ≡ signed p c seed key (claims p o time entitlements)

nat_eq→eq : (a b : ℕ) → nat_eq a b ≡ true → a ≡ b
nat_eq→eq a b h = ground arith

read_seed-done :
    (text : String) (seed : Bytes)
    → read_seed text ≡ done seed
    → (b64decode (strip text) ≡ some seed) × (length seed ≡ 32)
unfolding read_seed
read_seed-done text seed h =
    let (found, e, h2) = bind-done (or_raise (b64decode (strip text))) _ seed h in
    let (u, long, h3) = bind-done (require _ _) _ seed h2 in
    let same : found ≡ seed = done-inj found seed h3 in
    (
      or_raise-done _ seed (e ∙ ap done same),
      ap length (sym same) ∙ nat_eq→eq _ _ (require-done _ _ _ long),
    )

module _ (p : Platform) (c : Cryptography) (o : Options) (time : ℕ) (token : Dict) where
  mint_sound : mint p c o time ≡ done token → IsMinted p c o time token
  unfolding mint
  mint_sound h =
      let (seed, e1, h1) = bind-done (read_seed o.key) _ token h in
      let (key, e2, h2) = bind-done (or_raise (c.public_key seed)) _ token h1 in
      let (u, e3, h3) = bind-done (check_policy o) _ token h2 in
      let (caps, e4, h4) = bind-done (read_entitlements p o.entitlements) _ token h3 in
      let (has, long) = read_seed-done o.key seed e1 in
      record {
        seed = seed;
        key = key;
        entitlements = caps;
        has_seed = has;
        seed_length = long;
        has_key = or_raise-done _ key e2;
        is_allowed = policy_sound o e3;
        has_caps = caps_sound p o.entitlements caps e4;
        token_eq = cc;
      }

  nat_eq_refl : (n : ℕ) → nat_eq n n ≡ true
  nat_eq_refl n = ground arith

  mint_complete : IsMinted p c o time token → mint p c o time ≡ done token
  unfolding mint read_seed
  mint_complete m = rw (m.has_seed) (
      rw (m.seed_length) (
        rw
          (
            m.has_key,
            policy_complete o (m.is_allowed),
            caps_complete p o.entitlements m.entitlements m.has_caps,
          )
          (ap done (sym (m.token_eq)))))

-- A token is minted exactly if the key's file holds a seed of 32 bytes in base64 that makes a key, no
-- file of caps is named or json.loads reads its text as a dict, and the token either is bound to no
-- machine (a blank machine, "any", or a floating token), or is an enterprise or master token, or a
-- perpetual architect token. What is minted is then the claims of the options, signed with that
-- seed.
pub mint-done :
    (p : Platform) (c : Cryptography) (o : Options) (time : ℕ) (token : Dict)
    → (mint p c o time ≡ done token) ↔ IsMinted p c o time token
mint-done p c o time token = (mint_sound p c o time token, mint_complete p c o time token)
