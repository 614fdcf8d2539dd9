-- ===== src/Licensing/Token.antt =====
-- Which tokens _verify_token answers as valid.
use netplex_support.Prelude.{
  ℕ, String, true, false, Option, none, some, ◌≡◌, ◌↔◌, inl, inr, refl, ap, sym, Bool-cases,
  Option-cases, if◌then◌else◌,
}
use netplex_support.Prelude.Int.{ℤ, pos, ltb_ℤ}
use netplex_support.Http.{ok}
use netplex_support.Json.{Value, null, Dict, get_default}
use netplex_support.Platform.{Platform, int_of}
use netplex_support.Signing.{TrustStore, verify_manifest, Verdict-cases, is_null}
use netplex_support.Signing.Accept.{IsSigned, verify_manifest-accepted}
use netplex_support.Licensing.{
  VerifyResult, verify_token, by_claims, by_verdict, check_expiry, claims_of, tier_of, valid_result,
  expired_result, invalid,
}

-- A member `expires_at` that gives the time `at`, if any, and lets a token pass at a time `now`.
unfoldable pub LetsPass : Platform → ℕ → Value → Option ℤ → Type 0
LetsPass p now v none = v ≡ null
LetsPass p now v (some at) = (int_of p v ≡ some at) × (ltb_ℤ at (pos now) ≡ false)

pub record IsEntitled (p : Platform) (now : ℕ) (trust : TrustStore) (token tier : String)
    (expires_at : Option ℤ) : Type 0 where
  pub claims : Dict
  pub kid : String
  pub parses : claims_of (p.loads token) ≡ some claims
  pub signed : IsSigned p trust claims kid
  pub has_tier : tier ≡ tier_of p claims
  pub in_time : LetsPass p now (get_default claims "expires_at" null) expires_at

module _ (p : Platform) (now : ℕ) where
  not_invalid :
      (why tier : String) (at : Option ℤ) → ok (invalid why) ≡ ok (valid_result tier at) → ⊥
  not_invalid why tier at h =
      let same : invalid why ≡ valid_result tier at = cc in
      let flag : false ≡ true = ap (λ r. r.valid) same in cc

  fields_of :
      (tier tier' : String) (at at' : Option ℤ)
      → ok (valid_result tier at) ≡ ok (valid_result tier' at')
      → (tier' ≡ tier) × (at ≡ at')
  fields_of tier tier' at at' h =
      let same : valid_result tier at ≡ valid_result tier' at' = cc in
      (sym (ap (λ r. r.tier) same), ap (λ r. r.expires_at) same)

  timed :
      (v : Value) (tier tier' : String) (at' : Option ℤ) (at : ℤ)
      → int_of p v ≡ some at
      → (if ltb_ℤ at (pos now)
          then ok (expired_result tier at)
          else ok (valid_result tier (some at)))
        ≡ ok (valid_result tier' at')
      → (tier' ≡ tier) × LetsPass p now v at'
  unfolding LetsPass
  timed v tier tier' at' at e h = elim (Bool-cases (ltb_ℤ at (pos now))) [
    | inl late ↦
        let found = rw late at h in
        let same : expired_result tier at ≡ valid_result tier' at' = cc in
        let flag : false ≡ true = ap (λ r. r.valid) same in cc
    | inr passes ↦
        let (a, b) = fields_of tier tier' (some at) at' (rw passes at h) in
        (a, rw (← b) (e, passes))
  ]

  never : (v : Value) (at : Option ℤ) → v ≡ null → none ≡ at → LetsPass p now v at
  unfolding LetsPass
  never v at n e = rw (← e) n

  null_of : (v : Value) → is_null v ≡ true → v ≡ null
  null_of null h = refl
  null_of v h = cc

  not_null_of : (v : Value) (at : ℤ) → int_of p v ≡ some at → is_null v ≡ false
  unfolding int_of
  not_null_of null at h = cc
  not_null_of v at h = refl

  expiry_sound :
      (v : Value) (tier tier' : String) (at' : Option ℤ)
      → check_expiry p now tier v ≡ ok (valid_result tier' at')
      → (tier' ≡ tier) × LetsPass p now v at'
  unfolding check_expiry
  expiry_sound v tier tier' at' h = elim (Bool-cases (is_null v)) [
    | inl n ↦
        let (a, b) = fields_of tier tier' none at' (rw n at h) in (a, never v at' (null_of v n) b)
    | inr n ↦ elim (Option-cases (int_of p v)) [
      | inl e ↦ let bad = rw (n, e) at h in cc
      | inr (at, e) ↦ timed v tier tier' at' at e (rw (n, e) at h)
    ]
  ]

  expiry_complete :
      (v : Value) (tier : String) (at : Option ℤ)
      → LetsPass p now v at
      → check_expiry p now tier v ≡ ok (valid_result tier at)
  unfolding check_expiry LetsPass
  expiry_complete v tier none h = rw h
  expiry_complete v tier (some at) h = rw (not_null_of v at h.0) (rw (h.0) (rw (h.1)))

module _ (p : Platform) (now : ℕ) (trust : TrustStore) (token tier : String) (at : Option ℤ) where
  valid-IsEntitled :
      verify_token p now token trust ≡ ok (valid_result tier at)
      → IsEntitled p now trust token tier at
  unfolding verify_token by_claims by_verdict
  valid-IsEntitled h = elim (Option-cases (claims_of (p.loads token))) [
    | inl e ↦ absurd (not_invalid p now _ tier at (rw e at h))
    | inr (claims, e) ↦ elim (Verdict-cases (verify_manifest p claims trust)) [
      | inl (kid, a) ↦
          let (same, in_time) =
            expiry_sound p now (get_default claims "expires_at" null) (tier_of p claims) tier at
              (rw (e, a) at h) in
          record {
            claims = claims;
            kid = kid;
            parses = e;
            signed = (verify_manifest-accepted p trust claims kid).0 a;
            has_tier = same;
            in_time = in_time;
          }
      | inr (inl (why, a)) ↦ absurd (not_invalid p now why tier at (rw (e, a) at h))
      | inr (inr a) ↦ let bad = rw (e, a) at h in cc
    ]
  ]

  entitled_valid :
      IsEntitled p now trust token tier at
      → verify_token p now token trust ≡ ok (valid_result tier at)
  unfolding verify_token by_claims by_verdict
  entitled_valid s = rw (s.parses) (
      rw ((verify_manifest-accepted p trust (s.claims) (s.kid)).1 (s.signed))
        (rw (s.has_tier) (expiry_complete p now _ _ at (s.in_time))))

module _ (p : Platform) (now : ℕ) (r : VerifyResult) where
  abbrev IsPlain : Type 0
  IsPlain = r ≡ valid_result r.tier r.expires_at

  plain_of : (tier : String) (at : Option ℤ) → ok (valid_result tier at) ≡ ok r → IsPlain
  plain_of tier at h = let same : valid_result tier at ≡ r = cc in rw (← same)

  not_plain : (r' : VerifyResult) → r'.valid ≡ false → ok r' ≡ ok r → r.valid ≡ true → IsPlain
  not_plain r' f h v = let same : r' ≡ r = cc in let flag : r'.valid ≡ true = rw same v in cc

  expiry_plain :
      (v : Value) (tier : String) → check_expiry p now tier v ≡ ok r → r.valid ≡ true → IsPlain
  unfolding check_expiry
  expiry_plain v tier h valid = elim (Bool-cases (is_null v)) [
    | inl n ↦ plain_of tier none (rw n at h)
    | inr n ↦ elim (Option-cases (int_of p v)) [
      | inl e ↦ let bad = rw (n, e) at h in cc
      | inr (at, e) ↦ elim (Bool-cases (ltb_ℤ at (pos now))) [
        | inl late ↦ not_plain (expired_result tier at) refl (rw (n, e, late) at h) valid
        | inr passes ↦ plain_of tier (some at) (rw (n, e, passes) at h)
      ]
    ]
  ]

  -- A valid answer has no reason.
  pub valid_is_plain :
      (trust : TrustStore) (token : String)
      → verify_token p now token trust ≡ ok r
      → r.valid ≡ true
      → IsPlain
  unfolding verify_token by_claims by_verdict
  valid_is_plain trust token h v = elim (Option-cases (claims_of (p.loads token))) [
    | inl e ↦ not_plain (invalid "malformed-token") refl (rw e at h) v
    | inr (claims, e) ↦ elim (Verdict-cases (verify_manifest p claims trust)) [
      | inl (kid, a) ↦ expiry_plain _ _ (rw (e, a) at h) v
      | inr (inl (why, a)) ↦ not_plain (invalid why) refl (rw (e, a) at h) v
      | inr (inr a) ↦ let bad = rw (e, a) at h in cc
    ]
  ]

-- `_verify_token` answers that a token is valid, with a tier and an expiry, exactly if the token is
-- the JSON text of a dict that `verify_manifest` accepts in the name of some key id, the tier is
-- the text of its member `tier` (blank if it is absent), and its member `expires_at` either is
-- absent or null, the expiry then being None, or has that expiry as its integer value, which does
-- not lie before the present second.
pub verify_token-valid :
    (p : Platform) (now : ℕ) (trust : TrustStore) (token tier : String) (expires_at : Option ℤ)
    → (verify_token p now token trust ≡ ok (valid_result tier expires_at))
      ↔ IsEntitled p now trust token tier expires_at
verify_token-valid p now trust token tier expires_at = (
  valid-IsEntitled p now trust token tier expires_at,
  entitled_valid p now trust token tier expires_at,
)
