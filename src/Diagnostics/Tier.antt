-- ===== src/Diagnostics/Tier.antt =====
-- The tier that a forwarded report is filed with.
use netplex_support.Prelude.{
  ℕ, String, true, Option, none, some, ◌≡◌, ◌⊎◌, inl, inr, refl, sym, ap, Bool-cases,
}
use Prim.Native.String.{◌++◌}
use netplex_support.Prelude.Int.{ℤ}
use netplex_support.Prelude.Text.{non_empty}
use netplex_support.Prelude.Text.Utf8.{utf8}
use netplex_support.Http.{Reply, ok, error, crash, bind-ok}
use netplex_support.Platform.{Platform}
use netplex_support.Config.{Settings, at_least_one}
use netplex_support.Auth.{Request, client_ip}
use netplex_support.RateLimit.{rate_ok}
use netplex_support.Database.{Database}
use netplex_support.Signing.{TrustStore}
use netplex_support.Tickets.{Ticket, Fresh, create_or_dedupe}
use netplex_support.Licensing.{Clock, VerifyResult, verify_token, license_trust_store}
use netplex_support.Licensing.Token.{IsEntitled, verify_token-valid, valid_is_plain}
use netplex_support.Diagnostics.{
  Service, ForwardedReport, after, limited, must_fit, forwarded_fits, require_forward_auth, or_else,
  verified_tier, forward_fields, forward_detail, forward_install, forward_ticket, receive_forwarded,
  proved, fits,
}

module _ (p : Platform) (s : Settings) (clock : Clock) where
  -- What a license token proves.
  pub record IsProof (given : Option String) (tier hash : String) : Type 0 where
    pub token : String
    pub trust : TrustStore
    pub license_tier : String
    pub expires_at : Option ℤ
    pub is_given : given ≡ some token
    pub has_trust : license_trust_store p s ≡ ok trust
    pub entitled : IsEntitled p clock.time trust token license_tier expires_at
    pub has_tier : tier ≡ or_else (some license_tier) "associate"
    pub has_hash : hash ≡ p.sha256_hexdigest (utf8 token)

  proved_lem :
      (token : String) (trust : TrustStore) (result : VerifyResult)
      → license_trust_store p s ≡ ok trust
      → verify_token p clock.time token trust ≡ ok result
      → (proved p token result ≡ ("associate", none))
        ⊎ ((tier : String) × (hash : String) × (proved p token result ≡ (tier, some hash))
            × IsProof (some token) tier hash)
  proved_lem token trust result t a = elim (Bool-cases result.valid) [
    | inr e ↦ inl (rw e)
    | inl e ↦ inr (
      or_else (some result.tier) "associate",
      p.sha256_hexdigest (utf8 token),
      rw e,
      record {
        token = token;
        trust = trust;
        license_tier = result.tier;
        expires_at = result.expires_at;
        is_given = refl;
        has_trust = t;
        entitled =
            (verify_token-valid p clock.time trust token result.tier result.expires_at).0
              (rw (← valid_is_plain p clock.time result trust token a e) a);
        has_tier = refl;
        has_hash = refl;
      },
    )
  ]

  pub verified_tier_lem :
      (given : Option String) (out : String × Option String)
      → verified_tier p s clock given ≡ ok out
      → (out ≡ ("associate", none))
        ⊎ ((tier : String) × (hash : String) × (out ≡ (tier, some hash)) × IsProof given tier hash)
  unfolding verified_tier
  verified_tier_lem none out h = inl (let same : ("associate", none) ≡ out = cc in sym same)
  verified_tier_lem (some token) out h = elim (Bool-cases (non_empty token)) [
    | inr e ↦ let found = rw e at h in inl (let same : ("associate", none) ≡ out = cc in sym same)
    | inl e ↦
        let (trust, t, h1) = bind-ok (license_trust_store p s) _ out (rw e at h) in
        let (result, a, h2) = bind-ok (verify_token p clock.time token trust) _ out h1 in
        let same : proved p token result ≡ out = cc in
        rw (← same) (proved_lem token trust result t a)
  ]

module _ {B : Type 0} where
  after-ok :
      {A : Type 0} (m : Reply A) (next : A → Reply B × Service) (st st' : Service) (b : B)
      → after m next st ≡ (ok b, st')
      → (a : A) × (m ≡ ok a) × (next a ≡ (ok b, st'))
  after-ok (ok a) next st st' b h = (a, refl, h)
  after-ok (error status detail) next st st' b h =
      let bad : error status detail ≡ ok b = ap (λ x. x.0) h in cc
  after-ok crash next st st' b h = let bad : crash ≡ ok b = ap (λ x. x.0) h in cc

  limited-ok :
      (key : String) (limit : ℕ) (clock : Clock) (detail : String)
      (next : Service → Reply B × Service) (st st' : Service) (b : B)
      → limited key limit clock detail next st ≡ (ok b, st')
      → ((rate_ok key limit clock.monotonic st.hits).0 ≡ true)
        × (next (record {
          hits = (rate_ok key limit clock.monotonic st.hits).1;
          tickets = st.tickets;
        })
            ≡ (ok b, st'))
  limited-ok key limit clock detail next st st' b h =
      elim (Bool-cases (rate_ok key limit clock.monotonic st.hits).0) [
        | inl a ↦ (a, rw a at h)
        | inr a ↦ let bad : error 429 detail ≡ ok b = ap (λ x. x.0) (rw a at h) in cc
      ]

-- A call of /forward that succeeds with a ticket came with a configured intake token, was within
-- the budget of its address and then within the budget of its install id (of its address again
-- if it gives none), and filed the report by `create_or_dedupe`. Either the report was filed as
-- "associate" without a license hash, or it has a license token that `_verify_token` answers as
-- valid under the license trust store, and was filed with the token's tier ("associate" if that is
-- blank) and the sha256 of the token.
pub receive_forwarded-ok :
    (db : Database) (p : Platform) (s : Settings) (clock : Clock) (request : Request)
    (report : ForwardedReport) (fresh : Fresh) (st st' : Service) (t : Ticket)
    → receive_forwarded db p s clock request report fresh st ≡ (ok t, st')
    → (require_forward_auth s request ≡ ok tt)
      × ((rate_ok
            ("fwd:ip:" ++ client_ip s request)
            (at_least_one s.intake_rate_per_min)
            clock.monotonic
            st.hits).0
          ≡ true)
      × ((rate_ok
            ("fwd:install:" ++ or_else report.install_id (client_ip s request))
            (at_least_one s.intake_rate_per_min)
            clock.monotonic
            (rate_ok
              ("fwd:ip:" ++ client_ip s request)
              (at_least_one s.intake_rate_per_min)
              clock.monotonic
              st.hits).1).0
          ≡ true)
      × ((filed : String × Option String) × ((filed ≡ ("associate", none))
            ⊎ ((tier : String) × (hash : String) × (filed ≡ (tier, some hash))
                × IsProof p s clock report.license_token tier hash))
          × (create_or_dedupe db (forward_fields report filed) fresh st.tickets
              ≡ (ok t, st'.tickets)))
unfolding receive_forwarded
receive_forwarded-ok db p s clock request report fresh st st' t h =
    let limit = at_least_one s.intake_rate_per_min in
    let ip = client_ip s request in
    let (_, _, h1) = after-ok (must_fit (forwarded_fits report)) _ st st' t h in
    let (_, granted, h2) = after-ok (require_forward_auth s request) _ st st' t h1 in
    let (by_ip, h3) =
      limited-ok ("fwd:ip:" ++ ip) limit clock forward_detail
        (forward_install db p s clock request report fresh) st st' t h2 in
    let st1 : Service = record {
      hits = (rate_ok ("fwd:ip:" ++ ip) limit clock.monotonic st.hits).1;
      tickets = st.tickets;
    } in
    let (by_install, h4) =
      limited-ok ("fwd:install:" ++ or_else report.install_id ip) limit clock forward_detail
        (forward_ticket db p s clock report fresh) st1 st' t h3 in
    let (filed, tier, h5) = after-ok (verified_tier p s clock report.license_token) _ _ st' t h4 in
    (
      granted,
      by_ip,
      by_install,
      (
        filed,
        verified_tier_lem p s clock report.license_token filed tier,
        ap (λ x. (x.0, x.1.tickets)) h5,
      ),
    )

-- The tier that a report claims for itself changes nothing: two reports that differ in no other
-- part, and whose claimed tiers keep the limit of 32 characters, get the same answer and leave the
-- same state.
pub receive_forwarded-ignores_claim :
    (db : Database) (p : Platform) (s : Settings) (clock : Clock) (request : Request)
    (report : ForwardedReport) (claimed : String) (fresh : Fresh) (st : Service)
    → fits 32 report.reporter_tier ≡ true
    → fits 32 claimed ≡ true
    → receive_forwarded db p s clock request (record report { reporter_tier = claimed }) fresh st
      ≡ receive_forwarded db p s clock request report fresh st
unfolding receive_forwarded forwarded_fits forward_fields
receive_forwarded-ignores_claim db p s clock request report claimed fresh st a b = rw (a, b)
