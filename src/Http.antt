-- ===== src/Http.antt =====
-- What a route of the service answers, and how it runs over the service's state.
-- `raise HTTPException(status, detail)` is `error`; any other exception that leaves a route is
-- `crash`, which the framework answers with status 500.
use netplex_support.Prelude.{ℕ, String, ◌≡◌, ◌⊎◌, inl, inr, refl}

pub data Reply {ℓ} (A : Type ℓ) : Type ℓ where
  ok : A → Reply A
  error : ℕ → String → Reply A
  crash : Reply A

infixl 10 ◌>>=◌ ◌>>◌
abbrev pub ◌>>=◌ {ℓ κ} : {A : Type ℓ} {B : Type κ} → Reply A → (A → Reply B) → Reply B
ok a >>= f = f a
error status detail >>= f = error status detail
crash >>= f = crash

abbrev pub ◌>>◌ {ℓ} : {B : Type ℓ} → Reply (Unit {0}) → Reply B → Reply B
m >> n = m >>= λ _. n

-- A chain of replies that succeeds has steps that succeed.
pub bind-ok {ℓ κ} :
    {A : Type ℓ} {B : Type κ} (m : Reply A) (f : A → Reply B) (b : B)
    → (m >>= f) ≡ ok b
    → (a : A) × (m ≡ ok a) × (f a ≡ ok b)
bind-ok (ok a) f b h = (a, refl, h)
bind-ok (error status detail) f b h = cc
bind-ok crash f b h = cc

pub Reply-cases {ℓ} :
    {A : Type ℓ} (m : Reply A)
    → ((a : A) × (m ≡ ok a))
      ⊎ (((status : ℕ) × (detail : String) × (m ≡ error status detail)) ⊎ (m ≡ crash))
Reply-cases (ok a) = inl (a, refl)
Reply-cases (error status detail) = inr (inl (status, detail, refl))
Reply-cases crash = inr (inr refl)
