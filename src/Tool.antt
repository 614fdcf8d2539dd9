-- ===== src/Tool.antt =====
-- How a command-line tool of tools/ ends: with a value, by sys.exit(message), or by an exception.
use netplex_support.Prelude.{String, Bool, true, false, Option, none, some, ◌≡◌, refl}

pub data Run {ℓ} (A : Type ℓ) : Type ℓ where
  done : A → Run A
  exits : String → Run A
  raises : Run A

infixl 10 ◌>>=◌ ◌>>◌
abbrev pub ◌>>=◌ {ℓ κ} : {A : Type ℓ} {B : Type κ} → Run A → (A → Run B) → Run B
done a >>= f = f a
exits message >>= f = exits message
raises >>= f = raises

abbrev pub ◌>>◌ {ℓ} : {B : Type ℓ} → Run (Unit {0}) → Run B → Run B
m >> n = m >>= λ _. n

-- if not test: sys.exit(message)
abbrev pub require : Bool → String → Run (Unit {0})
require true message = done tt
require false message = exits message

abbrev pub or_raise {ℓ} : {A : Type ℓ} → Option A → Run A
or_raise none = raises
or_raise (some a) = done a

-- A chain that is done has steps that are done.
pub bind-done {ℓ κ} :
    {A : Type ℓ} {B : Type κ} (m : Run A) (f : A → Run B) (b : B)
    → (m >>= f) ≡ done b
    → (a : A) × (m ≡ done a) × (f a ≡ done b)
bind-done (done a) f b h = (a, refl, h)
bind-done (exits message) f b h = cc
bind-done raises f b h = cc

pub require-done :
    (test : Bool) (message : String) (u : Unit {0}) → require test message ≡ done u → test ≡ true
require-done true message u h = refl
require-done false message u h = cc

pub or_raise-done {ℓ} : {A : Type ℓ} (m : Option A) (a : A) → or_raise m ≡ done a → m ≡ some a
or_raise-done none a h = cc
or_raise-done (some b) a h = cc

pub done-inj {ℓ} : {A : Type ℓ} (a b : A) → done a ≡ done b → a ≡ b
done-inj a b h = cc
