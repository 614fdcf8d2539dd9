-- ===== src/Cryptography.antt =====
-- The `cryptography` package, whose ed25519 keys the offline tools of tools/ use where the service
-- uses PyNaCl. It is not part of the repository: a tool takes a `Cryptography` as an argument.
pub mod Toy
use netplex_support.Prelude.{Bool, Option, some, ◌≡◌, length}
use netplex_support.Base64.{Bytes, AreBytes}
use netplex_support.Platform.{Platform, valid}

pub record Cryptography : Type 0 where
  -- whether it can be imported
  pub available : Bool
  -- Ed25519PrivateKey.from_private_bytes(seed).public_key() as raw bytes, `none` where it raises
  pub public_key : Bytes → Option Bytes
  -- Ed25519PrivateKey.from_private_bytes(seed).sign(message)
  pub sign : Bytes → Bytes → Bytes
  -- whether Ed25519PublicKey.from_public_bytes(key).verify(signature, message) does not raise
  pub verifies : Bytes → Bytes → Bytes → Bool

-- ed25519: a key is made from every 32 bytes, signatures are bytes, and what is signed with a seed
-- passes under the seed's public key.
pub record IsEd25519 (c : Cryptography) : Type 0 where
  pub makes_key : (seed : Bytes) → length seed ≡ 32 → (key : Bytes) × (c.public_key seed ≡ some key)
  pub sign_bytes : (seed message : Bytes) → AreBytes (c.sign seed message)
  pub verifies_sign :
      (seed key message : Bytes)
      → c.public_key seed ≡ some key
      → c.verifies key (c.sign seed message) message ≡ Bool.true

-- PyNaCl is there, and it verifies what `cryptography` signs: both implement ed25519.
pub record AreCompatible (p : Platform) (c : Cryptography) : Type 0 where
  pub has_nacl : p.has_nacl ≡ Bool.true
  pub sign_bytes : (seed message : Bytes) → AreBytes (c.sign seed message)
  pub verify_sign :
      (seed key message : Bytes)
      → c.public_key seed ≡ some key
      → p.verify key message (c.sign seed message) ≡ valid
