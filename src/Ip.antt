-- ===== src/Ip.antt =====
-- `ipaddress` of Python's standard library, as far as app/auth.py uses it: `ip_address`,
-- `ip_network(…, strict=False)` and `ip in network`. `none` is a ValueError.
mod V4
mod V6
use V4.{ipv4, prefix_v4, prefix_of_digits}
use V6.{ipv6}
use netplex_support.Prelude.Options.{◌>>=◌}
use netplex_support.Prelude.{
  ℕ, ◌+◌, ◌-◌, ◌/◌, ◌*◌, String, Bool, true, false, ◌&&◌, Option, none, some, List, [], ◌∷◌, nat_eq,
  leb, refl, ◌≡◌,
}
use Prim.Native.Nat.{◌^◌}
use netplex_support.Prelude.Text.{split, has_char}

-- An address: the number of its bits (32 or 128) and its value.
pub record Address : Type 0 where
  pub bits : ℕ
  pub value : ℕ

-- A network: the bits of its addresses, its prefix length, and an address in it. The source keeps
-- the address with its host bits cleared; both sides of `contains` below clear them.
pub record Network : Type 0 where
  pub bits : ℕ
  pub prefix : ℕ
  pub base : ℕ

or_else {ℓ} : {A : Type ℓ} → Option A → Option A → Option A
or_else (some a) b = some a
or_else none b = b

abbrev v4_address : String → Option Address
v4_address s = do n ← ipv4 s; some (record { bits = 32; value = n })

abbrev v6_address : String → Option Address
v6_address s = do n ← ipv6 s; some (record { bits = 128; value = n })

-- ipaddress.ip_address(s); a text with a "/" is refused
unfoldable pub ip_address : String → Option Address
unfolding or_else ipv4 ipv6
ip_address s = or_else (v4_address s) (v6_address s)

abbrev network : ℕ → (String → Option ℕ) → (String → Option ℕ) → List String → Option Network
network bits address prefix (a ∷ []) = do
  n ← address a
  some (record { bits = bits; prefix = bits; base = n })
network bits address prefix (a ∷ p ∷ []) = do
  n ← address a
  m ← prefix p
  some (record { bits = bits; prefix = m; base = n })
network bits address prefix _ = none

-- ipaddress.ip_network(s, strict=False)
unfoldable pub ip_network : String → Option Network
unfolding or_else ipv4 ipv6 prefix_v4 prefix_of_digits split
ip_network s =
    or_else (network 32 ipv4 prefix_v4 (split b'/' s))
      (network 128 ipv6 (prefix_of_digits 128) (split b'/' s))

-- `value & netmask`: the host bits cleared
abbrev pub masked : ℕ → ℕ → ℕ
masked host value = value / 2 ^ host * 2 ^ host

-- ip in net
unfoldable pub contains : Network → Address → Bool
contains n a =
    nat_eq n.bits a.bits
    && nat_eq (masked (n.bits - n.prefix) a.value) (masked (n.bits - n.prefix) n.base)

ip_tests :
    (ip_address "127.0.0.1" ≡ some (record { bits = 32; value = 2130706433 }))
    × (ip_address "1.2.3" ≡ none)
    × (ip_address "::1" ≡ some (record { bits = 128; value = 1 }))
    × (ip_address "1::2:0:ff" ≡ some (record { bits = 128; value = 2 ^ 112 + 2 * 2 ^ 32 + 255 }))
    × (ip_address "::ffff:1.2.3.4" ≡ some (record { bits = 128; value = 0xffff01020304 }))
    × (ip_address "1::2::3" ≡ none)
    × (ip_address "01.2.3.4" ≡ none)
    × (ip_network "10.1.2.3/255.0.0.0" ≡ some (record { bits = 32; prefix = 8; base = 0x0a010203 }))
    × (ip_network "10.1.2.3/0.0.0.255"
        ≡ some (record { bits = 32; prefix = 24; base = 0x0a010203 }))
    × (ip_network "fe80::/10" ≡ some (record { bits = 128; prefix = 10; base = 0xfe80 * 2 ^ 112 }))
    × (ip_network "10.0.0.0/33" ≡ none)
unfolding ip_address ip_network
ip_tests = (refl, refl, refl, refl, refl, refl, refl, refl, refl, refl, refl)
