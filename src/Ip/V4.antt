-- ===== src/Ip/V4.antt =====
-- IPv4 addresses and prefix lengths, as `ipaddress.IPv4Address` and `IPv4Network` read them.
use netplex_support.Prelude.Options.{◌>>=◌}
use netplex_support.Prelude.{
  ℕ, zero, suc, ◌+◌, ◌-◌, ◌*◌, String, ◌&&◌, ◌||◌, not, Option, none, some, List, [], ◌∷◌, nat_eq,
  leb, ltb, if◌then◌else◌, ◌==◌,
}
use Prim.Native.Nat.{◌^◌}
use netplex_support.Prelude.Text.{
  split, ascii_digits, decimal_value, count_chars, starts_zero, all_chars, digits_value,
}

-- _parse_octet
unfoldable pub parse_octet : String → Option ℕ
unfolding all_chars count_chars starts_zero digits_value
parse_octet s =
    if not (ascii_digits s) || ltb 3 (count_chars s) || (starts_zero s && not (s == "0"))
    then none
    else if ltb 255 (decimal_value s)
    then none
    else some (decimal_value s)

-- int(IPv4Address(s))
unfoldable pub ipv4_parts : List String → Option ℕ
unfolding parse_octet
ipv4_parts (a ∷ b ∷ c ∷ d ∷ []) = do
  w ← parse_octet a
  x ← parse_octet b
  y ← parse_octet c
  z ← parse_octet d
  some (((w * 256 + x) * 256 + y) * 256 + z)
ipv4_parts _ = none

unfoldable pub ipv4 : String → Option ℕ
unfolding ipv4_parts split
ipv4 s = ipv4_parts (split b'.' s)

-- _prefix_from_prefix_string
unfoldable pub prefix_of_digits : ℕ → String → Option ℕ
unfolding all_chars digits_value
prefix_of_digits max s =
    if ascii_digits s && leb (decimal_value s) max then some (decimal_value s) else none

-- _prefix_from_ip_int: the prefix length whose netmask is `mask`, looking from `n` downwards
unfoldable pub prefix_of_mask : ℕ → ℕ → Option ℕ
prefix_of_mask zero mask = if nat_eq mask 0 then some 0 else none
prefix_of_mask (suc n) mask =
    let rest = prefix_of_mask n mask in
    if nat_eq mask (2 ^ 32 - 2 ^ (32 - suc n)) then some (suc n) else rest

first_of_two : Option ℕ → Option ℕ → Option ℕ
first_of_two (some p) q = some p
first_of_two none q = q

-- _prefix_from_ip_string: a netmask, else a hostmask
unfoldable pub prefix_of_dotted : String → Option ℕ
unfolding prefix_of_mask first_of_two ipv4
prefix_of_dotted s = do
  mask ← ipv4 s
  first_of_two (prefix_of_mask 32 mask) (prefix_of_mask 32 (2 ^ 32 - 1 - mask))

-- IPv4Network._make_netmask
unfoldable pub prefix_v4 : String → Option ℕ
unfolding prefix_of_digits prefix_of_dotted ipv4 first_of_two
prefix_v4 s = first_of_two (prefix_of_digits 32 s) (prefix_of_dotted s)
