-- ===== src/Auth.antt =====
-- app/auth.py: Bearer tokens, and the client's address behind trusted proxies. The intakes' own
-- token checks of app/routers/diagnostics.py are calls of the same function with other messages.
mod Examples
pub mod Bearer
pub mod ClientIp
use mathlib.Core.List.{reverse}
use netplex_support.Prelude.{
  ℕ, String, Bool, true, false, ◌&&◌, ◌||◌, not, Option, none, some, List, [], ◌∷◌, any, ltb,
  nat_eq, length, ◌==◌, if◌then◌else◌,
}
use Prim.Native.String.{◌++◌}
use netplex_support.Prelude.Text.{csv, strip, drop_chars, lower_starts, all_chars, non_empty}
use netplex_support.Http.{Reply, ok, error, crash}
use netplex_support.Ip.{Network, ip_address, ip_network, contains, Address}
use netplex_support.Config.{Settings}

-- What a route reads of a request: the socket peer and two headers, absent or as sent.
pub record Request : Type 0 where
  pub client_host : Option String
  pub authorization : Option String
  pub x_forwarded_for : Option String

abbrev pub or_blank : Option String → String
or_blank none = ""
or_blank (some s) = s

-- auth[7:].strip() if auth.lower().startswith("bearer ") else ""
pub presented_token : Request → String
unfolding lower_starts drop_chars strip
presented_token request =
    let auth = or_blank request.authorization in
    if lower_starts auth "bearer " then strip (drop_chars 7 auth) else ""

-- hmac.compare_digest(a, b) of two texts: TypeError where one of them is not ASCII.
abbrev pub is_ascii : String → Bool
is_ascii s = all_chars (λ c. ltb c 128) s

-- any(hmac.compare_digest(presented, t) for t in configured), `none` where a comparison raises
unfoldable pub any_digest : String → List String → Option Bool
unfolding all_chars
any_digest presented [] = some false
any_digest presented (t ∷ ts) =
    let rest = any_digest presented ts in
    if is_ascii presented && is_ascii t then (if presented == t then some true else rest) else none

abbrev pub granted : String → Option Bool → Reply (Unit {0})
granted detail none = crash
granted detail (some true) = ok tt
granted detail (some false) = error 401 detail

-- The body that the token checks of all routes share.
unfoldable pub check_bearer : Request → String → String → String → Reply (Unit {0})
unfolding any_digest presented_token csv
check_bearer request tokens_csv unconfigured refused =
    let configured = csv tokens_csv in
    if nat_eq (length configured) 0
    then error 503 unconfigured
    else if not (non_empty (presented_token request))
    then error 401 refused
    else granted refused (any_digest (presented_token request) configured)

-- _require_bearer
unfoldable pub require_bearer : Request → String → String → Reply (Unit {0})
unfolding check_bearer
require_bearer request tokens_csv what =
    check_bearer request tokens_csv (what ++ " is not configured on this server")
      ("invalid or missing " ++ (what ++ " token"))

unfoldable pub require_admin : Settings → Request → Reply (Unit {0})
unfolding require_bearer
require_admin s request = require_bearer request s.admin_api_tokens "admin API"

-- One entry of TRUSTED_PROXIES that is kept.
pub data Proxy : Type 0 where
  everyone : Proxy
  network : Network → Proxy

or_skip : Option Network → List Proxy → List Proxy
or_skip none rest = rest
or_skip (some n) rest = network n ∷ rest

-- _trusted_proxies, over the stripped tokens that are not empty
unfoldable pub proxies : List String → List Proxy
unfolding or_skip ip_network
proxies [] = []
proxies (tok ∷ toks) =
    let rest = proxies toks in if tok == "*" then everyone ∷ rest else or_skip (ip_network tok) rest

unfoldable pub trusted_proxies : Settings → List Proxy
unfolding proxies csv
trusted_proxies s = proxies (csv s.trusted_proxies)

abbrev pub is_everyone : Proxy → Bool
is_everyone everyone = true
is_everyone (network n) = false

abbrev pub covers : Address → Proxy → Bool
covers ip everyone = false
covers ip (network n) = contains n ip

abbrev pub in_some : List Proxy → Option Address → Bool
in_some nets none = false
in_some nets (some ip) = any (covers ip) nets

-- _peer_is_trusted
unfoldable pub peer_is_trusted : Settings → String → Bool
unfolding trusted_proxies contains ip_address
peer_is_trusted s peer =
    let nets = trusted_proxies s in
    if nat_eq (length nets) 0
    then false
    else if any is_everyone nets
    then true
    else in_some nets (ip_address peer)

abbrev pub or_unknown : String → String
or_unknown peer = if non_empty peer then peer else "unknown"

-- The loop over `reversed(hops)`.
unfoldable pub first_untrusted : (String → Bool) → List String → Option String
first_untrusted trusted [] = none
first_untrusted trusted (hop ∷ hops) =
    let rest = first_untrusted trusted hops in if trusted hop then rest else some hop

abbrev pub or_peer : String → Option String → String
or_peer peer none = or_unknown peer
or_peer peer (some hop) = hop

unfoldable pub client_ip : Settings → Request → String
unfolding first_untrusted peer_is_trusted csv
client_ip s request =
    let peer = or_blank request.client_host in
    if not (peer_is_trusted s peer)
    then or_unknown peer
    else or_peer peer
        (first_untrusted (peer_is_trusted s) (reverse (csv (or_blank request.x_forwarded_for))))
