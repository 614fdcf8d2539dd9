-- ===== src/BodyLimit.antt =====
-- app/main.py: the limit on the bytes of a request's body. What the application receives is the
-- sequence of messages of the connection; a message is held by the length of its body.
mod Examples
pub mod Bound
use netplex_support.Prelude.{
  ℕ, ◌+◌, ◌*◌, String, Bool, true, false, Option, none, some, List, [], ◌∷◌, ◌==◌, ltb,
  if◌then◌else◌, lookup,
}
use netplex_support.Prelude.Int.{ℤ, pos, ltb_ℤ}
use netplex_support.Http.{Reply, ok, error, crash, ◌>>=◌}
use netplex_support.Platform.{Platform}
use netplex_support.Config.{Settings}

abbrev pub attachment_route_path : String
attachment_route_path = "/api/v1/diagnostics/attachment"

-- _cap_for_path
unfoldable pub cap_for_path : Settings → String → ℕ
cap_for_path s path =
    if path == attachment_route_path then s.max_blob_bytes * 2 else s.max_request_body_bytes

-- A message of the ASGI protocol: `http.request` with a body of so many bytes, or another one.
pub data Message : Type 0 where
  http_request : ℕ → Message
  other : Message

-- One call of `limited_receive`: what it gives, and the total that it leaves.
unfoldable pub limited_receive : ℕ → ℕ → Message → Reply Message × ℕ
limited_receive cap total (http_request bytes) =
    if ltb cap (total + bytes)
    then (error 413 "request body too large", total + bytes)
    else (ok (http_request bytes), total + bytes)
limited_receive cap total other = (ok other, total)

abbrev unless_raised : Reply Message → List (Reply Message) → List (Reply Message)
unless_raised (ok m) rest = ok m ∷ rest
unless_raised (error status detail) rest = error status detail ∷ []
unless_raised crash rest = crash ∷ []

-- The calls of `limited_receive` on the messages of a connection, from a total on, up to the first
-- one that raises.
unfoldable pub receive_all : ℕ → ℕ → List Message → List (Reply Message)
unfolding limited_receive
receive_all cap total [] = []
receive_all cap total (m ∷ ms) =
    unless_raised (limited_receive cap total m).0
      (receive_all cap (limited_receive cap total m).1 ms)

-- dict(headers): of two headers with one name, the last counts
unfoldable pub last_header : String → List (String × String) → Option String
last_header name [] = none
last_header name ((n, v) ∷ hs) =
    let rest = last_header name hs in
    elim rest [ none ↦ if n == name then some v else none | some w ↦ some w ]

-- int(cl) > cap, and the answer where it is not a number
abbrev declared : ℕ → Option ℤ → Reply (Unit {0})
declared cap none = error 400 "invalid Content-Length"
declared cap (some n) = if ltb_ℤ (pos cap) n then error 413 "request body too large" else ok tt

-- The answer to the declared length, or none.
unfoldable pub check_content_length : Platform → ℕ → Option String → Reply (Unit {0})
check_content_length p cap none = ok tt
check_content_length p cap (some cl) = declared cap (p.text_int cl)

-- What a request of the type "http" meets: the answer to its headers, or what `receive` then gives.
unfoldable pub call :
    Platform
    → Settings
    → String
    → List (String × String)
    → List Message
    → Reply (List (Reply Message))
unfolding cap_for_path last_header check_content_length receive_all
call p s path headers messages =
    let cap = cap_for_path s path in
    check_content_length p cap (last_header "content-length" headers)
    >>= (λ _. ok (receive_all cap 0 messages))
