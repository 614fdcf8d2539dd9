-- ===== src/BodyLimit/Bound.antt =====
-- How many bytes of a body reach the application.
use netplex_support.Prelude.{
  ℕ, ◌+◌, ◌≤◌, ◌<◌, String, Bool, true, false, List, [], ◌∷◌, map, any, ◌≡◌, ◌⊎◌, inl, inr, refl,
  ap, ltb, ltb→lt, Bool-cases, arith,
}
use netplex_support.Http.{Reply, ok, error, crash, bind-ok}
use netplex_support.Platform.{Platform}
use netplex_support.Config.{Settings}
use netplex_support.BodyLimit.{
  Message, http_request, other, limited_receive, receive_all, cap_for_path, call,
  check_content_length, last_header,
}

-- The bytes of a message.
abbrev pub size : Message → ℕ
size (http_request bytes) = bytes
size other = 0

abbrev pub total_size : List Message → ℕ
total_size [] = 0
total_size (m ∷ ms) = size m + total_size ms

-- The bytes that the application is given.
abbrev pub delivered : List (Reply Message) → ℕ
delivered [] = 0
delivered (ok m ∷ rs) = size m + delivered rs
delivered (error status detail ∷ rs) = delivered rs
delivered (crash ∷ rs) = delivered rs

abbrev pub is_refusal : Reply Message → Bool
is_refusal (error status detail) = true
is_refusal r = false

receive_all-bound :
    (limit total : ℕ) (ms : List Message)
    → total ≤ limit
    → total + delivered (receive_all limit total ms) ≤ limit
unfolding receive_all limited_receive
receive_all-bound limit total [] h = omega (arith, h)
receive_all-bound limit total (other ∷ ms) h = omega (arith, receive_all-bound limit total ms h)
receive_all-bound limit total (http_request n ∷ ms) h = elim (Bool-cases (ltb limit (total + n))) [
  | inl e ↦ rw e (omega (arith, h))
  | inr e ↦ rw e (ground (arith, receive_all-bound limit (total + n) ms))
]

receive_all-passes :
    (limit total : ℕ) (ms : List Message)
    → total + total_size ms ≤ limit
    → receive_all limit total ms ≡ map ok ms
unfolding receive_all limited_receive
receive_all-passes limit total [] h = refl
receive_all-passes limit total (other ∷ ms) h =
    ap (λ rs. ok other ∷ rs) (receive_all-passes limit total ms (omega (arith, h)))
receive_all-passes limit total (http_request n ∷ ms) h = elim (Bool-cases (ltb limit (total + n))) [
  | inl e ↦ absurd (ground (arith, ltb→lt limit (total + n) e))
  | inr e ↦ rw e (
      ap (λ rs. ok (http_request n) ∷ rs)
        (receive_all-passes limit (total + n) ms (omega (arith, h))))
]

receive_all-refuses :
    (limit total : ℕ) (ms : List Message)
    → total ≤ limit
    → limit < total + total_size ms
    → any is_refusal (receive_all limit total ms) ≡ true
unfolding receive_all limited_receive
receive_all-refuses limit total [] h k = absurd (omega (arith, h, k))
receive_all-refuses limit total (other ∷ ms) h k =
    receive_all-refuses limit total ms h (omega (arith, k))
receive_all-refuses limit total (http_request n ∷ ms) h k =
    elim (Bool-cases (ltb limit (total + n))) [
      | inl e ↦ rw e
      | inr e ↦ rw e (receive_all-refuses limit (total + n) ms (ground arith) (omega (arith, k)))
    ]

-- Whatever its headers say, a request that is not answered at once gives the application no more
-- bytes than the cap of its path. If the bytes of its messages are within the cap, the application
-- is given all of them unchanged; else it is given a refusal.
pub call-bound :
    (p : Platform) (s : Settings) (path : String) (headers : List (String × String))
    (messages : List Message) (received : List (Reply Message))
    → call p s path headers messages ≡ ok received
    → (delivered received ≤ cap_for_path s path)
      × (((total_size messages ≤ cap_for_path s path) × (received ≡ map ok messages))
          ⊎ ((cap_for_path s path < total_size messages) × (any is_refusal received ≡ true)))
unfolding call
call-bound p s path headers messages received h =
    let limit = cap_for_path s path in
    let (_, _, found) =
      bind-ok (check_content_length p limit (last_header "content-length" headers)) _ received h in
    let same : receive_all limit 0 messages ≡ received = cc in
    rw (← same) (
      omega (arith, receive_all-bound limit 0 messages (omega arith)),
      elim (Bool-cases (ltb limit (total_size messages))) [
        | inl over ↦
            let lt = ltb→lt limit (total_size messages) over in
            inr (lt, receive_all-refuses limit 0 messages (omega arith) (omega (arith, lt)))
        | inr fits ↦
            let le : total_size messages ≤ limit = ground (arith, fits) in
            inl (le, receive_all-passes limit 0 messages (omega (arith, le)))
      ],
    )
