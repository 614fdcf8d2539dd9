-- ===== src/Auth/Bearer.antt =====
-- app/auth.py, _require_bearer: what each request is answered, for any configured tokens.
use netplex_support.Prelude.{
  String, ◌≡◌, refl, ap, true, false, not, none, some, List, [], ◌∷◌, arith, any, All, length,
  nat_eq, ◌==◌, Bool-cases, if◌then◌else◌, inl, inr, ◌≢◌,
}
use netplex_support.Prelude.Text.{csv, non_empty}
use netplex_support.Http.{Reply, ok, error, crash}
use netplex_support.Auth.{Request, is_ascii, any_digest, presented_token, check_bearer, granted}

any_digest_ascii :
    (p : String) (ts : List String)
    → is_ascii p ≡ true
    → All (λ t. is_ascii t ≡ true) ts
    → any_digest p ts ≡ some (any (λ t. p == t) ts)
unfolding any_digest
any_digest_ascii p [] h k = refl
any_digest_ascii p (t ∷ ts) h k = rw (h, k.0) (ground (arith, any_digest_ascii p ts h k.1))

any_digest-raises :
    (p t : String) (ts : List String) → is_ascii p ≡ false → any_digest p (t ∷ ts) ≡ none
unfolding any_digest
any_digest-raises p t ts h = rw h

-- What a route guarded by a token list should answer.
abbrev pub bearer_answer : String → List String → String → String → Reply (Unit {0})
bearer_answer presented tokens unconfigured refused =
    if nat_eq (length tokens) 0
    then error 503 unconfigured
    else if not (non_empty presented)
    then error 401 refused
    else if not (is_ascii presented)
    then crash
    else if any (λ t. presented == t) tokens
    then ok tt
    else error 401 refused

bearer_cases :
    (p : String) (ts : List String) (unconfigured refused : String)
    → All (λ t. is_ascii t ≡ true) ts
    → (if nat_eq (length ts) 0
        then error 503 unconfigured
        else if not (non_empty p)
        then error 401 refused
        else granted refused (any_digest p ts))
      ≡ bearer_answer p ts unconfigured refused
bearer_cases p [] u r h = refl
bearer_cases p (t ∷ ts) u r h = elim (Bool-cases (is_ascii p)) [
  | inl ascii ↦ rw (ascii, any_digest_ascii p (t ∷ ts) ascii h) (ground arith)
  | inr other ↦ rw (other, any_digest-raises p t ts other) (ground arith)
]

-- For configured tokens of ASCII characters, whatever the request: with no token configured the
-- answer is 503; with no token presented it is 401; a presented token with a character outside ASCII
-- makes the comparison raise, so the route crashes; any other token is let through exactly if it
-- is one of the configured ones, and answered 401 otherwise.
pub check_bearer-answer :
    (request : Request) (tokens_csv unconfigured refused : String)
    → All (λ t. is_ascii t ≡ true) (csv tokens_csv)
    → check_bearer request tokens_csv unconfigured refused
      ≡ bearer_answer (presented_token request) (csv tokens_csv) unconfigured refused
unfolding check_bearer
check_bearer-answer request tokens_csv u r h =
    bearer_cases (presented_token request) (csv tokens_csv) u r h

any_digest_sound :
    (p : String) (ts : List String)
    → any_digest p ts ≡ some true
    → (is_ascii p ≡ true) × (any (λ t. p == t) ts ≡ true)
unfolding any_digest
any_digest_sound p [] h = cc
any_digest_sound p (t ∷ ts) h = ground (arith, any_digest_sound p ts)

ne-blank_of_non_empty : (p : String) → non_empty p ≡ true → p ≢ ""
ne-blank_of_non_empty p h e = cc (ap non_empty e)

bearer_sound :
    (p : String) (ts : List String) (unconfigured refused : String)
    → (if nat_eq (length ts) 0
        then error 503 unconfigured
        else if not (non_empty p)
        then error 401 refused
        else granted refused (any_digest p ts))
      ≡ ok tt
    → (p ≢ "") × (is_ascii p ≡ true) × (any (λ t. p == t) ts ≡ true)
bearer_sound p [] u r h = cc
bearer_sound p (t ∷ ts) u r h =
    let found : any_digest p (t ∷ ts) ≡ some true = ground arith in
    let (ascii, listed) = any_digest_sound p (t ∷ ts) found in
    (ne-blank_of_non_empty p (ground arith), ascii, listed)

-- Whatever tokens are configured: a request is let through only if it presents a token that is not
-- empty, is ASCII, and is one of the configured ones.
pub check_bearer_sound :
    (request : Request) (tokens_csv unconfigured refused : String)
    → check_bearer request tokens_csv unconfigured refused ≡ ok tt
    → (presented_token request ≢ "")
      × (is_ascii (presented_token request) ≡ true)
      × (any (λ t. presented_token request == t) (csv tokens_csv) ≡ true)
unfolding check_bearer
check_bearer_sound request tokens_csv u r h =
    bearer_sound (presented_token request) (csv tokens_csv) u r h
