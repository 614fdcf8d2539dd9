-- ===== src/Auth/ClientIp.antt =====
-- app/auth.py, client_ip: what a caller can and cannot choose.
use mathlib.Core.List.{reverse, reverse-append, reverse-cons, append_assoc}
use netplex_support.Prelude.{
  String, ◌≡◌, refl, ◌∙◌, Bool, true, false, not, Option, some, List, [], ◌∷◌, ◌++◌, arith, any,
  all, any-append, all-append,
}
use netplex_support.Prelude.Text.{csv}
use netplex_support.Prelude.Text.Laws.{join_comma, csv-join}
use netplex_support.Config.{Settings}
use netplex_support.Auth.{
  Request, peer_is_trusted, client_ip, first_untrusted, or_blank, or_unknown,
}

-- If the socket peer is not a trusted proxy, the answer is the peer, whatever the header says.
pub client_ip_untrusted :
    (s : Settings) (request : Request)
    → peer_is_trusted s (or_blank request.client_host) ≡ false
    → client_ip s request ≡ or_unknown (or_blank request.client_host)
unfolding client_ip
client_ip_untrusted s request h = rw h

first_untrusted-append :
    (trusted : String → Bool) (xs ys : List String)
    → any (λ h. not (trusted h)) xs ≡ true
    → first_untrusted trusted (xs ++ ys) ≡ first_untrusted trusted xs
unfolding first_untrusted
first_untrusted-append trusted [] ys h = cc
first_untrusted-append trusted (x ∷ xs) ys h = ground (arith, first_untrusted-append trusted xs ys)

any-reverse {ℓ} : {A : Type ℓ} (p : A → Bool) (xs : List A) → any p (reverse xs) ≡ any p xs
any-reverse p [] = refl
any-reverse p (x ∷ xs) =
    rw (reverse-cons x xs) (ground (arith, any-append p (reverse xs) (x ∷ []), any-reverse p xs))

all-reverse {ℓ} : {A : Type ℓ} (p : A → Bool) (xs : List A) → all p (reverse xs) ≡ all p xs
all-reverse p [] = refl
all-reverse p (x ∷ xs) =
    rw (reverse-cons x xs) (ground (arith, all-append p (reverse xs) (x ∷ []), all-reverse p xs))

-- Whatever a caller writes into the header, in front of what the proxies append to it, does not
-- change the answer, if the proxies' own part names an address that is not a trusted proxy.
pub client_ip_forged :
    (s : Settings) (peer authorization : Option String) (forged observed : String)
    → any (λ h. not (peer_is_trusted s h)) (csv observed) ≡ true
    → client_ip s (record {
      client_host = peer;
      authorization = authorization;
      x_forwarded_for = some (join_comma forged observed);
    })
      ≡ client_ip s (record {
        client_host = peer;
        authorization = authorization;
        x_forwarded_for = some observed;
      })
unfolding client_ip
client_ip_forged s peer authorization forged observed h =
    let same : first_untrusted (peer_is_trusted s) (reverse (csv (join_comma forged observed)))
        ≡ first_untrusted (peer_is_trusted s) (reverse (csv observed)) =
      rw csv-join (
        rw (reverse-append (csv forged) (csv observed)) (
          first_untrusted-append (peer_is_trusted s) (reverse (csv observed)) (reverse (csv forged))
            (any-reverse _ (csv observed) ∙ h))) in
    rw same

first_untrusted_at :
    (trusted : String → Bool) (after : List String) (hop : String) (before : List String)
    → all trusted after ≡ true
    → trusted hop ≡ false
    → first_untrusted trusted (after ++ hop ∷ before) ≡ some hop
unfolding first_untrusted
first_untrusted_at trusted [] hop before h k = rw k
first_untrusted_at trusted (a ∷ after) hop before h k =
    ground (arith, first_untrusted_at trusted after hop before)

-- Behind a trusted peer the answer is the rightmost entry of the header that is no trusted proxy.
pub client_ip_rightmost :
    (s : Settings) (request : Request) (before after : List String) (hop : String)
    → peer_is_trusted s (or_blank request.client_host) ≡ true
    → csv (or_blank request.x_forwarded_for) ≡ before ++ hop ∷ after
    → all (peer_is_trusted s) after ≡ true
    → peer_is_trusted s hop ≡ false
    → client_ip s request ≡ hop
unfolding client_ip
client_ip_rightmost s request before after hop h e k m =
    let found : first_untrusted (peer_is_trusted s)
          (reverse (csv (or_blank request.x_forwarded_for)))
        ≡ some hop =
      rw e (
        rw (reverse-append before (hop ∷ after)) (
          rw (reverse-cons hop after) (
            rw (append_assoc (reverse after) (hop ∷ []) (reverse before)) (
              first_untrusted_at (peer_is_trusted s) (reverse after) hop (reverse before)
                (all-reverse (peer_is_trusted s) after ∙ k) m)))) in
    rw h (rw found)
