-- ===== src/BodyLimit/Examples.antt =====
-- A chunked body that crosses the limit.
use netplex_support.Prelude.{◌≤◌, ◌<◌, true, List, [], ◌∷◌, map, any, ◌≡◌, ◌⊎◌, refl}
use netplex_support.Http.{Reply, ok, error}
use netplex_support.Platform.Toy.{toy}
use netplex_support.Config.{settings}
use netplex_support.BodyLimit.{Message, http_request, call, cap_for_path}
use netplex_support.BodyLimit.Bound.{delivered, total_size, is_refusal, call-bound}

abbrev chunks : List Message
chunks = http_request 60000 ∷ http_request 6000 ∷ http_request 1 ∷ []

abbrev received : List (Reply Message)
received = ok (http_request 60000) ∷ error 413 "request body too large" ∷ []

refuses : call toy settings "/api/v1/license/verify" [] chunks ≡ ok received
unfolding call
refuses = refl

call-bound_example :
    (delivered received ≤ cap_for_path settings "/api/v1/license/verify")
    × (((total_size chunks ≤ cap_for_path settings "/api/v1/license/verify")
          × (received ≡ map ok chunks))
        ⊎ ((cap_for_path settings "/api/v1/license/verify" < total_size chunks)
            × (any is_refusal received ≡ true)))
call-bound_example = call-bound toy settings "/api/v1/license/verify" [] chunks received refuses
