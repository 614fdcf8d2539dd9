-- ===== src/Auth/Examples.antt =====
-- Requests with tokens, and requests through proxies.
use netplex_support.Prelude.{String, true, none, some, [], ◌∷◌, ◌≡◌, ◌≢◌, refl, any, ◌==◌}
use netplex_support.Prelude.Text.{csv, all_chars}
use netplex_support.Prelude.Text.Laws.{join_comma}
use netplex_support.Config.{Settings, settings}
use netplex_support.Auth.{
  Request, is_ascii, presented_token, check_bearer, client_ip, or_blank, or_unknown,
  peer_is_trusted,
}
use netplex_support.Auth.Bearer.{bearer_answer, check_bearer-answer, check_bearer_sound}
use netplex_support.Auth.ClientIp.{client_ip_untrusted, client_ip_forged, client_ip_rightmost}

abbrev with_token : Request
with_token = record {
  client_host = some "203.0.113.9";
  authorization = some "Bearer  s3cret";
  x_forwarded_for = none;
}

check_bearer-answer_example :
    check_bearer with_token "other, s3cret" "off" "no"
    ≡ bearer_answer (presented_token with_token) (csv "other, s3cret") "off" "no"
unfolding csv all_chars
check_bearer-answer_example =
    check_bearer-answer with_token "other, s3cret" "off" "no" (refl, (refl, tt))

check_bearer_sound_test :
    (presented_token with_token ≢ "")
    × (is_ascii (presented_token with_token) ≡ true)
    × (any (λ t. presented_token with_token == t) (csv "other, s3cret") ≡ true)
unfolding check_bearer
check_bearer_sound_test = check_bearer_sound with_token "other, s3cret" "off" "no" refl

abbrev behind_proxy : Settings
behind_proxy = record settings { trusted_proxies = "10.0.0.0/8, 2001:db8::/32" }

abbrev from_proxy : String → Request
from_proxy header = record {
  client_host = some "10.1.2.3";
  authorization = none;
  x_forwarded_for = some header;
}

client_ip_untrusted_test :
    client_ip behind_proxy with_token ≡ or_unknown (or_blank (with_token.client_host))
unfolding peer_is_trusted
client_ip_untrusted_test = client_ip_untrusted behind_proxy with_token refl

client_ip_forged_example :
    client_ip behind_proxy (from_proxy (join_comma "6.6.6.6" "203.0.113.9, 10.9.9.9"))
    ≡ client_ip behind_proxy (from_proxy "203.0.113.9, 10.9.9.9")
unfolding peer_is_trusted csv
client_ip_forged_example =
    client_ip_forged behind_proxy (some "10.1.2.3") none "6.6.6.6" "203.0.113.9, 10.9.9.9" refl

client_ip_rightmost_example :
    client_ip behind_proxy (from_proxy "6.6.6.6, 203.0.113.9, 10.9.9.9") ≡ "203.0.113.9"
unfolding peer_is_trusted csv
client_ip_rightmost_example =
    client_ip_rightmost behind_proxy (from_proxy "6.6.6.6, 203.0.113.9, 10.9.9.9") ("6.6.6.6" ∷ [])
      ("10.9.9.9" ∷ []) "203.0.113.9" refl refl refl refl
