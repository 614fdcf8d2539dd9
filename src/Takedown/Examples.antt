-- ===== src/Takedown/Examples.antt =====
-- The notice of a token that no key has signed.
use netplex_support.Prelude.{String, true, false, none, some, List, [], ◌∷◌, ◌≡◌, ◌↔◌, refl}
use netplex_support.Prelude.Text.{all_chars, strip}
use netplex_support.Json.{str, null, Dict}
use netplex_support.Platform.{Platform}
use netplex_support.Platform.Toy.{toy_reading}
use netplex_support.Cryptography.Toy.{toy_keys}
use netplex_support.Tool.{done, exits}
use netplex_support.Attribution.{TokenReport, license_token, token_report, attribute}
use netplex_support.Takedown.{Options, Packet, fields, packet}
use netplex_support.Takedown.Template.{Piece, prose, field, template_text}
use netplex_support.Takedown.Notice.{IsPacket, packet-done}

abbrev leaked_text : String
leaked_text = "{\"buyer_id\": \"acme\", \"tier\": \"pro\"}"

abbrev claims : Dict
claims = ("buyer_id", str "acme") ∷ ("tier", str "pro") ∷ []

abbrev reader : Platform
reader = toy_reading leaked_text claims

abbrev options : Options
options = record {
  token = "{\"buyer_id\": \"acme\", \"tier\": \"pro\"}\n";
  infringing_url = "https://example.com/netplex.iso";
  rightsholder = "netplex";
  contact = "legal@netplex.io";
  host = "GitHub";
  case_id = "CASE-1";
  now_iso = none;
}

abbrev pieces : List Piece
pieces =
    prose "To: "
    ∷ field "host_or_registrar"
    ∷ prose ", "
    ∷ field "notice_date"
    ∷ prose "}: "
    ∷ field "buyer_id"
    ∷ field "..."
    ∷ field "signature_verified"
    ∷ []

abbrev report : TokenReport
report = record {
  ok = false;
  signature_key_id = none;
  reason = some "no-trusted-key";
  buyer_id = str "acme";
  license_id = null;
  tier = str "pro";
  issued_at = null;
  expires_at = null;
}

abbrev written : Packet
written = record {
  notice = "To: GitHub, [FILL DATE]}: acme{{...}}NO (no-trusted-key)";
  attribution = report;
  warns = true;
}

packet_test : packet reader toy_keys options (template_text pieces) ≡ done written
unfolding packet token_report
packet_test = refl

-- A text that is no JSON has no buyer.
exits_test :
    packet reader toy_keys (record options { token = "NPX" }) (template_text pieces)
    ≡ exits "no buyer_id in the token - cannot attribute; is this a licence token?"
unfolding packet token_report
exits_test = refl

attribute_test : attribute reader toy_keys [] [] (strip options.token) ≡ some (license_token report)
unfolding attribute token_report strip
attribute_test = refl

report_eq :
    (r : TokenReport)
    → attribute reader toy_keys [] [] (strip options.token) ≡ some (license_token r)
    → report ≡ r
report_eq r h = cc (attribute_test)

packet-done_example :
    (packet reader toy_keys options (template_text pieces) ≡ done written)
    ↔ IsPacket reader toy_keys options pieces written
unfolding all_chars fields
packet-done_example =
    packet-done reader toy_keys options pieces written
      (
        refl,
        (
          (refl, refl),
          (refl, ((refl, refl), (refl, ((refl, refl), ((refl, refl), ((refl, refl), tt)))))),
        ),
      )
      (λ r h. rw (← report_eq r h) (
        (refl, refl),
        (
          (refl, refl),
          (
            (refl, refl),
            (
              (refl, refl),
              (
                (refl, refl),
                (
                  (refl, refl),
                  (
                    (refl, refl),
                    (
                      (refl, refl),
                      ((refl, refl), ((refl, refl), ((refl, refl), ((refl, refl), tt)))),
                    ),
                  ),
                ),
              ),
            ),
          ),
        ),
      ))
