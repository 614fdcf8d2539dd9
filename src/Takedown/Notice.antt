-- ===== src/Takedown/Notice.antt =====
-- Which takedown notices are written.
use netplex_support.Prelude.{true, not, some, List, [], ◌≡◌, ◌↔◌, sym, ap, ◌∙◌, All}
use netplex_support.Prelude.Text.{strip}
use netplex_support.Platform.{Platform, truth}
use netplex_support.Cryptography.{Cryptography}
use netplex_support.Tool.{done, or_raise, bind-done, or_raise-done, require-done, require, done-inj}
use netplex_support.Attribution.{
  Report, TokenReport, not_json, download_stamp, license_token, attribute,
}
use netplex_support.Takedown.{Options, Packet, fields, attributed, packet}
use netplex_support.Takedown.Template.{Piece, template_text, IsPlainPiece, filled}
use netplex_support.Takedown.Template.Filled.{IsPlainField, fill-filled}

-- What a run of the tool is given, and what it writes.
pub record IsPacket (p : Platform) (c : Cryptography) (o : Options) (ps : List Piece) (k : Packet)
    : Type 0 where
  pub report : TokenReport
  pub is_token : attribute p c [] [] (strip o.token) ≡ some (license_token report)
  pub has_buyer : truth p report.buyer_id ≡ true
  pub packet_eq : k ≡ record {
    notice = filled (fields p o report) ps;
    attribution = report;
    warns = not report.ok;
  }

attributed-done :
    (p : Platform) (report : Report) (r : TokenReport)
    → attributed p report ≡ done r
    → (report ≡ license_token r) × (truth p r.buyer_id ≡ true)
attributed-done p not_json r h = cc
attributed-done p (download_stamp s) r h = cc
attributed-done p (license_token s) r h =
    let (u, named, last) = bind-done (require (truth p s.buyer_id) _) _ r h in
    let same = done-inj s r last in
    (ap license_token same, ap (λ t. truth p t.buyer_id) (sym same) ∙ require-done _ _ _ named)

-- A notice is written exactly for a text that `_attribute` reads as a license token with a buyer
-- (neither None nor blank), whether its signature verifies or not. The notice is then the template
-- with all of its fields filled at once, from the report and the options, and the tool warns exactly
-- if the signature does not verify. This is where the template is made of fields, whose names have
-- no braces, and of texts without an opening brace, and no value that is filled in has one.
pub packet-done :
    (p : Platform) (c : Cryptography) (o : Options) (ps : List Piece) (k : Packet)
    → All IsPlainPiece ps
    → ((r : TokenReport)
        → attribute p c [] [] (strip o.token) ≡ some (license_token r)
        → All IsPlainField (fields p o r))
    → (packet p c o (template_text ps) ≡ done k) ↔ IsPacket p c o ps k
unfolding packet
packet-done p c o ps k plain values = (
  (λ h.
      let (report, e1, h1) = bind-done (or_raise (attribute p c [] [] (strip o.token))) _ k h in
      let (r, e2, h2) = bind-done (attributed p report) _ k h1 in
      let (token, named) = attributed-done p report r e2 in
      let found = or_raise-done _ report e1 ∙ ap some token in
      record {
        report = r;
        is_token = found;
        has_buyer = named;
        packet_eq =
            sym (done-inj _ k h2)
            ∙ ap (λ n. record { notice = n; attribution = r; warns = not r.ok })
                (fill-filled (fields p o r) ps (values r found) plain);
      }),
  (λ m.
      rw (m.is_token, m.has_buyer)
        (ap done (
          ap (λ n. record { notice = n; attribution = m.report; warns = not m.report.ok })
            (fill-filled (fields p o m.report) ps (values m.report m.is_token) plain)
          ∙ sym m.packet_eq))),
)
