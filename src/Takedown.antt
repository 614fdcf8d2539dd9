-- ===== src/Takedown.antt =====
-- tools/dmca_packet.py: the takedown notice of a leaked license token. The token's file and the
-- template are given by their texts.
pub mod Template
pub mod Notice
mod Examples
use Prim.Native.String
use netplex_support.Prelude.{
  ℕ, String, Bool, true, false, not, Option, none, some, List, [], ◌∷◌, if◌then◌else◌,
}
use netplex_support.Prelude.Text.{strip, non_empty}
use netplex_support.Json.{Value}
use netplex_support.Platform.{Platform, truth, text_of}
use netplex_support.Cryptography.{Cryptography}
use netplex_support.Minting.{or_text}
use netplex_support.Tool.{Run, done, exits, raises, or_raise, require, ◌>>=◌, ◌>>◌}
use netplex_support.Attribution.{
  Report, TokenReport, not_json, download_stamp, license_token, attribute,
}
use netplex_support.Takedown.Template.{fill}

infixr 66 ◌⧺◌
abbrev ◌⧺◌ : String → String → String
s ⧺ t = String.◌++◌ s t

-- The options of the command line; `token` is what the file holds.
pub record Options : Type 0 where
  pub token : String
  pub infringing_url : String
  pub rightsholder : String
  pub contact : String
  pub host : String
  pub case_id : String
  pub now_iso : Option String

-- str(attr.get(…)), where the value is a text or None
abbrev or_none : Option String → String
or_none none = "None"
or_none (some s) = s

abbrev pub verified_text : TokenReport → String
verified_text r = if r.ok then "yes" else "NO (" ⧺ or_none r.reason ⧺ ")"

unfoldable pub fields : Platform → Options → TokenReport → List (String × String)
unfolding text_of
fields p o r =
    ("host_or_registrar", o.host)
    ∷ ("rightsholder_name", o.rightsholder)
    ∷ ("rightsholder_contact", o.contact)
    ∷ ("notice_date", or_text o.now_iso "[FILL DATE]")
    ∷ ("infringing_url", o.infringing_url)
    ∷ ("buyer_id", text_of p r.buyer_id)
    ∷ ("license_id", text_of p r.license_id)
    ∷ ("key_id", or_text r.signature_key_id "unverified")
    ∷ ("signature_verified", verified_text r)
    ∷ ("tier", text_of p r.tier)
    ∷ ("issued_at", text_of p r.issued_at)
    ∷ ("case_id", o.case_id)
    ∷ []

-- What is written into the folder of the case, and whether the tool warns that the buyer is only
-- claimed.
pub record Packet : Type 0 where
  pub notice : String
  pub attribution : TokenReport
  pub warns : Bool

abbrev no_buyer : String
no_buyer = "no buyer_id in the token - cannot attribute; is this a licence token?"

-- What has a buyer_id: the report of a token, unless its buyer is false.
abbrev pub attributed : Platform → Report → Run TokenReport
attributed p not_json = exits no_buyer
attributed p (download_stamp r) = exits no_buyer
attributed p (license_token r) = require (truth p r.buyer_id) no_buyer >> done r

-- main
unfoldable pub packet : Platform → Cryptography → Options → String → Run Packet
unfolding attribute fields fill truth strip
packet p c o template = do
  report ← or_raise (attribute p c [] [] (strip o.token))
  attr ← attributed p report
  done
      (record { notice = fill (fields p o attr) template; attribution = attr; warns = not attr.ok })
