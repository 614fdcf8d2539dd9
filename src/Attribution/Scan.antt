-- ===== src/Attribution/Scan.antt =====
-- _scan of tools/attribute_leak.py, over the files of a tree in the order in which os.walk gives
-- them: their paths and contents, `none` where a file cannot be read.
pub mod Verdicts
pub mod Counts
use netplex_support.Prelude.{
  ℕ, zero, suc, ◌+◌, String, Bool, true, false, ◌&&◌, Option, none, some, List, [], ◌∷◌, ◌++◌, map,
  ◌==◌, take, if◌then◌else◌,
}
use netplex_support.Prelude.Options.{◌>>=◌}
use netplex_support.Prelude.Text.Utf8.Decode.{decode}
use netplex_support.Json.{Value, null, str, is_hashable}
use netplex_support.Base64.{Bytes}
use netplex_support.Platform.{Platform, truth}
use netplex_support.Cryptography.{Cryptography}
use netplex_support.Attribution.{
  Ledger, Report, StampReport, TokenReport, not_json, download_stamp, license_token, attribute,
  same_value,
}
use netplex_support.Attribution.Pattern.{signed_blob, find_all}

abbrev pub File : Type 0
File = String × Option Bytes

abbrev pub read_limit : ℕ
read_limit = 2000000

-- The matches in one file, each with the file's path.
unfoldable pub hits_in : File → List (String × Bytes)
unfolding find_all
hits_in (path, none) = []
hits_in (path, some blob) = map (λ m. (path, m)) (find_all signed_blob (take read_limit blob))

-- The loops over the files and over the matches.
unfoldable pub hits : List File → List (String × Bytes)
unfolding hits_in
hits [] = []
hits (f ∷ fs) = hits_in f ++ hits fs

-- _attribute(m.group(0).decode(), …), `none` where it raises
unfoldable pub attribute_blob :
    Platform → Cryptography → List String → Ledger → Bytes → Option Report
attribute_blob p c stamp_trust ledger blob =
    decode blob >>= λ token. attribute p c stamp_trust ledger token

-- What a finding is merged by.
pub record Key : Type 0 where
  pub kind : Option String
  pub ident : Value
  pub key_id : Option String
  pub ok : Bool

abbrev or_unknown : Platform → Value → Value
or_unknown p v = if truth p v then v else str "?"

unfoldable pub key_of : Platform → Report → Key
unfolding truth
key_of p not_json = record { kind = none; ident = str "?"; key_id = none; ok = false }
key_of p (download_stamp r) = record {
  kind = some "download-stamp";
  ident = or_unknown p r.download_id;
  key_id = r.signature_key_id;
  ok = r.ok;
}
key_of p (license_token r) = record {
  kind = some "license-token";
  ident = or_unknown p r.license_id;
  key_id = r.signature_key_id;
  ok = r.ok;
}

abbrev same_text : Option String → Option String → Bool
same_text none none = true
same_text (some s) (some t) = s == t
same_text _ _ = false

abbrev same_flag : Bool → Bool → Bool
same_flag true b = b
same_flag false true = false
same_flag false false = true

-- Equality of keys, which are tuples.
unfoldable pub same_key : Platform → Key → Key → Bool
unfolding same_value
same_key p k l =
    same_text k.kind l.kind
    && (same_value p k.ident l.ident && (same_text k.key_id l.key_id && same_flag k.ok l.ok))

pub record Entry : Type 0 where
  pub key : Key
  pub report : Report
  pub copies : ℕ
  pub artifacts : List String

-- by_id, behind a report of a match in a file
unfoldable pub put_entry : Platform → String → Key → Report → List Entry → List Entry
unfolding same_key
put_entry p path key report [] =
    record { key = key; report = report; copies = 1; artifacts = path ∷ [] } ∷ []
put_entry p path key report (e ∷ es) =
    if same_key p e.key key
    then record e { copies = e.copies + 1; artifacts = e.artifacts ++ path ∷ [] } ∷ es
    else e ∷ put_entry p path key report es

-- The body of the inner loop behind the `try`: `none` where the key cannot be hashed.
abbrev pub merge : Platform → String → Option Report → List Entry → Option (List Entry)
merge p path none by_id = some by_id
merge p path (some report) by_id =
    if is_hashable (key_of p report).ident
    then some (put_entry p path (key_of p report) report by_id)
    else none

unfoldable pub scan_hits :
    Platform
    → Cryptography
    → List String
    → Ledger
    → List (String × Bytes)
    → List Entry
    → Option (List Entry)
unfolding attribute_blob key_of put_entry
scan_hits p c stamp_trust ledger [] by_id = some by_id
scan_hits p c stamp_trust ledger ((path, blob) ∷ rest) by_id =
    merge p path (attribute_blob p c stamp_trust ledger blob) by_id
    >>= scan_hits p c stamp_trust ledger rest

-- _scan, `none` where it raises
unfoldable pub scan :
    Platform → Cryptography → List String → Ledger → List File → Option (List Entry)
unfolding scan_hits hits
scan p c stamp_trust ledger files = scan_hits p c stamp_trust ledger (hits files) []
