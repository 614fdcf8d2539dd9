-- ===== src/Stamping.antt =====
-- tools/stamp_download.py: the signed stamps that are put into a package when it is downloaded. The
-- clock's reading and the random id are given as texts; the writes to the file system are what the
-- function returns.
mod Examples
pub mod Text
pub mod Traced
pub mod Recorded
pub mod Command
use Prim.Native.String
use netplex_support.Prelude.{
  ℕ, String, Bool, true, false, not, Option, none, some, List, [], ◌∷◌, ◌++◌, map, without,
  if◌then◌else◌,
}
use netplex_support.Prelude.Text.{non_empty}
use netplex_support.Prelude.Text.Utf8.{utf8}
use netplex_support.Json.{str, obj, Dict, of_dict}
use netplex_support.Json.Dump.{indented, one_line, dump}
use netplex_support.Base64.{Bytes}
use netplex_support.Platform.{Platform}
use netplex_support.Cryptography.{Cryptography}
use netplex_support.Signing.{canonical_bytes, key_id_for, signature_block}
use netplex_support.Minting.{or_text}
use netplex_support.Tool.{Run, done, raises, or_raise, ◌>>=◌}

abbrev pub default_sites : List String
default_sites =
    "install-stamp.json" ∷ ".netplex/build.json" ∷ "share/netplex/.provenance"
    ∷ "assets/.build-constant.json" ∷ []

pub record Download : Type 0 where
  pub key_seed : Bytes
  pub customer : String
  pub tier : String
  pub package_name : String
  pub version : String
  pub download_id : Option String
  pub sites : List String
  pub has_ledger : Bool
  pub embed_customer : Bool

sign_with : Platform → Cryptography → Dict → Bytes → Option Bytes → Option Dict
unfolding canonical_bytes key_id_for
sign_with p c out seed none = none
sign_with p c out seed (some key) = some (
    out
    ++ ("signature", signature_block (key_id_for p key) (c.sign seed (canonical_bytes p out))) ∷ [])

-- _sign, `none` where it raises
unfoldable pub sign : Platform → Cryptography → Dict → Bytes → Option Dict
unfolding sign_with
sign p c manifest seed = sign_with p c (without "signature" manifest) seed (c.public_key seed)

-- download_id or f"dl_{uuid.uuid4().hex}"
abbrev pub id_of : Download → String → String
id_of d hex = or_text d.download_id (String.◌++◌ "dl_" hex)

abbrev pub customer_member : Download → Dict
customer_member d = if d.embed_customer then ("customer_ref", str d.customer) ∷ [] else []

-- `stamp`, before it is signed
abbrev pub stamp : Download → String → String → Dict
stamp d hex issued =
    ("type", str "netplex-download-stamp")
    ∷ ("download_id", str (id_of d hex))
    ∷ ("tier", str d.tier)
    ∷ ("package", str d.package_name)
    ∷ ("version", str d.version)
    ∷ ("issued_at", str issued)
    ∷ customer_member d

-- The text that _write_sites puts into each site.
abbrev pub site_text : Platform → Dict → String
site_text p signed = dump indented p.float_text 0 (obj (of_dict signed))

-- sites or _DEFAULT_SITES
abbrev pub sites_of : List String → List String
sites_of [] = default_sites
sites_of (s ∷ ss) = s ∷ ss

unfoldable pub write_sites : Platform → Dict → List String → List (String × Bytes)
unfolding utf8 dump
write_sites p signed sites = map (λ rel. (rel, utf8 (site_text p signed))) sites

abbrev pub ledger_row : Download → String → String → Dict
ledger_row d hex issued =
    ("download_id", str (id_of d hex))
    ∷ ("customer_ref", str d.customer)
    ∷ ("tier", str d.tier)
    ∷ ("package", str d.package_name)
    ∷ ("version", str d.version)
    ∷ ("issued_at", str issued)
    ∷ []

-- _append_ledger: the line that is added, without its end
abbrev pub ledger_line : Platform → Dict → String
ledger_line p row = dump one_line p.float_text 0 (obj (of_dict row))

pub record Stamped : Type 0 where
  pub download_id : String
  pub stamp : Dict
  pub written : List (String × Bytes)
  pub ledger : Option String

-- stamp_artifact, on a path that is a directory or not
unfoldable pub stamp_artifact :
    Platform → Cryptography → Bool → Download → String → String → Run Stamped
unfolding sign write_sites
stamp_artifact p c is_dir d hex issued =
    if not is_dir
    then raises
    else or_raise (sign p c (stamp d hex issued) d.key_seed) >>= λ signed. done (record {
      download_id = id_of d hex;
      stamp = signed;
      written = write_sites p signed (sites_of d.sites);
      ledger = if d.has_ledger then some (ledger_line p (ledger_row d hex issued)) else none;
    })
