-- ===== src/Revocation.antt =====
-- tools/mint_crl.py: the list of revoked licenses that is signed offline. The files that it reads
-- are given by the text of the key and by the lines of the list.
mod Examples
pub mod Listed
use Prim.Native.Nat.{Ordering}
use Prim.Native.Char.{code}
use Prim.Native.String
use Prim.Native.String.{compare}
use netplex_support.Prelude.{
  ℕ, String, Bool, true, false, ◌&&◌, not, Option, none, some, List, [], ◌∷◌, ◌++◌, map, keep,
  nat_eq,
}
use netplex_support.Prelude.Int.{ℤ, pos}
use netplex_support.Prelude.Text.{strip, non_empty}
use netplex_support.Json.{int, str, arr, Items, nil, cons, Dict}
use netplex_support.Base64.{b64decode}
use netplex_support.Platform.{Platform}
use netplex_support.Cryptography.{Cryptography}
use netplex_support.Signing.{canonical_bytes, key_id_for, signature_block}
use netplex_support.Tool.{Run, done, require, or_raise, ◌>>=◌, ◌>>◌}

pub record Options : Type 0 where
  pub key : String
  pub revoke : List String
  pub revoke_file : Option (List String)
  pub now : Option ℤ

-- line.startswith("#")
abbrev pub starts_hash : String → Bool
starts_hash String.[] = false
starts_hash (String.◌∷◌ c s) = nat_eq (code c) b'#'

-- A line of the file that names a license: neither blank nor a comment.
abbrev pub is_entry : String → Bool
is_entry line = non_empty (strip line) && not (starts_hash line)

abbrev pub from_file : Option (List String) → List String
from_file none = []
from_file (some lines) = map strip (keep is_entry lines)

-- The licenses that the options name, before they are sorted.
unfoldable pub given : Options → List String
unfolding strip
given o = o.revoke ++ from_file o.revoke_file

-- A text that compares so to the head of a sorted list; `rest` is the tail with the text put in.
abbrev place : Ordering → String → String → List String → List String → List String
place Ordering.lt s t ts rest = s ∷ t ∷ ts
place Ordering.eq s t ts rest = t ∷ ts
place Ordering.gt s t ts rest = t ∷ rest

-- A text put into a sorted list, unless it is there.
unfoldable pub insert_text : String → List String → List String
insert_text s [] = s ∷ []
insert_text s (t ∷ ts) = place (compare s t) s t ts (insert_text s ts)

-- sorted(set(texts))
unfoldable pub sorted_set : List String → List String
unfolding insert_text
sorted_set [] = []
sorted_set (s ∷ ss) = insert_text s (sorted_set ss)

abbrev pub items_of : List String → Items
items_of [] = nil
items_of (s ∷ ss) = cons (str s) (items_of ss)

abbrev pub is_given : List String → Bool
is_given [] = false
is_given (s ∷ ss) = true

-- `crl`, before it is signed
abbrev pub unsigned : Options → ℕ → List String → Dict
unsigned o time revoked =
    ("type", str "crl")
    ∷ ("revoked", arr (items_of revoked))
    ∷ ("issued_at", int (elim o.now [ none ↦ pos time | some now ↦ now ]))
    ∷ []

-- main: the list that is signed. Its compact text, and a line end, are written to the file.
unfoldable pub mint_crl : Platform → Cryptography → Options → ℕ → Run Dict
unfolding given sorted_set strip b64decode canonical_bytes key_id_for
mint_crl p c o time = do
  let revoked = sorted_set (given o)
  require (is_given revoked) "refusing to mint an empty CRL - pass --revoke / --revoke-file"
  seed ← or_raise (b64decode (strip o.key))
  key ← or_raise (c.public_key seed)
  let crl = unsigned o time revoked
  done (
      crl
      ++ ("signature", signature_block (key_id_for p key) (c.sign seed (canonical_bytes p crl)))
        ∷ [])
