-- ===== src/Offline.antt =====
-- tools/gen_keypair.py, tools/sign_release.py and tools/sign_integrity.py: the keys that are made, and
-- what is signed with them, on a machine that is not the server. The files that they read and write
-- are held by their texts; the random seed of a key is an argument.
mod Examples
pub mod Uploaded
use Prim.Native.String
use netplex_support.Prelude.{String, Option, none, some, List, [], ◌∷◌, ◌++◌}
use netplex_support.Prelude.Text.{strip}
use netplex_support.Json.{str, obj, Dict, of_dict, as_dict}
use netplex_support.Base64.{Bytes, b64encode, b64decode}
use netplex_support.Platform.{Platform}
use netplex_support.Cryptography.{Cryptography}
use netplex_support.Signing.{Entry, key_id_for, sign_manifest}
use netplex_support.Minting.{signed}
use netplex_support.Tool.{Run, done, raises, or_raise, ◌>>=◌}

infixr 66 ◌⧺◌
abbrev ◌⧺◌ : String → String → String
s ⧺ t = String.◌++◌ s t

-- The two files that gen_keypair.py writes, and what it prints for the trust store.
pub record Keypair : Type 0 where
  pub private_file : String
  pub public_file : String
  pub key_id : String
  pub entry : Entry

-- main of gen_keypair.py
unfoldable pub gen_keypair : Platform → Bytes → Run Keypair
unfolding b64encode key_id_for
gen_keypair p seed = do
  key ← or_raise (p.verify_key seed)
  let public_key = b64encode key
  done (record {
    private_file = b64encode seed ⧺ "\n";
    public_file = public_key ⧺ "\n";
    key_id = key_id_for p key;
    entry = record { public_key = public_key; status = str "active" };
  })

-- main of sign_release.py: the manifest that is written. A file that holds JSON but no object is taken
-- to raise; `dict` would also take an empty list, or a list of pairs.
unfoldable pub sign_release : Platform → String → String → Run Dict
unfolding strip b64decode sign_manifest
sign_release p key_file manifest_file = do
  seed ← or_raise (b64decode (strip key_file))
  v ← or_raise (p.loads manifest_file)
  manifest ← or_raise (as_dict v)
  or_raise (sign_manifest p manifest seed none)

abbrev pub kernel_modules : List String
kernel_modules = "license_verify" ∷ "entitlements" ∷ "integrity" ∷ []

-- The file of a module, in a folder that gives the contents of its files.
abbrev pub kernel_file : (String → Option Bytes) → String → String × Option Bytes
kernel_file folder base = elim (folder (base ⧺ ".so")) [
  | some blob ↦ (base ⧺ ".so", some blob)
  | none ↦ (base ⧺ ".py", folder (base ⧺ ".py"))
]

-- The loop over the modules.
unfoldable pub kernel_digests : Platform → (String → Option Bytes) → List String → Run Dict
kernel_digests p folder [] = done []
kernel_digests p folder (base ∷ bases) = do
  let file = kernel_file folder base
  blob ← or_raise file.1
  rest ← kernel_digests p folder bases
  done ((file.0, str (p.sha256_hexdigest blob)) ∷ rest)

-- main of sign_integrity.py: the manifest that is written
unfoldable pub sign_integrity :
    Platform → Cryptography → (String → Option Bytes) → String → Run Dict
unfolding kernel_digests strip b64decode signed
sign_integrity p c folder key_file = do
  files ← kernel_digests p folder kernel_modules
  seed ← or_raise (b64decode (strip key_file))
  key ← or_raise (c.public_key seed)
  done (signed p c seed key (("type", str "integrity") ∷ ("files", obj (of_dict files)) ∷ []))
