-- ===== src/Offline/Uploaded.antt =====
-- What is signed offline, with a key that was made offline, the server stores.
use Prim.Native.String
use netplex_support.Prelude.{
  ℕ, ◌≤◌, String, true, not, none, some, List, [], ◌∷◌, ◌++◌, ◌≡◌, refl, sym, ap, ◌∙◌, eq_iff,
  length, arith,
}
use netplex_support.Prelude.Text.{non_empty, strip, all_chars, is_space}
use netplex_support.Prelude.Text.Strip.{strip_line}
use netplex_support.Http.{ok}
use netplex_support.Json.{null, str, Dict, of_dict, get_default, as_dict}
use netplex_support.Json.Write.{write_members, member_texts}
use netplex_support.Base64.{Bytes, AreBytes, b64encode, b64decode}
use netplex_support.Base64.Alphabet.{b64encode-all}
use netplex_support.Base64.Laws.{b64decode-b64encode}
use netplex_support.Platform.{Platform, HasEd25519, text_of}
use netplex_support.Config.{Settings}
use netplex_support.Auth.{Request, require_admin}
use netplex_support.Signing.{
  TrustStore, Entry, accepted, from_keys, key_id_for, sign_manifest, trust_store_from_settings,
  verify_manifest,
}
use netplex_support.Signing.RoundTrip.{sign_manifest-verify}
use netplex_support.Tool.{done, or_raise, bind-done, or_raise-done, done-inj}
use netplex_support.Licensing.{or_crash}
use netplex_support.Releases.{
  ReleaseManifest, is_channel, signing_trust_store, upload_manifest, about,
}
use netplex_support.Releases.Upload.{upload_manifest-stores}
use netplex_support.Offline.{Keypair, gen_keypair, sign_release}

infixr 66 ◌⧺◌
abbrev ◌⧺◌ : String → String → String
s ⧺ t = String.◌++◌ s t

one_line : (bs : Bytes) → strip (b64encode bs ⧺ "\n") ≡ b64encode bs
unfolding all_chars
one_line bs = strip_line (b64encode bs) (b64encode-all (λ c. not (is_space c)) refl refl bs)

b64encode-given : (bs : Bytes) → 1 ≤ length bs → non_empty (b64encode bs) ≡ true
unfolding b64encode
b64encode-given [] h = absurd (omega arith)
b64encode-given (a ∷ []) h = refl
b64encode-given (a ∷ b ∷ []) h = refl
b64encode-given (a ∷ b ∷ c ∷ rest) h = refl

-- The settings of a server that trusts the one key that it is given.
store_of :
    (p : Platform) (json : String) (key : Bytes)
    → strip json ≡ ""
    → AreBytes key
    → 1 ≤ length key
    → trust_store_from_settings p json (b64encode key)
      ≡ some ((key_id_for p key, record { public_key = b64encode key; status = str "active" }) ∷ [])
unfolding trust_store_from_settings from_keys
store_of p json key blank bytes long =
    rw (blank, b64encode-given key long, b64decode-b64encode key bytes) refl

some-inj : (a b : Bytes) → some a ≡ some b → a ≡ b
some-inj a b h = cc

-- What the key's files make of each other.
module _ (p : Platform) (seed key : Bytes) (k : Keypair) (has : p.verify_key seed ≡ some key) where
  made :
      gen_keypair p seed ≡ done k
      → record {
        private_file = b64encode seed ⧺ "\n";
        public_file = b64encode key ⧺ "\n";
        key_id = key_id_for p key;
        entry = record { public_key = b64encode key; status = str "active" };
      }
        ≡ k
  unfolding gen_keypair
  made h = done-inj _ k (rw has at h)

  signs :
      (file : String) (signed : Dict)
      → AreBytes seed
      → gen_keypair p seed ≡ done k
      → sign_release p k.private_file file ≡ done signed
      → (manifest : Dict) × (sign_manifest p manifest seed none ≡ some signed)
  unfolding sign_release
  signs file signed bytes h run =
      let reads : b64decode (strip (k.private_file)) ≡ some seed =
        ap (λ (m : Keypair). b64decode (strip m.private_file)) (sym (made h))
        ∙ ap b64decode (one_line seed)
        ∙ b64decode-b64encode seed bytes in
      let (found, e1, h1) = bind-done (or_raise (b64decode (strip k.private_file))) _ signed run in
      let (v, e2, h2) = bind-done (or_raise (p.loads file)) _ signed h1 in
      let (manifest, e3, h3) = bind-done (or_raise (as_dict v)) _ signed h2 in
      let same : found ≡ seed = some-inj _ _ (sym (or_raise-done _ found e1) ∙ reads) in
      (manifest, ap (λ s. sign_manifest p manifest s none) (sym same) ∙ or_raise-done _ signed h3)

-- The row of a manifest that is stored.
abbrev pub row_of : Platform → ℕ → ℕ → String → String → Dict → ReleaseManifest
row_of p row_id uploaded_at channel key_id signed = record {
  id = row_id;
  channel = channel;
  version = text_of p (get_default signed "version" (str ""));
  key_id = key_id;
  manifest_json = write_members true (member_texts true p.float_text (of_dict signed));
  uploaded_at = uploaded_at;
}

-- A release that is signed offline reaches the server's store: with a key that gen_keypair.py made
-- of a seed of bytes, whose public key is bytes, and some, what sign_release.py writes with the key's
-- private file is stored by POST /upload, under the key id that gen_keypair.py printed, if an admin
-- sends it, its channel is one of the four, and the settings hold the text of the key's public file
-- and no other trust store. PyNaCl is there and verifies what it signs.
pub sign_release-uploads :
    (p : Platform) (s : Settings) (request : Request) (row_id uploaded_at : ℕ) (seed key : Bytes)
    (k : Keypair) (file channel : String) (signed : Dict) (rows : List ReleaseManifest)
    → let row = row_of p row_id uploaded_at channel k.key_id signed in
      HasEd25519 p
      → AreBytes seed
      → p.verify_key seed ≡ some key
      → AreBytes key
      → 1 ≤ length key
      → gen_keypair p seed ≡ done k
      → sign_release p k.private_file file ≡ done signed
      → require_admin s request ≡ ok tt
      → strip s.signing_trust_store_json ≡ ""
      → s.signing_public_key ≡ strip k.public_file
      → get_default signed "channel" null ≡ str channel
      → is_channel channel ≡ true
      → upload_manifest p s request row_id uploaded_at signed rows
        ≡ (ok (about row), rows ++ row ∷ [])
unfolding signing_trust_store
sign_release-uploads p s request row_id uploaded_at seed key k file channel signed rows laws bytes
      has key_bytes long made_so run admin blank pinned named known =
    let (manifest, by_seed) = signs p seed key k has file signed bytes made_so run in
    let pair = made p seed key k has made_so in
    let entry : Entry = record { public_key = b64encode key; status = str "active" } in
    let trust : TrustStore = (key_id_for p key, entry) ∷ [] in
    let file_text : s.signing_public_key ≡ b64encode key =
      pinned ∙ ap (λ (m : Keypair). strip m.public_file) (sym pair) ∙ one_line key in
    let kid : key_id_for p key ≡ k.key_id = ap (λ (m : Keypair). m.key_id) pair in
    let verified : verify_manifest p signed trust ≡ accepted (key_id_for p key) =
      sign_manifest-verify p manifest signed seed key none trust entry laws has by_seed
        (ground (arith, eq_iff (key_id_for p key) (key_id_for p key))) refl
        (b64decode-b64encode key key_bytes) in
    upload_manifest-stores p s request row_id uploaded_at signed rows
      (row_of p row_id uploaded_at channel k.key_id signed)
      (record {
        trust = trust;
        is_admin = admin;
        names_channel = named;
        has_channel = known;
        has_trust = ap or_crash (
            ap (trust_store_from_settings p s.signing_trust_store_json) file_text
            ∙ store_of p s.signing_trust_store_json key blank key_bytes long);
        signed = verified ∙ ap accepted kid;
        made = refl;
      })
