-- ===== src/Releases.antt =====
-- app/routers/releases.py and the release manifests of app/models.py. A table is the list of its
-- rows; the id of a new row, which the database assigns, is an argument.
mod Examples
pub mod Upload
use Prim.Native.String.{◌++◌}
use netplex_support.Prelude.{
  ℕ, String, Bool, true, false, not, Option, none, some, List, [], ◌∷◌, ◌==◌, if◌then◌else◌, leb,
  any,
}
use netplex_support.Prelude
use netplex_support.Http.{Reply, ok, error, crash, ◌>>=◌}
use netplex_support.Json.{Value, str, null, Dict, as_text, get_default, is_hashable, of_dict}
use netplex_support.Json.Write.{write_members, member_texts}
use netplex_support.Platform.{Platform, text_of}
use netplex_support.Config.{Settings}
use netplex_support.Auth.{Request, require_admin}
use netplex_support.Database.{Database, first_row}
use netplex_support.Signing.{TrustStore, verify_manifest, trust_store_from_settings}
use netplex_support.Licensing.{or_crash, signer}

pub record ReleaseManifest : Type 0 where
  pub id : ℕ
  pub channel : String
  pub version : String
  pub key_id : String
  pub manifest_json : String
  pub uploaded_at : ℕ

abbrev pub store_release_manifest : ReleaseManifest → List ReleaseManifest → List ReleaseManifest
store_release_manifest row rows = Prelude.◌++◌ rows (row ∷ [])

abbrev pub higher_id : ReleaseManifest → ReleaseManifest → Bool
higher_id a b = leb b.id a.id

-- latest_release_manifest
unfoldable pub latest_release_manifest :
    Database → String → List ReleaseManifest → Option ReleaseManifest
latest_release_manifest db channel rows =
    first_row (db.select (λ m. m.channel == channel) higher_id rows)

abbrev pub channels : List String
channels = "canary" ∷ "beta" ∷ "stable" ∷ "lts" ∷ []

abbrev pub is_channel : String → Bool
is_channel channel = any (λ c. c == channel) channels

-- sorted(CHANNELS), as a text
abbrev sorted_channels : String
sorted_channels = "['beta', 'canary', 'lts', 'stable']"

-- _trust_store of app/routers/releases.py
unfoldable pub signing_trust_store : Platform → Settings → Reply TrustStore
unfolding trust_store_from_settings
signing_trust_store p s =
    or_crash (trust_store_from_settings p s.signing_trust_store_json s.signing_public_key)

-- The channel of a manifest, or the error 400; `in` raises on a list or a dict.
unfoldable pub channel_of : Platform → Value → Reply String
channel_of p (str channel) =
    if is_channel channel
    then ok channel
    else error 400 (
        "manifest.channel must be one of "
        ++ (sorted_channels ++ (", got " ++ p.repr (str channel))))
channel_of p v =
    if is_hashable v
    then error 400
        ("manifest.channel must be one of " ++ (sorted_channels ++ (", got " ++ p.repr v)))
    else crash

-- What POST /upload checks, and the row that it then stores.
unfoldable pub release : Platform → Settings → Request → ℕ → ℕ → Dict → Reply ReleaseManifest
unfolding require_admin channel_of signing_trust_store verify_manifest text_of write_members
    member_texts
release p s request row_id uploaded_at manifest = do
  _ ← require_admin s request
  channel ← channel_of p (get_default manifest "channel" null)
  trust ← signing_trust_store p s
  key_id ← signer (verify_manifest p manifest trust)
  ok (record {
    id = row_id;
    channel = channel;
    version = text_of p (get_default manifest "version" (str ""));
    key_id = key_id;
    manifest_json = write_members true (member_texts true p.float_text (of_dict manifest));
    uploaded_at = uploaded_at;
  })

pub record UploadResult : Type 0 where
  pub accepted : Bool
  pub channel : String
  pub version : String
  pub key_id : String

abbrev pub about : ReleaseManifest → UploadResult
about row = record {
  accepted = true;
  channel = row.channel;
  version = row.version;
  key_id = row.key_id;
}

abbrev store_release :
    Reply ReleaseManifest → List ReleaseManifest → Reply UploadResult × List ReleaseManifest
store_release (ok row) rows = (ok (about row), store_release_manifest row rows)
store_release (error status detail) rows = (error status detail, rows)
store_release crash rows = (crash, rows)

-- POST /upload
unfoldable pub upload_manifest :
    Platform
    → Settings
    → Request
    → ℕ
    → ℕ
    → Dict
    → List ReleaseManifest
    → Reply UploadResult × List ReleaseManifest
unfolding release
upload_manifest p s request row_id uploaded_at manifest rows =
    store_release (release p s request row_id uploaded_at manifest) rows

abbrev pub served : Platform → String → Option ReleaseManifest → Reply Value
served p channel none =
    error 404 ("no manifest has been published for channel " ++ (p.repr (str channel) ++ " yet"))
served p channel (some row) = or_crash (p.loads row.manifest_json)

-- GET /manifest/{channel}
unfoldable pub get_manifest : Database → Platform → String → List ReleaseManifest → Reply Value
unfolding latest_release_manifest
get_manifest db p channel rows =
    if not (is_channel channel)
    then error 404 (
        "unknown channel: "
        ++ (p.repr (str channel) ++ (" (expected one of " ++ (sorted_channels ++ ")"))))
    else served p channel (latest_release_manifest db channel rows)

-- POST /publish
abbrev pub publish_release : Reply (Unit {0})
publish_release =
    error 501
      "publish (server-side signing) is permanently disabled by design - this server never holds the private signing key (docs/SECURITY-BLOCKERS.md #3). Sign a manifest OFFLINE via tools/sign_release.py on the air-gapped signing machine, then POST the signed result to /api/v1/releases/upload"
