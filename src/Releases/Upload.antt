-- ===== src/Releases/Upload.antt =====
-- Which manifests POST /upload stores, and what GET /manifest then serves.
use netplex_support.Prelude.Sets.{String-set, ℕ-set}
use text.Mathlib.TextPositions.{eq_refl}
use netplex_support.Prelude.{
  ℕ, ◌<◌, String, true, List, [], ◌∷◌, ◌++◌, All, ◌≡◌, ◌≢◌, ◌⊎◌, inl, inr, refl, ap, sym, ◌∙◌, some,
  Bool-cases, ◌==◌,
}
use netplex_support.Signing.Reorder.{Reordered, verify_manifest-Reordered}
use netplex_support.Http.{Reply, ok, bind-ok, Reply-cases}
use netplex_support.Json.{Value, obj, str, null, Dict, get_default, of_dict}
use netplex_support.Json.Write.{write_members, member_texts}
use netplex_support.Platform.{Platform, text_of}
use netplex_support.Config.{Settings}
use netplex_support.Auth.{Request, require_admin}
use netplex_support.Database.{Database}
use netplex_support.Database.Latest.{latest-add}
use netplex_support.Signing.{TrustStore, accepted, verify_manifest}
use netplex_support.Licensing.{signer, or_crash}
use netplex_support.Licensing.Register.{signer-ok}
use netplex_support.Releases.{
  ReleaseManifest, UploadResult, about, is_channel, channel_of, signing_trust_store, release,
  upload_manifest, latest_release_manifest, get_manifest,
}

ReleaseManifest-set : IsSet ReleaseManifest
ReleaseManifest-set = hlevel (String-set, ℕ-set)

module _ (p : Platform) (s : Settings) (request : Request) (row_id uploaded_at : ℕ)
    (manifest : Dict) where
  -- What a row is that a request uploads.
  pub record IsUpload (row : ReleaseManifest) : Type 0 where
    pub trust : TrustStore
    pub is_admin : require_admin s request ≡ ok tt
    pub names_channel : get_default manifest "channel" null ≡ str row.channel
    pub has_channel : is_channel row.channel ≡ true
    pub has_trust : signing_trust_store p s ≡ ok trust
    pub signed : verify_manifest p manifest trust ≡ accepted row.key_id
    pub made : row ≡ record {
      id = row_id;
      channel = row.channel;
      version = text_of p (get_default manifest "version" (str ""));
      key_id = row.key_id;
      manifest_json = write_members true (member_texts true p.float_text (of_dict manifest));
      uploaded_at = uploaded_at;
    }

  channel_of-ok :
      (v : Value) (channel : String)
      → channel_of p v ≡ ok channel
      → (v ≡ str channel) × (is_channel channel ≡ true)
  unfolding channel_of
  channel_of-ok (str c) channel h = elim (Bool-cases (is_channel c)) [
    | inl e ↦ let found = rw e at h in let same : c ≡ channel = cc in (ap str same, rw (← same) e)
    | inr e ↦ let bad = rw e at h in cc
  ]
  channel_of-ok v channel h = cc

  abbrev attempt : Reply ReleaseManifest
  attempt = release p s request row_id uploaded_at manifest

  release_sound : (row : ReleaseManifest) → attempt ≡ ok row → IsUpload row
  unfolding release
  release_sound row h =
      let (_, is_admin, h1) = bind-ok (require_admin s request) _ row h in
      let (channel, named, h2) =
        bind-ok (channel_of p (get_default manifest "channel" null)) _ row h1 in
      let (trust, has_trust, h3) = bind-ok (signing_trust_store p s) _ row h2 in
      let (kid, signed, h4) = bind-ok (signer (verify_manifest p manifest trust)) _ row h3 in
      let (names_channel, has_channel) = channel_of-ok _ channel named in
      let found : record {
        id = row_id;
        channel = channel;
        version = text_of p (get_default manifest "version" (str ""));
        key_id = kid;
        manifest_json = write_members true (member_texts true p.float_text (of_dict manifest));
        uploaded_at = uploaded_at;
      }
          ≡ row =
        cc in
      rw (← found) (record {
        trust = trust;
        is_admin = is_admin;
        names_channel = names_channel;
        has_channel = has_channel;
        has_trust = has_trust;
        signed = signer-ok _ kid signed;
        made = refl;
      })

  release_complete : (row : ReleaseManifest) → IsUpload row → attempt ≡ ok row
  unfolding release channel_of
  release_complete row r =
      rw (r.is_admin) (
        rw (r.names_channel)
          (rw (r.has_channel) (rw (r.has_trust) (rw (r.signed) (rw (← r.made))))))

  module _ (rows : List ReleaseManifest) where
    abbrev outcome : Reply UploadResult × List ReleaseManifest
    outcome = upload_manifest p s request row_id uploaded_at manifest rows

    stored :
        (row : ReleaseManifest) → attempt ≡ ok row → outcome ≡ (ok (about row), rows ++ row ∷ [])
    unfolding upload_manifest
    stored row h = rw h

    refused :
        ((row : ReleaseManifest) → attempt ≢ ok row)
        → (outcome.1 ≡ rows) × ((r : UploadResult) → outcome.0 ≢ ok r)
    unfolding upload_manifest
    refused h = elim (Reply-cases attempt) [
      | inl (row, e) ↦ absurd (h row e)
      | inr (inl (status, detail, e)) ↦ rw e (refl, λ r q. cc)
      | inr (inr e) ↦ rw e (refl, λ r q. cc)
    ]

-- POST /upload either answers with success, and then its table has one more row, the last, with the
-- JSON text of a manifest that an admin's request carried, whose channel is one of the four and
-- which `verify_manifest` accepts in the name of the row's key id; or it does not answer with
-- success, and its table is as before.
pub upload_manifest-gate :
    (p : Platform) (s : Settings) (request : Request) (row_id uploaded_at : ℕ) (manifest : Dict)
    (rows : List ReleaseManifest)
    → ((row : ReleaseManifest) × IsUpload p s request row_id uploaded_at manifest row
        × (upload_manifest p s request row_id uploaded_at manifest rows
            ≡ (ok (about row), rows ++ row ∷ [])))
      ⊎ ((upload_manifest p s request row_id uploaded_at manifest rows).1 ≡ rows)
        × ((r : UploadResult)
            → (upload_manifest p s request row_id uploaded_at manifest rows).0 ≢ ok r)
upload_manifest-gate p s request row_id uploaded_at manifest rows =
    let not_done = refused p s request row_id uploaded_at manifest rows in
    elim (Reply-cases (release p s request row_id uploaded_at manifest)) [
      | inl (row, e) ↦ inl (
        row,
        release_sound p s request row_id uploaded_at manifest row e,
        stored p s request row_id uploaded_at manifest rows row e,
      )
      | inr (inl (status, detail, e)) ↦ inr (not_done (λ row q. cc))
      | inr (inr e) ↦ inr (not_done (λ row q. cc))
    ]

-- Where an admin's request has a manifest for one of the four channels that the signing trust store
-- accepts, POST /upload stores the row that is made of it, and answers with its terms.
pub upload_manifest-stores :
    (p : Platform) (s : Settings) (request : Request) (row_id uploaded_at : ℕ) (manifest : Dict)
    (rows : List ReleaseManifest) (row : ReleaseManifest)
    → IsUpload p s request row_id uploaded_at manifest row
    → upload_manifest p s request row_id uploaded_at manifest rows
      ≡ (ok (about row), rows ++ row ∷ [])
upload_manifest-stores p s request row_id uploaded_at manifest rows row r =
    stored p s request row_id uploaded_at manifest rows row
      (release_complete p s request row_id uploaded_at manifest row r)

module _ (db : Database) (p : Platform) (rows : List ReleaseManifest) (row : ReleaseManifest) where
  serve_stored :
      is_channel row.channel ≡ true
      → All (λ r. r.id < row.id) rows
      → get_manifest db p row.channel (rows ++ row ∷ []) ≡ or_crash (p.loads row.manifest_json)
  unfolding get_manifest latest_release_manifest
  serve_stored c below = rw c (
      rw (
        latest-add ReleaseManifest-set (λ r. r.id) db (λ m. m.channel == row.channel) rows row below
          (eq_refl row.channel)))

-- What is served for a manifest: `q`, which is a reordering of it that still verifies, in the name
-- of `key_id`, against the signing trust store.
pub record IsServed (p : Platform) (s : Settings) (key_id : String) (q : Dict)
    (answer : Reply Value) : Type 0 where
  pub trust : TrustStore
  pub has_trust : signing_trust_store p s ≡ ok trust
  pub answered : answer ≡ ok (obj (of_dict q))
  pub verifies : verify_manifest p q trust ≡ accepted key_id

-- After an upload that is answered with success, with an id above those of the rows before it, and
-- where `json.loads` reads the manifest's JSON text, as `json.dumps` writes it with its keys
-- sorted, as the manifest with its members in another order: GET /manifest on the channel that the
-- manifest names serves that reading, and it verifies against the signing trust store, in the name
-- of the key id that the upload was answered with.
pub get_manifest-upload :
    (db : Database) (p : Platform) (s : Settings) (request : Request) (row_id uploaded_at : ℕ)
    (manifest q : Dict) (rows : List ReleaseManifest) (result : UploadResult)
    → (upload_manifest p s request row_id uploaded_at manifest rows).0 ≡ ok result
    → All (λ r. r.id < row_id) rows
    → p.loads (write_members true (member_texts true p.float_text (of_dict manifest)))
      ≡ some (obj (of_dict q))
    → Reordered manifest q
    → (get_default manifest "channel" null ≡ str result.channel)
      × IsServed p s result.key_id q (
          get_manifest db p result.channel
            (upload_manifest p s request row_id uploaded_at manifest rows).1)
get_manifest-upload db p s request row_id uploaded_at manifest q rows result h below reads other =
    elim (upload_manifest-gate p s request row_id uploaded_at manifest rows) [
      | inr (_, never) ↦ absurd (never result h)
      | inl (row, r, e) ↦
          let same : about row ≡ result = (let found = rw e at h in cc) in
          let text_same = ap (λ x. x.manifest_json) (r.made) in
          let id_same : row.id ≡ row_id = ap (λ x. x.id) (r.made) in
          rw (← same) (
            r.names_channel,
            record {
              trust = r.trust;
              has_trust = r.has_trust;
              answered = rw e (
                  serve_stored db p rows row (r.has_channel) (rw id_same below)
                  ∙ ap (λ text. or_crash (p.loads text)) text_same
                  ∙ ap or_crash reads);
              verifies = sym (verify_manifest-Reordered p manifest q (r.trust) other) ∙ r.signed;
            },
          )
    ]
