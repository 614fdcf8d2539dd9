-- ===== src/Diagnostics/Attachment.antt =====
-- What POST /attachment accepts, and what it says of a blob.
use netplex_support.Prelude.{
  String, Bool, true, false, ◌&&◌, Option, none, some, ◌≡◌, ◌↔◌, inl, inr, refl, ap, Bool-cases,
  any, ltb, length, ◌==◌,
}
use Prim.Native.String.{◌++◌}
use netplex_support.Http.{ok, bind-ok}
use netplex_support.Platform.{Platform}
use netplex_support.Config.{Settings}
use netplex_support.Auth.{Request}
use netplex_support.Base64.{Bytes, AreBytes, b64encode, b64decode_strict}
use netplex_support.Base64.Laws.{b64decode_strict-b64encode}
use netplex_support.Blobs.{Descriptor, put_blob, allowed_mime}
use netplex_support.Diagnostics.{
  AttachmentUpload, upload_attachment, must_fit, fits, require_forward_auth, reply_of, decoded,
}

-- A blob that may be stored, under the type `mime`.
pub record IsStorable (s : Settings) (mime : String) (blob : Bytes) : Type 0 where
  pub has_mime : any (λ m. m == mime) allowed_mime ≡ true
  pub in_bounds : ltb s.max_blob_bytes (length blob) ≡ false

-- What is said of a blob.
abbrev pub described : Platform → String → Bytes → Descriptor
described p mime blob = record {
  sha256 = p.sha256_hexdigest blob;
  url = "objstore://" ++ p.sha256_hexdigest blob;
  mime = mime;
  bytes = length blob;
  redacted = true;
}

module _ (p : Platform) (s : Settings) (mime : String) (blob : Bytes) where
  put_blob_sound :
      (d : Descriptor)
      → reply_of (put_blob p blob mime s.max_blob_bytes) ≡ ok d
      → IsStorable s mime blob × (described p mime blob ≡ d)
  unfolding put_blob
  put_blob_sound d h = elim (Bool-cases (any (λ m. m == mime) allowed_mime)) [
    | inr e ↦ let bad = rw e at h in cc
    | inl e ↦ elim (Bool-cases (ltb s.max_blob_bytes (length blob))) [
      | inl l ↦ let bad = rw (e, l) at h in cc
      | inr l ↦ let found = rw (e, l) at h in (record { has_mime = e; in_bounds = l }, cc)
    ]
  ]

  put_blob_complete :
      IsStorable s mime blob
      → reply_of (put_blob p blob mime s.max_blob_bytes) ≡ ok (described p mime blob)
  unfolding put_blob
  put_blob_complete r = rw (r.has_mime) (rw (r.in_bounds))

must_fit-ok : (b : Bool) (u : Unit {0}) → must_fit b ≡ ok u → b ≡ true
must_fit-ok true u h = refl
must_fit-ok false u h = cc

decoded-ok : (text : String) (o : Option Bytes) (b : Bytes) → decoded text o ≡ ok b → o ≡ some b
decoded-ok text none b h = cc
decoded-ok text (some c) b h = let same : c ≡ b = cc in ap some same

-- POST /attachment answers with a descriptor exactly if the type and the text keep their limits,
-- the request has a configured intake token, the text decodes strictly to a blob of an allowed type
-- and of at most MAX_BLOB_BYTES bytes, and the descriptor is that blob's.
pub upload_attachment-ok :
    (p : Platform) (s : Settings) (request : Request) (text : String) (upload : AttachmentUpload)
    (d : Descriptor)
    → (upload_attachment p s request text upload ≡ ok d) ↔ (
        ((fits 32 upload.mime && fits 8000000 upload.data_b64) ≡ true)
        × (require_forward_auth s request ≡ ok tt)
        × ((blob : Bytes) × (b64decode_strict upload.data_b64 ≡ some blob)
            × IsStorable s upload.mime blob
            × (described p upload.mime blob ≡ d)))
unfolding upload_attachment
upload_attachment-ok p s request text upload d = (
  λ h.
      let (u, fit, h1) =
        bind-ok (must_fit (fits 32 upload.mime && fits 8000000 upload.data_b64)) _ d h in
      let (_, granted, h2) = bind-ok (require_forward_auth s request) _ d h1 in
      let (blob, read, h3) = bind-ok (decoded text (b64decode_strict upload.data_b64)) _ d h2 in
      let (storable, same) = put_blob_sound p s upload.mime blob d h3 in
      (must_fit-ok _ u fit, granted, (blob, decoded-ok text _ blob read, storable, same)),
  λ (fit, granted, (blob, read, storable, same)).
      rw fit
        (rw granted (rw read (rw (put_blob_complete p s upload.mime blob storable) (ap ok same)))),
)

-- A blob of bytes that is sent in base64, is of an allowed type and within MAX_BLOB_BYTES, and whose
-- text and type keep their limits, is answered, where the request has an intake token, with the
-- descriptor of just that blob.
pub upload_attachment-b64encode :
    (p : Platform) (s : Settings) (request : Request) (text mime : String) (blob : Bytes)
    → AreBytes blob
    → IsStorable s mime blob
    → (fits 32 mime && fits 8000000 (b64encode blob)) ≡ true
    → require_forward_auth s request ≡ ok tt
    → upload_attachment p s request text (record { mime = mime; data_b64 = b64encode blob })
      ≡ ok (described p mime blob)
upload_attachment-b64encode p s request text mime blob bytes storable fit granted =
    (upload_attachment-ok p s request text (record { mime = mime; data_b64 = b64encode blob })
        (described p mime blob)).1
      (fit, granted, (blob, b64decode_strict-b64encode blob bytes, storable, refl))
