-- ===== src/Blobs.antt =====
-- app/storage/blobs.py: the descriptors of content-addressed blobs.
use Prim.Native.String.{◌++◌}
use netplex_support.Prelude.{
  ℕ, String, Bool, true, not, List, [], ◌∷◌, ◌==◌, if◌then◌else◌, ltb, any, length,
}
use netplex_support.Base64.{Bytes}
use netplex_support.Platform.{Platform}

abbrev pub allowed_mime : List String
allowed_mime = "image/png" ∷ "image/jpeg" ∷ "image/webp" ∷ []

-- hashlib.sha256(blob).hexdigest()
abbrev pub content_address : Platform → Bytes → String
content_address p blob = p.sha256_hexdigest blob

pub record Descriptor : Type 0 where
  pub sha256 : String
  pub url : String
  pub mime : String
  pub bytes : ℕ
  pub redacted : Bool

-- What put_blob returns, or the text of the ValueError that it raises.
pub data Stored : Type 0 where
  descriptor : Descriptor → Stored
  value_error : String → Stored

unfoldable pub put_blob : Platform → Bytes → String → ℕ → Stored
put_blob p blob mime max_bytes =
    if not (any (λ m. m == mime) allowed_mime)
    then value_error ("unsupported mime: " ++ mime)
    else if ltb max_bytes (length blob)
    then value_error "blob too large"
    else descriptor (record {
      sha256 = content_address p blob;
      url = "objstore://" ++ content_address p blob;
      mime = mime;
      bytes = length blob;
      redacted = true;
    })
