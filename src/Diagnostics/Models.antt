-- ===== src/Diagnostics/Models.antt =====
-- The models of the reports in app/routers/diagnostics.py, and the limits of their fields.
use netplex_support.Prelude.{
  ℕ, String, Bool, true, ◌&&◌, Option, none, some, List, [], ◌∷◌, ◌==◌, leb, any, length,
}
use netplex_support.Prelude.Text.{count_chars}

pub record ForwardedReport : Type 0 where
  pub kind : String
  pub fingerprint : Option String
  pub title : String
  pub body : String
  pub severity : String
  pub platform_version : String
  pub reporter_tier : String
  pub install_id : Option String
  pub origin_local_id : Option String
  pub license_token : Option String
  pub contact : Option String
  pub attachment_refs : List String
  pub diagnostic_bundle : Option String

pub record WebReport : Type 0 where
  pub kind : String
  pub fingerprint : Option String
  pub title : String
  pub body : String
  pub severity : String
  pub contact : Option String

pub record EmailReport : Type 0 where
  pub from_email : String
  pub subject : String
  pub body : String

pub record AttachmentUpload : Type 0 where
  pub mime : String
  pub data_b64 : String

-- Field(max_length=n), of a text and of an optional text
unfoldable pub fits : ℕ → String → Bool
unfolding count_chars
fits n s = leb (count_chars s) n

unfoldable pub fits_if_given : ℕ → Option String → Bool
unfolding fits
fits_if_given n none = true
fits_if_given n (some s) = fits n s

abbrev pub is_kind : String → Bool
is_kind kind = any (λ k. k == kind) ("crash" ∷ "bug" ∷ "feature" ∷ "license" ∷ [])

unfoldable pub forwarded_fits : ForwardedReport → Bool
unfolding fits_if_given
forwarded_fits r =
    is_kind r.kind
    && (fits_if_given 128 r.fingerprint
        && (fits 200 r.title
            && (fits 10000 r.body
                && (fits 16 r.severity
                    && (fits 64 r.platform_version
                        && (fits 32 r.reporter_tier
                            && (fits_if_given 128 r.install_id
                                && (fits_if_given 32 r.origin_local_id
                                    && (fits_if_given 4096 r.license_token
                                        && (fits_if_given 256 r.contact
                                            && (leb (length r.attachment_refs) 10
                                                && fits_if_given 200000
                                                    r.diagnostic_bundle)))))))))))

unfoldable pub web_fits : WebReport → Bool
unfolding fits_if_given
web_fits r =
    is_kind r.kind
    && (fits_if_given 128 r.fingerprint
        && (fits 200 r.title
            && (fits 10000 r.body && (fits 16 r.severity && fits_if_given 256 r.contact))))

unfoldable pub email_fits : EmailReport → Bool
unfolding fits
email_fits r = fits 256 r.from_email && (fits 200 r.subject && fits 10000 r.body)
