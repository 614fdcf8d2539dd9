-- ===== src/Config.antt =====
-- app/config.py: the settings that the modelled routes read. The environment's texts are taken as
-- they stand, and the limits as natural numbers.
use netplex_support.Prelude.{ℕ, String, ltb, if◌then◌else◌}

pub record Settings : Type 0 where
  pub license_public_key : String
  pub signing_public_key : String
  pub license_trust_store_json : String
  pub signing_trust_store_json : String
  pub trusted_proxies : String
  pub web_intake_cors_origins : String
  pub intake_rate_per_min : ℕ
  pub web_intake_rate_per_min : ℕ
  pub license_verify_rate_per_min : ℕ
  pub max_blob_bytes : ℕ
  pub max_request_body_bytes : ℕ
  pub forward_intake_tokens : String
  pub email_intake_secrets : String
  pub admin_api_tokens : String

-- The values that the settings have where the environment sets none of them.
abbrev pub settings : Settings
settings = record {
  license_public_key = "";
  signing_public_key = "";
  license_trust_store_json = "";
  signing_trust_store_json = "";
  trusted_proxies = "";
  web_intake_cors_origins = "https://netplex.io,https://www.netplex.io";
  intake_rate_per_min = 30;
  web_intake_rate_per_min = 10;
  license_verify_rate_per_min = 30;
  max_blob_bytes = 5242880;
  max_request_body_bytes = 65536;
  forward_intake_tokens = "";
  email_intake_secrets = "";
  admin_api_tokens = "";
}

-- max(n, 1), the limit that a route hands to the rate limiter
abbrev pub at_least_one : ℕ → ℕ
at_least_one n = if ltb n 1 then 1 else n
