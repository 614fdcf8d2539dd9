-- ===== src/Stamping/Command.antt =====
-- main of tools/stamp_download.py: the key's file, which is given by its text, and the number of sites.
use netplex_support.Prelude.{suc, zero, String, Bool, Option, none, some, List, take}
use netplex_support.Prelude.Int.{ℤ, pos, negsuc}
use netplex_support.Prelude.Text.{strip}
use netplex_support.Base64.{b64decode}
use netplex_support.Platform.{Platform}
use netplex_support.Cryptography.{Cryptography}
use netplex_support.Tool.{Run, or_raise, ◌>>=◌}
use netplex_support.Stamping.{Download, Stamped, default_sites, stamp_artifact}

-- _DEFAULT_SITES if not args.sites else _DEFAULT_SITES[: max(1, args.sites)]
abbrev pub chosen_sites : Option ℤ → List String
chosen_sites none = default_sites
chosen_sites (some (pos zero)) = default_sites
chosen_sites (some (pos (suc n))) = take (suc n) default_sites
chosen_sites (some (negsuc n)) = take 1 default_sites

-- `d` holds the other options.
unfoldable pub stamp_command :
    Platform → Cryptography → Bool → String → Option ℤ → Download → String → String → Run Stamped
unfolding b64decode strip stamp_artifact
stamp_command p c is_dir key_file sites d hex issued = do
  seed ← or_raise (b64decode (strip key_file))
  stamp_artifact p c is_dir (record d { key_seed = seed; sites = chosen_sites sites }) hex issued
