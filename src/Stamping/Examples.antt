-- ===== src/Stamping/Examples.antt =====
-- A stamp with a toy key, that is scanned for.
use netplex_support.Prelude.{
  ◌≤◌, ◌==◌, ◌≢◌, eq_iff, String, true, false, none, some, List, [], ◌∷◌, ◌++◌, ◌≡◌, refl, arith,
  length,
}
use netplex_support.Prelude.Text.{all_chars}
use netplex_support.Prelude.Text.Utf8.{utf8}
use netplex_support.Prelude.Text.Utf8.Decode.{decode}
use netplex_support.Json.{str, obj, Dict, of_dict}
use netplex_support.Json.Dump.{dump}
use netplex_support.Base64.{b64decode, b64encode}
use netplex_support.Platform.{Platform}
use netplex_support.Platform.Toy.{toy, toy_reading}
use netplex_support.Cryptography.Toy.{toy_keys, toy_seed, toy_keys-IsEd25519}
use netplex_support.Signing.{canonical_bytes, key_id_for, signature_block}
use netplex_support.Tool.{done, raises}
use netplex_support.Attribution.{Ledger, attribute, stamp_report, find_row}
use netplex_support.Attribution.Pattern.{find_all}
use netplex_support.Attribution.Scan.{Entry, key_of, scan}
use netplex_support.Attribution.Scan.Verdicts.{lists}
use netplex_support.Stamping.{
  Download, Stamped, stamp, site_text, write_sites, sites_of, ledger_row, ledger_line,
  stamp_artifact,
}
use netplex_support.Stamping.Text.{IsPlain}
use netplex_support.Attribution.{load_ledger, ledger_customer}
use netplex_support.Attribution.Rows.{read_line}
use netplex_support.Signing.Reorder.{Reordered, keep, swap, both}
use netplex_support.Prelude.Int.{pos, negsuc}
use netplex_support.Stamping.Command.{chosen_sites, stamp_command}
use netplex_support.Stamping.Recorded.{goes_on, stamp_artifact-recorded}
use netplex_support.Stamping.Traced.{traced_report, stamp_artifact-traced}

abbrev download : Download
download = record {
  key_seed = toy_seed;
  customer = "acme";
  tier = "master";
  package_name = "netplex";
  version = "1.2";
  download_id = none;
  sites = [];
  has_ledger = true;
  embed_customer = false;
}

abbrev stamped : Dict
stamped =
    stamp download "00ff" "2026-01-01T00:00:00Z"
    ++ (
      "signature",
      signature_block "0011223344556677" (
          toy_keys.sign toy_seed
            (canonical_bytes toy (stamp download "00ff" "2026-01-01T00:00:00Z"))),
    )
      ∷ []

abbrev reader : Platform
reader = toy_reading (site_text toy stamped) stamped

abbrev written : Stamped
written = record {
  download_id = "dl_00ff";
  stamp = stamped;
  written = write_sites toy stamped (sites_of []);
  ledger = some (ledger_line toy (ledger_row download "00ff" "2026-01-01T00:00:00Z"));
}

abbrev rows : Ledger
rows = (str "dl_00ff", ("download_id", str "dl_00ff") ∷ ("customer_ref", str "acme") ∷ []) ∷ []

stamp_test :
    stamp_artifact reader toy_keys true download "00ff" "2026-01-01T00:00:00Z" ≡ done written
unfolding stamp_artifact key_id_for
stamp_test = refl

reads_test : reader.loads (site_text reader written.stamp) ≡ some (obj (of_dict written.stamp))
unfolding dump b64encode canonical_bytes
reads_test = refl

plain : IsPlain download "00ff" "2026-01-01T00:00:00Z"
unfolding all_chars
plain = record {
  id = refl;
  customer = refl;
  tier = refl;
  package_name = refl;
  version = refl;
  issued_at = refl;
}

abbrev listed : List Entry
listed =
    let report =
      traced_report reader toy_keys download "00ff" "2026-01-01T00:00:00Z" (32 ∷ []) rows
        "0011223344556677" in
    record {
      key = record {
        kind = some "download-stamp";
        ident = str "dl_00ff";
        key_id = some "0011223344556677";
        ok = true;
      };
      report = report;
      copies = 1;
      artifacts = "site.json" ∷ [];
    }
    ∷ []

scan_test :
    scan reader toy_keys
      ("IA==" ∷ [])
      rows
      (("site.json", some (utf8 (site_text reader written.stamp))) ∷ [])
    ≡ some listed
unfolding scan attribute stamp_report utf8 decode find_all dump b64encode canonical_bytes key_id_for
    find_row
scan_test = refl

short_text : length (utf8 (site_text reader written.stamp)) ≤ 2000000
unfolding utf8 dump b64encode canonical_bytes
short_text = omega arith

stamp_artifact-traced_example :
    (kid : String) × (attribute reader toy_keys ("IA==" ∷ []) rows (site_text reader written.stamp)
      ≡ some
          (traced_report reader toy_keys download "00ff" "2026-01-01T00:00:00Z" (32 ∷ []) rows kid))
    × (lists reader "site.json"
          (key_of reader (
            traced_report reader toy_keys download "00ff" "2026-01-01T00:00:00Z"
              (32 ∷ [])
              rows
              kid))
          listed
        ≡ true)
unfolding key_id_for b64decode all_chars
stamp_artifact-traced_example =
    stamp_artifact-traced reader toy_keys download "00ff" "2026-01-01T00:00:00Z" (32 ∷ []) written
      "IA==" ("IA==" ∷ []) rows [] [] "site.json" listed toy_keys-IsEd25519 refl stamp_test
      reads_test refl plain refl refl refl refl short_text scan_test

-- A ledger with a line that is no JSON, and then the line that is appended.
abbrev appended : String
appended = ledger_line toy (ledger_row download "00ff" "2026-01-01T00:00:00Z")

-- The row, with its members in the order of their names.
abbrev sorted_row : Dict
sorted_row =
    ("customer_ref", str "acme")
    ∷ ("download_id", str "dl_00ff")
    ∷ ("issued_at", str "2026-01-01T00:00:00Z")
    ∷ ("package", str "netplex")
    ∷ ("tier", str "master")
    ∷ ("version", str "1.2")
    ∷ []

other : (s t : String) → (s == t) ≡ false → ◌≢◌ {A = String} s t
other s t h e = let clash = (eq_iff s t).1 e in cc

-- download_id customer tier package version issued: the swaps that sort it.
row_order : Reordered (ledger_row download "00ff" "2026-01-01T00:00:00Z") sorted_row
row_order = both (swap _ _ (other _ _ refl)) (
    keep _ (
      keep _ (
        both (keep _ (keep _ (swap _ _ (other _ _ refl)))) (
          both (keep _ (swap _ _ (other _ _ refl)))
            (both (swap _ _ (other _ _ refl)) (keep _ (swap _ _ (other _ _ refl))))))))

abbrev ledger_reader : Platform
ledger_reader = toy_reading appended sorted_row

ledger_test :
    stamp_artifact ledger_reader toy_keys true download "00ff" "2026-01-01T00:00:00Z" ≡ done written
unfolding stamp_artifact key_id_for
ledger_test = refl

reads_row_test : ledger_reader.loads appended ≡ some (obj (of_dict sorted_row))
unfolding dump
reads_row_test = refl

other_line : goes_on (read_line ledger_reader (ledger_reader.loads "NPX")) ≡ true
unfolding dump
other_line = refl

stamp_artifact-recorded_example :
    ledger_customer ledger_reader
      (load_ledger ledger_reader ("NPX" ∷ appended ∷ []) [])
      (str "dl_00ff")
    ≡ str "acme"
stamp_artifact-recorded_example =
    stamp_artifact-recorded ledger_reader toy_keys download "00ff" "2026-01-01T00:00:00Z" written
      appended sorted_row ("NPX" ∷ []) ledger_test refl reads_row_test row_order (other_line, tt)

-- Two of the sites are chosen; a folder that is missing makes the tool raise.
command_tests :
    (stamp_command reader toy_keys true "AAAAAAAAAAAAAAAAAAAAAAAAAAAAAAAAAAAAAAAAAAA=\n"
        (some (pos 2))
        download
        "00ff"
        "2026-01-01T00:00:00Z"
      ≡ done (record written {
        written = write_sites toy stamped ("install-stamp.json" ∷ ".netplex/build.json" ∷ []);
      }))
    × (chosen_sites (some (negsuc 3)) ≡ "install-stamp.json" ∷ [])
    × (stamp_command reader toy_keys false "AAAA" none download "00ff" "2026-01-01T00:00:00Z"
        ≡ raises)
unfolding stamp_command key_id_for
command_tests = (refl, refl, refl)
