-- ===== src/Attribution/Scan/Counts.antt =====
-- When a scan ends, and what it counts.
use netplex_support.Prelude.{
  ℕ, ◌+◌, String, Bool, true, false, not, Option, none, some, List, [], ◌∷◌, ◌≡◌, ◌↔◌, inl, inr,
  refl, All, any, keep, Bool-cases, Option-cases, arith, length, length-append,
}
use netplex_support.Json.{is_hashable}
use netplex_support.Base64.{Bytes}
use netplex_support.Platform.{Platform}
use netplex_support.Cryptography.{Cryptography}
use netplex_support.Attribution.{Ledger, Report}
use netplex_support.Attribution.Scan.{
  File, Key, Entry, hits, attribute_blob, key_of, same_key, put_entry, merge, scan_hits, scan,
}

-- A match that is attributed to an id that no dict can have as a key.
abbrev has_bad_key : Platform → Option Report → Bool
has_bad_key p none = false
has_bad_key p (some r) = not (is_hashable (key_of p r).ident)

abbrev pub is_planted : Platform → Cryptography → List String → Ledger → String × Bytes → Bool
is_planted p c trust ledger (path, blob) = has_bad_key p (attribute_blob p c trust ledger blob)

-- A match that is attributed.
abbrev is_report : Option Report → Bool
is_report none = false
is_report (some r) = true

abbrev pub is_attributed : Platform → Cryptography → List String → Ledger → String × Bytes → Bool
is_attributed p c trust ledger (path, blob) = is_report (attribute_blob p c trust ledger blob)

merge-none :
    (p : Platform) (path : String) (r : Option Report) (es : List Entry)
    → (merge p path r es ≡ none) ↔ (has_bad_key p r ≡ true)
merge-none p path none es = ((λ h. cc), (λ h. cc))
merge-none p path (some r) es = elim (Bool-cases (is_hashable (key_of p r).ident)) [
  | inl e ↦ rw e ((λ h. cc), (λ h. cc))
  | inr e ↦ rw e ((λ h. refl), (λ h. refl))
]

abbrev pub total : List Entry → ℕ
total [] = 0
total (e ∷ es) = e.copies + total es

-- The number of copies of a finding is that of its paths.
abbrev pub AreCounted : List Entry → Type 0
AreCounted = All (λ e. e.copies ≡ length e.artifacts)

put_entry-total :
    (p : Platform) (path : String) (key : Key) (r : Report) (es : List Entry)
    → total (put_entry p path key r es) ≡ total es + 1
unfolding put_entry
put_entry-total p path key r [] = refl
put_entry-total p path key r (e ∷ es) = elim (Bool-cases (same_key p e.key key)) [
  | inl s ↦ rw s (omega arith)
  | inr s ↦ rw s (omega (arith, put_entry-total p path key r es))
]

put_entry-AreCounted :
    (p : Platform) (path : String) (key : Key) (r : Report) (es : List Entry)
    → AreCounted es
    → AreCounted (put_entry p path key r es)
unfolding put_entry
put_entry-AreCounted p path key r [] h = (refl, tt)
put_entry-AreCounted p path key r (e ∷ es) h = elim (Bool-cases (same_key p e.key key)) [
  | inl s ↦ rw s (omega (arith, h.0, length-append {0} e.artifacts (path ∷ [])), h.1)
  | inr s ↦ rw s (h.0, put_entry-AreCounted p path key r es (h.1))
]

some-inj : (a b : List Entry) → some a ≡ some b → a ≡ b
some-inj a b h = cc

abbrev one_if : Bool → ℕ
one_if true = 1
one_if false = 0

merge-total :
    (p : Platform) (path : String) (r : Option Report) (es es' : List Entry)
    → merge p path r es ≡ some es'
    → AreCounted es
    → (total es' ≡ total es + one_if (is_report r)) × AreCounted es'
merge-total p path none es es' m h = rw (← some-inj es es' m) (omega arith, h)
merge-total p path (some r) es es' m h = elim (Bool-cases (is_hashable (key_of p r).ident)) [
  | inl e ↦
      rw (← some-inj _ es' (rw e at m))
        (put_entry-total p path (key_of p r) r es, put_entry-AreCounted p path (key_of p r) r es h)
  | inr e ↦ cc (rw e at m)
]

module _ (p : Platform) (c : Cryptography) (trust : List String) (ledger : Ledger) where
  scan_hits-none :
      (hs : List (String × Bytes)) (es : List Entry)
      → (scan_hits p c trust ledger hs es ≡ none) ↔ (any (is_planted p c trust ledger) hs ≡ true)
  unfolding scan_hits
  scan_hits-none [] es = ((λ h. cc), (λ h. cc))
  scan_hits-none ((path, blob) ∷ hs) es =
      let found = attribute_blob p c trust ledger blob in
      let planted = merge-none p path found es in
      elim (Option-cases (merge p path found es)) [
        | inl e ↦ rw (e, planted.0 e) ((λ h. refl), (λ h. refl))
        | inr (next, e) ↦
            let good : has_bad_key p found ≡ false = elim (Bool-cases (has_bad_key p found)) [
              | inl b ↦ let gone = planted.1 b in cc
              | inr b ↦ b
            ] in
            rw (e, good) (scan_hits-none hs next)
      ]

  scan_hits-total :
      (hs : List (String × Bytes)) (es es' : List Entry)
      → scan_hits p c trust ledger hs es ≡ some es'
      → AreCounted es
      → (total es' ≡ total es + length (keep (is_attributed p c trust ledger) hs)) × AreCounted es'
  unfolding scan_hits
  scan_hits-total [] es es' m h = rw (← some-inj es es' m) (omega arith, h)
  scan_hits-total ((path, blob) ∷ hs) es es' m h =
      let found = attribute_blob p c trust ledger blob in
      elim (Option-cases (merge p path found es)) [
        | inl e ↦ cc (rw e at m)
        | inr (next, e) ↦
            let (one, counted) = merge-total p path found es next e h in
            let (rest, all) = scan_hits-total hs next es' (rw e at m) counted in
            (ground (arith, one, rest), all)
      ]

-- `_scan` raises exactly if the tree holds a match that is attributed to a download id or a license
-- id that is a non-empty list or dict, whether a trusted key signed the match or not.
pub scan-none :
    (p : Platform) (c : Cryptography) (trust : List String) (ledger : Ledger) (files : List File)
    → (scan p c trust ledger files ≡ none) ↔ (any (is_planted p c trust ledger) (hits files) ≡ true)
unfolding scan
scan-none p c trust ledger files = scan_hits-none p c trust ledger (hits files) []

-- The findings of a scan that ends count every match that is attributed, once: their copies add up
-- to the number of these matches, and each finding has a path for every copy.
pub scan-total :
    (p : Platform) (c : Cryptography) (trust : List String) (ledger : Ledger) (files : List File)
    (es : List Entry)
    → scan p c trust ledger files ≡ some es
    → (total es ≡ length (keep (is_attributed p c trust ledger) (hits files)))
      × All (λ e. e.copies ≡ length e.artifacts) es
unfolding scan
scan-total p c trust ledger files es m =
    let (sum, all) = scan_hits-total p c trust ledger (hits files) [] es m tt in
    (omega (arith, sum), all)
