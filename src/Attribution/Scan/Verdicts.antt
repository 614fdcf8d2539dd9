-- ===== src/Attribution/Scan/Verdicts.antt =====
-- What a scan lists of a match that it attributes.
use mathlib.Core.List.{append_assoc}
use netplex_support.Prelude.{
  ℕ, zero, suc, ◌≤◌, String, Bool, true, ◌&&◌, Option, none, some, List, [], ◌∷◌, ◌++◌, ◌≡◌, inl,
  inr, refl, sym, ap, ◌∙◌, any, any-append, Bool-cases, Option-cases, arith, eq_iff, ◌==◌, length,
  take, map,
}
use netplex_support.Json.{is_hashable}
use netplex_support.Base64.{Bytes}
use netplex_support.Platform.{Platform}
use netplex_support.Cryptography.{Cryptography}
use netplex_support.Attribution.{Ledger, Report}
use netplex_support.Attribution.Pattern.{signed_blob, find_all}
use netplex_support.Attribution.Scan.{
  File, Key, Entry, read_limit, hits_in, hits, attribute_blob, key_of, same_key, put_entry, merge,
  scan_hits, scan,
}

-- A finding of that key, in a file at that path.
abbrev pub is_listing : Platform → String → Key → Entry → Bool
is_listing p path key e = same_key p e.key key && any (λ q. q == path) e.artifacts

abbrev pub lists : Platform → String → Key → List Entry → Bool
lists p path key = any (is_listing p path key)

some-inj : (a b : List Entry) → some a ≡ some b → a ≡ b
some-inj a b h = cc

module _ (p : Platform) (path : String) (key : Key) where
  put-lists :
      (report : Report) (es : List Entry)
      → same_key p key key ≡ true
      → lists p path key (put_entry p path key report es) ≡ true
  unfolding put_entry
  put-lists report [] h = ground (arith, eq_iff path path)
  put-lists report (e ∷ es) h = elim (Bool-cases (same_key p e.key key)) [
    | inl s ↦ rw s (
        ground
          (arith, any-append (λ (q : String). q == path) e.artifacts (path ∷ []), eq_iff path path))
    | inr s ↦ rw s (ground (arith, put-lists report es h))
  ]

  put-keeps :
      (path' : String) (key' : Key) (report : Report) (es : List Entry)
      → lists p path key es ≡ true
      → lists p path key (put_entry p path' key' report es) ≡ true
  unfolding put_entry
  put-keeps path' key' report [] h = cc
  put-keeps path' key' report (e ∷ es) h = elim (Bool-cases (same_key p e.key key')) [
    | inl s ↦ rw s (ground (arith, any-append (λ (q : String). q == path) e.artifacts (path' ∷ [])))
    | inr s ↦ rw s (ground (arith, put-keeps path' key' report es))
  ]

  merge-keeps :
      (path' : String) (r : Option Report) (es es' : List Entry)
      → lists p path key es ≡ true
      → merge p path' r es ≡ some es'
      → lists p path key es' ≡ true
  merge-keeps path' none es es' h m = rw (← some-inj es es' m) h
  merge-keeps path' (some r) es es' h m = elim (Bool-cases (is_hashable (key_of p r).ident)) [
    | inl e ↦ rw (← some-inj _ es' (rw e at m)) (put-keeps path' (key_of p r) r es h)
    | inr e ↦ cc (rw e at m)
  ]

  scan_hits-keeps :
      (c : Cryptography) (trust : List String) (ledger : Ledger) (hs : List (String × Bytes))
      (es es' : List Entry)
      → lists p path key es ≡ true
      → scan_hits p c trust ledger hs es ≡ some es'
      → lists p path key es' ≡ true
  unfolding scan_hits
  scan_hits-keeps c trust ledger [] es es' h m = rw (← some-inj es es' m) h
  scan_hits-keeps c trust ledger ((path', blob) ∷ hs) es es' h m =
      let found = attribute_blob p c trust ledger blob in
      elim (Option-cases (merge p path' found es)) [
        | inl e ↦ cc (rw e at m)
        | inr (next, e) ↦
            scan_hits-keeps c trust ledger hs next es' (merge-keeps path' found es next h e)
              (rw e at m)
      ]

-- A match that is attributed, and whose key can be hashed, is listed.
scan_hits-lists :
    (p : Platform) (c : Cryptography) (trust : List String) (ledger : Ledger) (path : String)
    (blob : Bytes) (r : Report) (xs ys : List (String × Bytes)) (es es' : List Entry)
    → attribute_blob p c trust ledger blob ≡ some r
    → is_hashable (key_of p r).ident ≡ true
    → same_key p (key_of p r) (key_of p r) ≡ true
    → scan_hits p c trust ledger (xs ++ (path, blob) ∷ ys) es ≡ some es'
    → lists p path (key_of p r) es' ≡ true
unfolding scan_hits
scan_hits-lists p c trust ledger path blob r [] ys es es' a h s m =
    let key = key_of p r in
    scan_hits-keeps p path key c trust ledger ys (put_entry p path key r es) es'
      (put-lists p path key r es s) (rw (a, h) at m)
scan_hits-lists p c trust ledger path blob r ((path', b) ∷ xs) ys es es' a h s m =
    elim (Option-cases (merge p path' (attribute_blob p c trust ledger b) es)) [
      | inl e ↦ cc (rw e at m)
      | inr (next, e) ↦
          scan_hits-lists p c trust ledger path blob r xs ys next es' a h s (rw e at m)
    ]

hits-append : (fs gs : List File) → hits (fs ++ gs) ≡ hits fs ++ hits gs
unfolding hits
hits-append [] gs = refl
hits-append (f ∷ fs) gs =
    ap (λ hs. hits_in f ++ hs) (hits-append fs gs)
    ∙ sym (append_assoc (hits_in f) (hits fs) (hits gs))

take_long : (n : ℕ) (xs : Bytes) → length xs ≤ n → take n xs ≡ xs
take_long zero [] h = refl
take_long zero (x ∷ xs) h = absurd (omega arith)
take_long (suc n) [] h = refl
take_long (suc n) (x ∷ xs) h = ap (λ ys. x ∷ ys) (take_long n xs (omega arith))

hits_in-whole :
    (path : String) (blob : Bytes)
    → length blob ≤ read_limit
    → find_all signed_blob blob ≡ blob ∷ []
    → hits_in (path, some blob) ≡ (path, blob) ∷ []
unfolding hits_in
hits_in-whole path blob short whole =
    ap (λ b. map (λ m. (path, m)) (find_all signed_blob b)) (take_long read_limit blob short)
    ∙ ap (map (λ m. (path, m))) whole

-- A scan that ends lists what a file of one match traces to, wherever in the tree the file stands.
pub scan-lists :
    (p : Platform) (c : Cryptography) (trust : List String) (ledger : Ledger) (fs gs : List File)
    (path : String) (blob : Bytes) (r : Report) (es : List Entry)
    → length blob ≤ read_limit
    → find_all signed_blob blob ≡ blob ∷ []
    → attribute_blob p c trust ledger blob ≡ some r
    → is_hashable (key_of p r).ident ≡ true
    → same_key p (key_of p r) (key_of p r) ≡ true
    → scan p c trust ledger (fs ++ (path, some blob) ∷ gs) ≡ some es
    → lists p path (key_of p r) es ≡ true
unfolding scan
scan-lists p c trust ledger fs gs path blob r es short whole a h s m =
    let split : hits (fs ++ (path, some blob) ∷ gs) ≡ hits fs ++ (path, blob) ∷ hits gs =
      hits-append fs ((path, some blob) ∷ gs)
      ∙ ap (λ hs. hits fs ++ (hs ++ hits gs)) (hits_in-whole path blob short whole) in
    scan_hits-lists p c trust ledger path blob r (hits fs) (hits gs) [] es a h s
      (sym (ap (λ hs. scan_hits p c trust ledger hs []) split) ∙ m)

hits_in-unseen :
    (path : String) (blob : Bytes)
    → length blob ≤ read_limit
    → find_all signed_blob blob ≡ []
    → hits_in (path, some blob) ≡ []
unfolding hits_in
hits_in-unseen path blob short unseen =
    ap (λ b. map (λ m. (path, m)) (find_all signed_blob b)) (take_long read_limit blob short)
    ∙ ap (map (λ m. (path, m))) unseen

-- A file without a match changes no scan.
pub scan-unseen :
    (p : Platform) (c : Cryptography) (trust : List String) (ledger : Ledger) (fs gs : List File)
    (path : String) (blob : Bytes)
    → length blob ≤ read_limit
    → find_all signed_blob blob ≡ []
    → scan p c trust ledger (fs ++ (path, some blob) ∷ gs) ≡ scan p c trust ledger (fs ++ gs)
unfolding scan
scan-unseen p c trust ledger fs gs path blob short unseen =
    let same : hits (fs ++ (path, some blob) ∷ gs) ≡ hits (fs ++ gs) =
      hits-append fs ((path, some blob) ∷ gs)
      ∙ ap (λ hs. hits fs ++ (hs ++ hits gs)) (hits_in-unseen path blob short unseen)
      ∙ sym (hits-append fs gs) in
    ap (λ hs. scan_hits p c trust ledger hs []) same
