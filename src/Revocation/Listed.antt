-- ===== src/Revocation/Listed.antt =====
-- What a revocation list names.
use Prim.Native.Nat.{Ordering}
use Prim.Native.String.{compare}
use netplex_support.Prelude.{
  ℕ, String, Bool, true, ◌&&◌, ◌||◌, not, map, keep, any-append, Bool-cases, if◌then◌else◌, Option,
  none, some, sym, List, [], ◌∷◌, ◌≡◌, ◌≢◌, inl, inr, refl, ap, any, arith, eq_iff, ◌==◌, ◌∙◌,
}
use netplex_support.Prelude.Text.{strip, non_empty}
use netplex_support.Prelude.Text.Replace.{starts_with}
use mathlib.Core.Option.{get_or}
use netplex_support.Prelude.Text.Order.{Ordering-cases, compare_flip}
use netplex_support.Json.{str, int, arr, Dict}
use netplex_support.Prelude.Int.{ℤ, pos}
use netplex_support.Base64.{Bytes, b64decode}
use netplex_support.Signing.{canonical_bytes, key_id_for, signature_block}
use netplex_support.Platform.{Platform}
use netplex_support.Cryptography.{Cryptography, IsEd25519}
use netplex_support.Tool.{done, require, or_raise, bind-done, require-done, or_raise-done, done-inj}
use netplex_support.Revocation.{
  Options, starts_hash, is_entry, from_file, given, insert_text, sorted_set, items_of, is_given,
  unsigned, mint_crl,
}

-- Each text is below the next.
abbrev pub IsAscending : List String → Type 0
IsAscending [] = Unit
IsAscending (s ∷ []) = Unit
IsAscending (s ∷ t ∷ ts) = (compare s t ≡ Ordering.lt) × IsAscending (t ∷ ts)

insert_above :
    (r s : String) (ts : List String)
    → compare r s ≡ Ordering.lt
    → IsAscending (r ∷ ts)
    → IsAscending (insert_text s ts)
    → IsAscending (r ∷ insert_text s ts)
unfolding insert_text
insert_above r s [] below up step = (below, step)
insert_above r s (t ∷ ts) below up step = elim (Ordering-cases (compare s t)) [
  | inl e ↦ rw e (below, rw e at step)
  | inr (inl e) ↦ rw e up
  | inr (inr e) ↦ rw e (up.0, rw e at step)
]

tail-IsAscending : (s : String) (ts : List String) → IsAscending (s ∷ ts) → IsAscending ts
tail-IsAscending s [] h = tt
tail-IsAscending s (t ∷ ts) h = h.1

insert_text-IsAscending :
    (s : String) (ts : List String) → IsAscending ts → IsAscending (insert_text s ts)
unfolding insert_text
insert_text-IsAscending s [] h = tt
insert_text-IsAscending s (t ∷ ts) h = elim (Ordering-cases (compare s t)) [
  | inl e ↦ rw e (e, h)
  | inr (inl e) ↦ rw e h
  | inr (inr e) ↦ rw e (
      insert_above t s ts (compare_flip s t e) h
        (insert_text-IsAscending s ts (tail-IsAscending t ts h)))
]

sorted_set-IsAscending : (ss : List String) → IsAscending (sorted_set ss)
unfolding sorted_set
sorted_set-IsAscending [] = tt
sorted_set-IsAscending (s ∷ ss) =
    insert_text-IsAscending s (sorted_set ss) (sorted_set-IsAscending ss)

abbrev pub holds : String → List String → Bool
holds x ts = any (λ t. t == x) ts

or_twice : (a b : Bool) → (a || b) ≡ (a || (a || b))
or_twice a b = ground arith

or_swap : (a b c : Bool) → (a || (b || c)) ≡ (b || (a || c))
or_swap a b c = ground arith

holds-insert_text :
    (x s : String) (ts : List String) → holds x (insert_text s ts) ≡ (s == x || holds x ts)
unfolding insert_text
holds-insert_text x s [] = refl
holds-insert_text x s (t ∷ ts) = elim (Ordering-cases (compare s t)) [
  | inl e ↦ rw e
  | inr (inl e) ↦
      let same : s ≡ t = (eq_iff s t).0 (rw e refl) in
      rw e (rw same (or_twice (t == x) (holds x ts)))
  | inr (inr e) ↦ rw (e, holds-insert_text x s ts) (or_swap (t == x) (s == x) (holds x ts))
]

holds-sorted_set : (x : String) (ss : List String) → holds x (sorted_set ss) ≡ holds x ss
unfolding sorted_set
holds-sorted_set x [] = refl
holds-sorted_set x (s ∷ ss) =
    holds-insert_text x s (sorted_set ss) ∙ ap (λ b. s == x || b) (holds-sorted_set x ss)

-- The refusal of a list with nothing on it.
some_given : (ss : List String) → is_given ss ≡ true → ss ≢ []
some_given [] h = cc
some_given (s ∷ ss) h = λ e. cc

-- A line of the file that names a license: what is left of it without the blanks at its ends, where
-- that is something and the line does not begin with "#".
abbrev pub line_names : String → String → Bool
line_names x line = non_empty x && (strip line == x && not (starts_with line "#"))

-- The licenses that the options name: each --revoke, and each line of the file that names one.
abbrev pub is_named : Options → String → Bool
is_named o x = any (λ t. t == x) o.revoke || any (line_names x) (get_or o.revoke_file [])

hash_lem : (line : String) → starts_hash line ≡ starts_with line "#"
unfolding starts_with
hash_lem String.[] = refl
hash_lem (String.◌∷◌ c s) = ground arith

line_lem :
    (x line : String) (rest : List String)
    → holds x (if is_entry line then strip line ∷ rest else rest)
      ≡ (line_names x line || holds x rest)
line_lem x line rest = elim (Bool-cases (strip line == x)) [
  | inl e ↦
      let same = (eq_iff (strip line) x).0 e in
      rw same (rw (hash_lem line) (ground (arith, eq_iff x x)))
  | inr e ↦ rw e (rw (hash_lem line) (ground (arith, e)))
]

holds-from_lines :
    (x : String) (lines : List String)
    → holds x (map strip (keep is_entry lines)) ≡ any (line_names x) lines
holds-from_lines x [] = refl
holds-from_lines x (line ∷ lines) = elim (Bool-cases (is_entry line)) [
  | inl e ↦
      let first = line_lem x line (map strip (keep is_entry lines)) in
      rw e ((rw e at first) ∙ ap (λ b. line_names x line || b) (holds-from_lines x lines))
  | inr e ↦
      let first = line_lem x line (map strip (keep is_entry lines)) in
      rw e ((rw e at first) ∙ ap (λ b. line_names x line || b) (holds-from_lines x lines))
]

holds-from_file :
    (x : String) (file : Option (List String))
    → holds x (from_file file) ≡ any (line_names x) (get_or file [])
holds-from_file x none = refl
holds-from_file x (some lines) = holds-from_lines x lines

holds-given : (o : Options) (x : String) → holds x (given o) ≡ is_named o x
unfolding given
holds-given o x =
    any-append (λ t. t == x) o.revoke (from_file o.revoke_file)
    ∙ ap (λ b. holds x o.revoke || b) (holds-from_file x o.revoke_file)

-- What a run of the tool reads, and what it signs.
pub record IsCrl (p : Platform) (c : Cryptography) (o : Options) (time : ℕ) (crl : Dict)
    : Type 0 where
  pub seed : Bytes
  pub key : Bytes
  pub sig : Bytes
  pub revoked : List String
  pub has_seed : b64decode (strip o.key) ≡ some seed
  pub has_key : c.public_key seed ≡ some key
  pub names : (x : String) → holds x revoked ≡ is_named o x
  pub ascending : IsAscending revoked
  pub not_empty : revoked ≢ []
  pub crl_eq :
      crl
      ≡ ("type", str "crl")
        ∷ ("revoked", arr (items_of revoked))
        ∷ ("issued_at", int (get_or o.now (pos time)))
        ∷ ("signature", signature_block (key_id_for p key) sig)
        ∷ []
  pub genuine : c.verifies key sig (canonical_bytes p crl) ≡ true

now_lem : (now : Option ℤ) (t : ℤ) → (elim now [ none ↦ t | some n ↦ n ]) ≡ get_or now t
now_lem none t = refl
now_lem (some n) t = refl

-- Where ed25519 verifies what it signs, a revocation list that is minted names exactly the licenses of
-- the options: each --revoke, and each line of the file that is not blank and does not begin with "#",
-- without the blanks at its ends. They are listed in strictly ascending order, and there is one at
-- least. The list says that it is a "crl", has the time that is given or else the clock's, and its
-- signature, which names the key, verifies under the public key of the seed in the key's file.
pub mint_crl-lists :
    (p : Platform) (c : Cryptography) (o : Options) (time : ℕ) (crl : Dict)
    → IsEd25519 c
    → mint_crl p c o time ≡ done crl
    → IsCrl p c o time crl
unfolding mint_crl canonical_bytes
mint_crl-lists p c o time crl laws h =
    let revoked = sorted_set (given o) in
    let (u, listed, h1) = bind-done (require (is_given revoked) _) _ crl h in
    let (seed, e2, h2) = bind-done (or_raise (b64decode (strip o.key))) _ crl h1 in
    let (key, e3, h3) = bind-done (or_raise (c.public_key seed)) _ crl h2 in
    let same = done-inj _ crl h3 in
    let message = canonical_bytes p (unsigned o time revoked) in
    record {
      seed = seed;
      key = key;
      sig = c.sign seed message;
      revoked = revoked;
      has_seed = or_raise-done _ seed e2;
      has_key = or_raise-done _ key e3;
      names = λ x. holds-sorted_set x (given o) ∙ holds-given o x;
      ascending = sorted_set-IsAscending (given o);
      not_empty = some_given revoked (require-done _ _ _ listed);
      crl_eq =
          sym same
          ∙ ap
              (λ n.
                ("type", str "crl")
                ∷ ("revoked", arr (items_of revoked))
                ∷ ("issued_at", int n)
                ∷ ("signature", signature_block (key_id_for p key) (c.sign seed message))
                ∷ [])
              (now_lem o.now (pos time));
      genuine = rw (← same) (laws.verifies_sign seed key message (or_raise-done _ key e3));
    }
