-- ===== src/Stamping/Recorded.antt =====
-- The ledger of downloads, which stamp_download.py appends to and attribute_leak.py reads.
use netplex_support.Prelude.{
  String, Bool, true, false, some, List, [], ◌∷◌, ◌++◌, ◌≡◌, ◌⊎◌, inl, inr, refl, sym, ap, ◌∙◌, All,
  Bool-cases, eq_iff,
}
use netplex_support.Json.{Value, null, str, obj, Dict, of_dict, to_dict-of_dict, get_default}
use netplex_support.Platform.{Platform, truth}
use netplex_support.Cryptography.{Cryptography}
use netplex_support.Signing.Reorder.{Reordered, lookup-Reordered}
use netplex_support.Tool.{done, or_raise, bind-done, done-inj}
use netplex_support.Attribution.Rows.{Line, skipped, stops, row, read_line}
use netplex_support.Attribution.{
  Ledger, find_row, put_row, same_value, load_ledger, ledger_customer,
}
use netplex_support.Stamping.{Download, Stamped, id_of, ledger_row, stamp, sign, stamp_artifact}
use netplex_support.Stamping.Traced.{id_given}

same_refl : (p : Platform) (s : String) → same_value p (str s) (str s) ≡ true
unfolding same_value
same_refl p s = (eq_iff s s).1 refl

-- A row is found under the key that it was put under.
find-put :
    (p : Platform) (s : String) (r : Dict) (ledger : Ledger)
    → find_row p (str s) (put_row p (str s) r ledger) ≡ some r
unfolding find_row put_row
find-put p s r [] = rw (same_refl p s) refl
find-put p s r ((k, q) ∷ ledger) = elim (Bool-cases (same_value p k (str s))) [
  | inl e ↦ rw e (rw e refl)
  | inr e ↦ rw e (rw e (find-put p s r ledger))
]

-- A line does not end the reading of the ledger.
abbrev pub goes_on : Line → Bool
goes_on stops = false
goes_on _ = true

Line-cases :
    (l : Line) → (l ≡ skipped) ⊎ ((l ≡ stops) ⊎ ((id : Value) × (q : Dict) × (l ≡ row id q)))
Line-cases skipped = inl refl
Line-cases stops = inr (inl refl)
Line-cases (row id q) = inr (inr (id, q, refl))

-- What is read behind a line.
abbrev behind : Platform → List String → Ledger → Line → Ledger
behind p lines out l = elim l [
  | skipped ↦ load_ledger p lines out
  | stops ↦ out
  | row id r ↦ load_ledger p lines (put_row p id r out)
]

load-behind :
    (p : Platform) (line : String) (lines : List String) (out : Ledger) (l : Line)
    → read_line p (p.loads line) ≡ l
    → load_ledger p (line ∷ lines) out ≡ behind p lines out l
unfolding load_ledger
load-behind p line lines out l e = ap (behind p lines out) e

load-last :
    (p : Platform) (lines : List String) (line s : String) (r : Dict) (out : Ledger)
    → All (λ l. goes_on (read_line p (p.loads l)) ≡ true) lines
    → read_line p (p.loads line) ≡ row (str s) r
    → find_row p (str s) (load_ledger p (lines ++ line ∷ []) out) ≡ some r
unfolding load_ledger
load-last p [] line s r out h e =
    ap (find_row p (str s)) (load-behind p line [] out (row (str s) r) e) ∙ find-put p s r out
load-last p (l ∷ lines) line s r out (h, hs) e = elim (Line-cases (read_line p (p.loads l))) [
  | inl f ↦
      ap (find_row p (str s)) (load-behind p l (lines ++ line ∷ []) out skipped f)
      ∙ load-last p lines line s r out hs e
  | inr (inl f) ↦ let no = sym (ap goes_on f) ∙ h in cc
  | inr (inr (id, q, f)) ↦
      ap (find_row p (str s)) (load-behind p l (lines ++ line ∷ []) out (row id q) f)
      ∙ load-last p lines line s r (put_row p id q out) hs e
]

get-Reordered :
    (m q : Dict) (key : String) → Reordered m q → get_default q key null ≡ get_default m key null
get-Reordered m q key r = rw (lookup-Reordered key m q r) refl

reads_row :
    (p : Platform) (d : Download) (hex issued line : String) (q : Dict)
    → Reordered (ledger_row d hex issued) q
    → p.loads line ≡ some (obj (of_dict q))
    → read_line p (p.loads line) ≡ row (str (id_of d hex)) q
unfolding truth
reads_row p d hex issued line q order reads =
    rw (reads, to_dict-of_dict q, get-Reordered (ledger_row d hex issued) q "download_id" order)
      (rw (id_given d hex) refl)

-- What `stamp_artifact` appends to the ledger names the customer of the download: where json.loads
-- reads the appended line as the row that was written, but for the order of its members, and no
-- earlier line of the ledger is JSON of a kind that ends the reading, `_load_ledger` of the ledger
-- with that line at its end resolves the download id to the customer, whether the stamp carries the
-- customer or not.
pub stamp_artifact-recorded :
    (p : Platform) (c : Cryptography) (d : Download) (hex issued : String) (r : Stamped)
    (line : String) (q : Dict) (lines : List String)
    → stamp_artifact p c true d hex issued ≡ done r
    → r.ledger ≡ some line
    → p.loads line ≡ some (obj (of_dict q))
    → Reordered (ledger_row d hex issued) q
    → All (λ l. goes_on (read_line p (p.loads l)) ≡ true) lines
    → ledger_customer p (load_ledger p (lines ++ line ∷ []) []) (str r.download_id) ≡ str d.customer
unfolding stamp_artifact
stamp_artifact-recorded p c d hex issued r line q lines made has reads order h =
    let (signed, e, last) =
      bind-done (or_raise (sign p c (stamp d hex issued) d.key_seed)) _ r made in
    let id : id_of d hex ≡ r.download_id =
      ap (λ (s : Stamped). s.download_id) (done-inj _ r last) in
    rw (← id) (
      rw (load-last p lines line (id_of d hex) q [] h (reads_row p d hex issued line q order reads))
        (get-Reordered (ledger_row d hex issued) q "customer_ref" order))
