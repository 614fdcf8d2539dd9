-- ===== src/Prelude/Text/Strip.antt =====
-- Stripping a text that was written as one line.
use Prim.Native.Char.{Char, code}
use Prim.Native.String.{String, [], ◌∷◌, ◌++◌}
use mathlib.Core.Bool.{Bool, true, false, ◌&&◌, not}
use mathlib.Core.Path.{◌≡◌, refl, sym, ap, ◌∙◌}
use text.Mathlib.TextLemmas.{nil-append, cons-append}
use native.Mathlib.Omega.{arith}
use netplex_support.Prelude.Text.{all_chars, is_space, lstrip, rstrip, strip}

-- A text without blanks.
abbrev pub has_no_space : String → Bool
has_no_space = all_chars (λ c. not (is_space c))

head_lem : (c : Char) (s : String) → has_no_space (c ∷ s) ≡ true → is_space (code c) ≡ false
unfolding all_chars
head_lem c s h = let both : (not (is_space (code c)) && has_no_space s) ≡ true = h in ground arith

tail_lem : (c : Char) (s : String) → has_no_space (c ∷ s) ≡ true → has_no_space s ≡ true
unfolding all_chars
tail_lem c s h = let both : (not (is_space (code c)) && has_no_space s) ≡ true = h in ground arith

rstrip_line : (s : String) → has_no_space s ≡ true → rstrip (s ++ "\n") ≡ s
unfolding rstrip
rstrip_line [] h = ap rstrip (nil-append "\n")
rstrip_line (c ∷ s) h =
    ap rstrip (cons-append c s "\n")
    ∙ rw (head_lem c s h) (ap (◌∷◌ c) (rstrip_line s (tail_lem c s h)))

lstrip_line : (c : Char) (s : String) → is_space (code c) ≡ false → lstrip (c ∷ s) ≡ c ∷ s
unfolding lstrip
lstrip_line c s h = rw h refl

blank_line : strip ([] ++ "\n") ≡ []
unfolding strip
blank_line = ap strip (nil-append "\n")

pub strip_line : (s : String) → has_no_space s ≡ true → strip (s ++ "\n") ≡ s
unfolding strip
strip_line [] h = blank_line
strip_line (c ∷ s) h =
    ap (λ t. rstrip (lstrip t)) (cons-append c s "\n")
    ∙ ap rstrip (lstrip_line c (s ++ "\n") (head_lem c s h))
    ∙ ap rstrip (sym (cons-append c s "\n"))
    ∙ rstrip_line (c ∷ s) h
