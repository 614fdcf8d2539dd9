-- ===== src/Json/Dump/Brackets.antt =====
-- Where the last of several texts between brackets stands.
use text.Mathlib.TextLemmas.{append_assoc, nil-append}
use netplex_support.Prelude.{ℕ, suc, String, List, [], ◌∷◌, ◌++◌, ◌≡◌, sym, ap, ◌∙◌}
use netplex_support.Json.Dump.{Style, ◌⧺◌, join, newline, bracketed}

-- Texts, each with a separator behind it.
abbrev pub each_with : String → List String → String
each_with sep [] = ""
each_with sep (v ∷ vs) = v ⧺ (sep ⧺ each_with sep vs)

-- What separates the texts at a level.
abbrev pub between : Style → ℕ → String
between st level = st.item_sep ⧺ newline st.indent (suc level)

join-last :
    (sep last : String) (vs : List String) → join sep (vs ++ last ∷ []) ≡ each_with sep vs ⧺ last
unfolding join
join-last sep last [] = sym (nil-append last)
join-last sep last (v ∷ []) =
    ap (λ s. v ⧺ (sep ⧺ s)) (sym (nil-append last))
    ∙ sym (append_assoc v _ last ∙ ap (λ s. v ⧺ s) (append_assoc sep "" last))
join-last sep last (v ∷ w ∷ vs) =
    ap (λ s. v ⧺ (sep ⧺ s)) (join-last sep last (w ∷ vs))
    ∙ sym (append_assoc v _ last ∙ ap (λ s. v ⧺ s) (append_assoc sep _ last))

pub bracketed-last :
    (st : Style) (level : ℕ) (opening closing last : String) (vs : List String)
    → bracketed st level opening closing (vs ++ last ∷ [])
      ≡ opening
        ⧺ newline st.indent (suc level)
        ⧺ each_with (between st level) vs
        ⧺ last
        ⧺ newline st.indent level
        ⧺ closing
unfolding bracketed
bracketed-last st level opening closing last [] =
    ap (λ s. opening ⧺ newline st.indent (suc level) ⧺ s) (sym (nil-append _))
bracketed-last st level opening closing last (v ∷ vs) =
    let tail = newline st.indent level ⧺ closing in
    ap (λ s. opening ⧺ newline st.indent (suc level) ⧺ s)
      (ap (λ s. s ⧺ tail) (join-last (between st level) last (v ∷ vs))
        ∙ append_assoc (each_with (between st level) (v ∷ vs)) last tail)
