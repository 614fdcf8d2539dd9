-- ===== src/Takedown/Template/Filled.antt =====
-- Filling a template field by field fills all of its fields at once.
use Prim.Native.String
use text.Mathlib.TextLemmas.{append_assoc, nil-append, cons-append}
use netplex_support.Prelude.{
  String, true, false, not, nat_eq, arith, ◌≢◌, List, [], ◌∷◌, map, ◌==◌, eq_iff, ◌≡◌, inl, inr,
  refl, sym, ap, ◌∙◌, All, Bool-cases, if◌then◌else◌,
}
use netplex_support.Prelude.Text.{all_chars}
use netplex_support.Prelude.Text.Utf8.Append.{all_chars-append}
use netplex_support.Prelude.Text.Replace.{
  replace_from, starts_with, lacks, starts_with-eq, replace-lacks, replace-here, replace-other,
}
use netplex_support.Takedown.Template.{
  fill, Piece, prose, field, template_text, IsPlainPiece, value_of, filled,
}

infixr 66 ◌⧺◌
abbrev ◌⧺◌ : String → String → String
s ⧺ t = String.◌++◌ s t

-- One field is filled.
abbrev put : String → String → Piece → Piece
put j v (prose t) = prose t
put j v (field k) = if k == j then prose v else field k

closed : (s : String) → "}}" ⧺ s ≡ String.◌∷◌ "}" (String.◌∷◌ "}" s)
closed s =
    cons-append "}" "}" s
    ∙ ap (String.◌∷◌ "}") (cons-append "}" "" s ∙ ap (String.◌∷◌ "}") (nil-append s))

opened : (s : String) → "{" ⧺ s ≡ String.◌∷◌ "{" s
opened s = cons-append "{" "" s ∙ ap (String.◌∷◌ "{") (nil-append s)

field_lem :
    (k s : String)
    → ("{{" ⧺ k ⧺ "}}") ⧺ s
      ≡ String.◌∷◌ "{" (String.◌∷◌ "{" (k ⧺ String.◌∷◌ "}" (String.◌∷◌ "}" s)))
field_lem k s =
    append_assoc "{{" (k ⧺ "}}") s
    ∙ cons-append "{" "{" ((k ⧺ "}}") ⧺ s)
    ∙ ap (String.◌∷◌ "{") (
        opened ((k ⧺ "}}") ⧺ s)
        ∙ ap (String.◌∷◌ "{") (append_assoc k "}}" s ∙ ap (λ t. k ⧺ t) (closed s)))

module _ (j v : String) (h : lacks b'}' j ≡ true) where
  abbrev replaced : String → String
  replaced = replace_from "{" ("{" ⧺ j ⧺ "}}") v 0

  found : (s : String) → replaced (("{{" ⧺ j ⧺ "}}") ⧺ s) ≡ v ⧺ replaced s
  found s =
      ap replaced (
        append_assoc "{{" (j ⧺ "}}") s
        ∙ cons-append "{" "{" ((j ⧺ "}}") ⧺ s)
        ∙ ap (String.◌∷◌ "{") (sym (append_assoc "{" (j ⧺ "}}") s)))
      ∙ replace-here "{" ("{" ⧺ j ⧺ "}}") v s

  no_inner :
      (k s : String)
      → lacks b'{' k ≡ true
      → starts_with (String.◌∷◌ "{" (k ⧺ String.◌∷◌ "}" s)) (String.◌∷◌ "{" ("{" ⧺ j ⧺ "}}"))
        ≡ false
  unfolding starts_with all_chars
  no_inner String.[] s m = rw (opened (j ⧺ "}}"), nil-append) refl
  no_inner (String.◌∷◌ c k) s m = rw (opened (j ⧺ "}}"), cons-append) (ground (arith, m))

  no_outer :
      (k s : String)
      → lacks b'}' k ≡ true
      → k ≢ j
      → starts_with
          (String.◌∷◌ "{" (String.◌∷◌ "{" (k ⧺ String.◌∷◌ "}" s)))
          (String.◌∷◌ "{" ("{" ⧺ j ⧺ "}}"))
        ≡ false
  unfolding starts_with
  no_outer k s m other =
      rw (opened (j ⧺ "}}")) (elim (Bool-cases (starts_with (k ⧺ String.◌∷◌ "}" s) (j ⧺ "}}"))) [
        | inl e ↦ absurd (other (starts_with-eq k j "}" s "}" m h e))
        | inr e ↦ e
      ])

  kept :
      (k s : String)
      → (lacks b'{' k ≡ true) × (lacks b'}' k ≡ true)
      → k ≢ j
      → replaced (("{{" ⧺ k ⧺ "}}") ⧺ s) ≡ ("{{" ⧺ k ⧺ "}}") ⧺ replaced s
  unfolding all_chars
  kept k s (no_open, no_close) other =
      let behind = String.◌∷◌ "}" (String.◌∷◌ "}" s) in
      let plain : lacks b'{' (k ⧺ "}}") ≡ true =
        all_chars-append (λ c. not (nat_eq c b'{')) k "}}" ∙ rw no_open refl in
      let inside : k ⧺ behind ≡ (k ⧺ "}}") ⧺ s =
        sym (append_assoc k "}}" s ∙ ap (λ t. k ⧺ t) (closed s)) in
      let back : k ⧺ String.◌∷◌ "}" (String.◌∷◌ "}" (replaced s)) ≡ (k ⧺ "}}") ⧺ replaced s =
        sym (append_assoc k "}}" (replaced s) ∙ ap (λ t. k ⧺ t) (closed (replaced s))) in
      ap replaced (field_lem k s)
      ∙ replace-other "{" ("{" ⧺ j ⧺ "}}") v "{" (String.◌∷◌ "{" (k ⧺ behind))
          (no_outer k (String.◌∷◌ "}" s) no_close other)
      ∙ ap (String.◌∷◌ "{") (
          replace-other "{" ("{" ⧺ j ⧺ "}}") v "{" (k ⧺ behind)
            (no_inner k (String.◌∷◌ "}" s) no_open)
          ∙ ap (String.◌∷◌ "{") (
              ap replaced inside
              ∙ replace-lacks "{" ("{" ⧺ j ⧺ "}}") v (k ⧺ "}}") s plain
              ∙ sym back))
      ∙ sym (field_lem k (replaced s))

  step :
      (ps : List Piece)
      → All IsPlainPiece ps
      → replaced (template_text ps) ≡ template_text (map (put j v) ps)
  unfolding replace_from
  step [] m = refl
  step (prose t ∷ ps) (m, ms) =
      replace-lacks "{" ("{" ⧺ j ⧺ "}}") v t (template_text ps) m ∙ ap (λ s. t ⧺ s) (step ps ms)
  step (field k ∷ ps) (m, ms) = elim (Bool-cases (k == j)) [
    | inl e ↦
        let same : k ≡ j = (eq_iff k j).0 e in
        rw e (
          ap (λ n. replaced (("{{" ⧺ n ⧺ "}}") ⧺ template_text ps)) same
          ∙ found (template_text ps)
          ∙ ap (λ s. v ⧺ s) (step ps ms))
    | inr e ↦ rw e (
        kept k (template_text ps) m (λ same. let clash = (eq_iff k j).1 same in cc)
        ∙ ap (λ s. ("{{" ⧺ k ⧺ "}}") ⧺ s) (step ps ms))
  ]

put-plain :
    (j v : String) (ps : List Piece)
    → lacks b'{' v ≡ true
    → All IsPlainPiece ps
    → All IsPlainPiece (map (put j v) ps)
put-plain j v [] h m = tt
put-plain j v (prose t ∷ ps) h (m, ms) = (m, put-plain j v ps h ms)
put-plain j v (field k ∷ ps) h (m, ms) = elim (Bool-cases (k == j)) [
  | inl e ↦ rw e (h, put-plain j v ps h ms)
  | inr e ↦ rw e (m, put-plain j v ps h ms)
]

filled-put :
    (j v : String) (fs : List (String × String)) (ps : List Piece)
    → filled fs (map (put j v) ps) ≡ filled ((j, v) ∷ fs) ps
filled-put j v fs [] = refl
filled-put j v fs (prose t ∷ ps) = ap (λ s. t ⧺ s) (filled-put j v fs ps)
filled-put j v fs (field k ∷ ps) = elim (Bool-cases (k == j)) [
  | inl e ↦ rw e (ap (λ s. v ⧺ s) (filled-put j v fs ps))
  | inr e ↦ rw e (ap (λ s. value_of fs k ⧺ s) (filled-put j v fs ps))
]

filled_none : (ps : List Piece) → template_text ps ≡ filled [] ps
filled_none [] = refl
filled_none (prose t ∷ ps) = ap (λ s. t ⧺ s) (filled_none ps)
filled_none (field k ∷ ps) = ap (λ s. ("{{" ⧺ k ⧺ "}}") ⧺ s) (filled_none ps)

-- A field's name has no closing brace, and its value no opening one.
abbrev pub IsPlainField : String × String → Type 0
IsPlainField (k, v) = (lacks b'}' k ≡ true) × (lacks b'{' v ≡ true)

-- The loop over the fields gives the template with all of its fields filled at once, where the
-- template's texts and the values have no opening brace and the names no braces.
pub fill-filled :
    (fs : List (String × String)) (ps : List Piece)
    → All IsPlainField fs
    → All IsPlainPiece ps
    → fill fs (template_text ps) ≡ filled fs ps
unfolding fill
fill-filled [] ps h m = filled_none ps
fill-filled ((j, v) ∷ fs) ps (h, hs) m =
    ap (fill fs) (step j v (h.0) ps m)
    ∙ fill-filled fs (map (put j v) ps) hs (put-plain j v ps (h.1) m)
    ∙ filled-put j v fs ps
