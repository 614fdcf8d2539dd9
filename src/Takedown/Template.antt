-- ===== src/Takedown/Template.antt =====
-- The loop of tools/dmca_packet.py that fills a template, and templates as the texts and the fields
-- that they are made of.
pub mod Filled
use Prim.Native.String
use netplex_support.Prelude.{
  ℕ, String, Bool, true, false, List, [], ◌∷◌, ◌==◌, ◌≡◌, All, if◌then◌else◌,
}
use netplex_support.Prelude.Text.Replace.{replace_from, lacks}

infixr 66 ◌⧺◌
abbrev ◌⧺◌ : String → String → String
s ⧺ t = String.◌++◌ s t

-- notice.replace("{{" + k + "}}", v) for every field
unfoldable pub fill : List (String × String) → String → String
unfolding replace_from
fill [] notice = notice
fill ((k, v) ∷ fs) notice = fill fs (replace_from "{" ("{" ⧺ k ⧺ "}}") v 0 notice)

-- What a template is made of, and its text.
pub data Piece : Type 0 where
  prose : String → Piece
  field : String → Piece

abbrev pub piece_text : Piece → String
piece_text (prose t) = t
piece_text (field k) = "{{" ⧺ k ⧺ "}}"

abbrev pub template_text : List Piece → String
template_text [] = ""
template_text (x ∷ ps) = piece_text x ⧺ template_text ps

-- No text has an opening brace, and no name a brace.
abbrev pub IsPlainPiece : Piece → Type 0
IsPlainPiece (prose t) = lacks b'{' t ≡ true
IsPlainPiece (field k) = (lacks b'{' k ≡ true) × (lacks b'}' k ≡ true)

-- What a field is filled with: the first value of its name, or nothing is done.
abbrev pub value_of : List (String × String) → String → String
value_of [] k = piece_text (field k)
value_of ((j, v) ∷ fs) k = if k == j then v else value_of fs k

abbrev pub filled_piece : List (String × String) → Piece → String
filled_piece fs (prose t) = t
filled_piece fs (field k) = value_of fs k

-- The template with its fields filled at once.
abbrev pub filled : List (String × String) → List Piece → String
filled fs [] = ""
filled fs (x ∷ ps) = filled_piece fs x ⧺ filled fs ps
