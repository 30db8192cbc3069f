-- ===== src/Clause/Indent.antt =====
-- IndentBlock of src/impl/render.cpp against the lines of the text.
use iron_query.Prelude.{
  ℕ, Text, split, in_front, following, intercalate, replicate, ◌==◌, ==_iff, Bool-cases, ◌≡◌, ◌≢◌,
  refl, ◌∙◌, inl, inr, List, [], ◌∷◌, ◌++◌, map, append_assoc, append-nil,
}
use iron_query.Clause.{indent_onto, indent_block}

abbrev pub newline : Text
newline = b'\n' ∷ []

abbrev pub indented : Text → Text → Text
indented prefix line = prefix ++ line

-- The first line goes on from what is written.
lines_onto : Text → List Text → Text
lines_onto prefix [] = []
lines_onto prefix (line ∷ lines) = line ++ following newline (map (indented prefix) lines)

lines_onto-in_front :
    (prefix : Text) (c : ℕ) (lines : List Text)
    → lines_onto prefix (in_front c lines) ≡ c ∷ lines_onto prefix lines
unfolding lines_onto
lines_onto-in_front prefix c [] = refl
lines_onto-in_front prefix c (line ∷ lines) = refl

lines_onto-next :
    (prefix : Text) (lines : List Text)
    → lines ≢ []
    → lines_onto prefix ([] ∷ lines) ≡ newline ++ (prefix ++ lines_onto prefix lines)
unfolding lines_onto
lines_onto-next prefix [] h = absurd (h refl)
lines_onto-next prefix (line ∷ lines) h = rw append_assoc

in_front-ne-nil : (c : ℕ) (lines : List Text) → in_front c lines ≢ []
in_front-ne-nil c [] = cc
in_front-ne-nil c (line ∷ lines) = cc

split-ne-nil : (sep : ℕ) (text : Text) → split sep text ≢ []
unfolding split
split-ne-nil sep [] = cc
split-ne-nil sep (c ∷ text) = elim (Bool-cases (c == sep)) [
  | inl e ↦ rw e (cc)
  | inr e ↦ rw e (in_front-ne-nil c (split sep text))
]

indent_onto-lines :
    (prefix text s : Text) → indent_onto prefix text s ≡ s ++ lines_onto prefix (split b'\n' text)
unfolding indent_onto split
indent_onto-lines prefix [] s = unfold lines_onto in rw append-nil
indent_onto-lines prefix (c ∷ text) s = elim (Bool-cases (c == b'\n')) [
  | inl e ↦
      rw (e, indent_onto-lines prefix text ((s ++ c ∷ []) ++ prefix))
        (let same : c ≡ b'\n' = (==_iff c b'\n').0 e in
          rw (same, lines_onto-next prefix (split b'\n' text) (split-ne-nil b'\n' text))
            (simp append_assoc))
  | inr e ↦
      rw
        (
          e,
          lines_onto-in_front prefix c (split b'\n' text),
          indent_onto-lines prefix text (s ++ c ∷ []),
        )
        (rw append_assoc)
]

lines_onto-map :
    (prefix : Text) (lines : List Text)
    → lines ≢ []
    → prefix ++ lines_onto prefix lines ≡ intercalate newline (map (indented prefix) lines)
unfolding lines_onto
lines_onto-map prefix [] h = absurd (h refl)
lines_onto-map prefix (line ∷ lines) h = rw append_assoc

-- IndentBlock puts the spaces in front of every line, the last one too.
pub indent_block-lines :
    (text : Text) (spaces : ℕ)
    → indent_block text spaces
      ≡ intercalate newline (map (indented (replicate spaces b' ')) (split b'\n' text))
unfolding indent_block
indent_block-lines text spaces =
    indent_onto-lines (replicate spaces b' ') text (replicate spaces b' ')
    ∙ lines_onto-map (replicate spaces b' ') (split b'\n' text) (split-ne-nil b'\n' text)
