-- ===== src/Node/Shown.antt =====
-- The texts of nodes as a relation, with the comparison of precedences in RenderWithContext and
-- AppendPart of src/impl/node.cpp as a rule of its own.
use iron_query.Prelude.{
  ℕ, ◌≤◌, ◌<◌, Text, ◌≡◌, ◌⊎◌, true, false, Bool-cases, inl, inr, [], ◌∷◌, ◌++◌, arith,
}
use iron_query.Precedence.{OperatorPrecedence, rank}
use iron_query.Node.{Node, node, text, child, Parts, nil, cons, precedence, needs_parens, render}
use iron_query.Node.Render.{parts_text, render-parts_text}

-- A child that binds more tightly than its context stands as it is, and each other in parentheses. The
-- greater the rank, the looser an operator binds.
mutual
  pub data Shown : Node → Text → Type 0 where
    shown :
        {p : OperatorPrecedence} {parts : Parts} {size : ℕ} {s : Text}
        → ShownParts parts s
        → Shown (node p parts size) s

  pub data ShownParts : Parts → Text → Type 0 where
    no_parts : ShownParts nil []
    text_part :
        {t s : Text} {parts : Parts}
        → ShownParts parts s
        → ShownParts (cons (text t) parts) (t ++ s)
    bare :
        {n : Node} {context : OperatorPrecedence} {t s : Text} {parts : Parts}
        → rank (precedence n) < rank context
        → Shown n t
        → ShownParts parts s
        → ShownParts (cons (child n context) parts) (t ++ s)
    wrapped :
        {n : Node} {context : OperatorPrecedence} {t s : Text} {parts : Parts}
        → rank context ≤ rank (precedence n)
        → Shown n t
        → ShownParts parts s
        → ShownParts (cons (child n context) parts) ((b'(' ∷ (t ++ b')' ∷ [])) ++ s)

needs_parens-cases :
    (own context : OperatorPrecedence)
    → ((rank own < rank context) × (needs_parens own context ≡ false))
      ⊎ ((rank context ≤ rank own) × (needs_parens own context ≡ true))
unfolding needs_parens
needs_parens-cases own context = elim (Bool-cases (needs_parens own context)) [
  | inl loose ↦ inr (ground (arith, loose), loose)
  | inr tight ↦ inl (ground (arith, tight), tight)
]

mutual
  Shown-render : (n : Node) → Shown n (render n)
  Shown-render (node p parts size) =
      rw (render-parts_text (node p parts size) p).0 (shown (ShownParts-parts_text parts))

  ShownParts-parts_text : (parts : Parts) → ShownParts parts (parts_text parts)
  ShownParts-parts_text nil = no_parts
  ShownParts-parts_text (cons (text t) parts) = text_part (ShownParts-parts_text parts)
  ShownParts-parts_text (cons (child n context) parts) =
      elim (needs_parens-cases (precedence n) context) [
        | inl (less, tight) ↦ rw tight (bare less (Shown-render n) (ShownParts-parts_text parts))
        | inr (most, loose) ↦ rw loose (wrapped most (Shown-render n) (ShownParts-parts_text parts))
      ]
