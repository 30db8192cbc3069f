-- ===== src/Expr/Predicates/NotExists.antt =====
-- NOT EXISTS of src/expr.cpp, written as one leaf and as a negation.
use iron_query.Prelude.{Text, lit, ◌≡◌, refl, sym, ap, ◌∙◌, [], ◌∷◌, ◌++◌, append_assoc, append-nil}
use iron_query.Exception.{ok}
use iron_query.Precedence.{symbol}
use iron_query.Precedence
use iron_query.VirtualTable.{VirtualTable}
use iron_query.Node.{precedence, render, make_leaf, make_node, needs_parens}
use iron_query.Node.Render.{bracketed, render-make_node, render-make_leaf}
use iron_query.Expr.{Expr, Condition, condition_of, condition_to_string, negate, to_expr, to_string}
use iron_query.Expr.Raw.{condition_to_string-of}
use iron_query.Expr.Call.{exists, not_exists}
use iron_query.Expr.Predicates.{is_null}

condition_to_string-is_null :
    (e : Expr)
    → condition_to_string (is_null e)
      ≡ bracketed (needs_parens (precedence e.node_) Precedence.is) (to_string e) ++ lit " IS NULL"
unfolding condition_to_string is_null to_string
condition_to_string-is_null e = render-make_node _ _ ∙ rw append-nil refl

negated-text : (s : Text) → condition_to_string (negate (condition_of s symbol)) ≡ lit "NOT " ++ s
unfolding condition_to_string negate condition_of make_leaf
negated-text s = render-make_node _ _ ∙ unfold needs_parens in rw (render-leaf s, append-nil) refl
  where
    render-leaf : (x : Text) → render (make_leaf x symbol) ≡ x
    render-leaf x = render-make_leaf x symbol

leaf-operand :
    (s : Text)
    → bracketed
        (needs_parens (precedence (to_expr (condition_of s symbol)).node_) Precedence.is)
        (to_string (to_expr (condition_of s symbol)))
      ≡ s
unfolding to_expr condition_of make_leaf needs_parens to_string condition_to_string
leaf-operand s = condition_to_string-of s symbol

negated-operand :
    (s : Text)
    → bracketed
        (needs_parens (precedence (to_expr (negate (condition_of s symbol))).node_) Precedence.is)
        (to_string (to_expr (negate (condition_of s symbol))))
      ≡ b'(' ∷ ((lit "NOT " ++ s) ++ b')' ∷ [])
unfolding to_expr negate make_node needs_parens to_string condition_to_string
negated-operand s = ap (λ x. b'(' ∷ (x ++ b')' ∷ [])) (negated-text s)

-- NOT EXISTS and the negation of EXISTS, both standing alone and under IS NULL.
not_exists-leaf :
    (v : VirtualTable) {s : Text}
    → v.to_string_bracketed ≡ ok s
    → not_exists v ≡ ok (condition_of (lit "NOT EXISTS " ++ s) symbol)
unfolding not_exists
not_exists-leaf v h = rw h refl

exists-leaf :
    (v : VirtualTable) {s : Text}
    → v.to_string_bracketed ≡ ok s
    → exists v ≡ ok (condition_of (lit "EXISTS " ++ s) symbol)
unfolding exists
exists-leaf v h = rw h refl

not_exists_words : (s : Text) → lit "NOT " ++ (lit "EXISTS " ++ s) ≡ lit "NOT EXISTS " ++ s
unfolding lit
not_exists_words s = refl

-- NotExists and the negation of Exists have the same text standing alone, but only the negation is
-- put in parentheses under IS NULL: the leaf that NotExists builds has the precedence of a symbol.
pub is_null-not_exists :
    (v : VirtualTable) (s : Text)
    → v.to_string_bracketed ≡ ok s
    → (leaf yes : Condition) × (not_exists v ≡ ok leaf)
      × (exists v ≡ ok yes)
      × (condition_to_string leaf ≡ condition_to_string (negate yes))
      × (condition_to_string (is_null (to_expr leaf)) ≡ lit "NOT EXISTS " ++ (s ++ lit " IS NULL"))
      × (condition_to_string (is_null (to_expr (negate yes)))
          ≡ b'(' ∷ (lit "NOT EXISTS " ++ (s ++ (b')' ∷ lit " IS NULL"))))
is_null-not_exists v s h =
    let text = lit "NOT EXISTS " ++ s in
    let yes = condition_of (lit "EXISTS " ++ s) symbol in
    (
      condition_of text symbol,
      yes,
      not_exists-leaf v h,
      exists-leaf v h,
      condition_to_string-of text symbol
          ∙ sym (negated-text (lit "EXISTS " ++ s) ∙ not_exists_words s),
      condition_to_string-is_null (to_expr (condition_of text symbol))
          ∙ rw (leaf-operand text) (append_assoc (lit "NOT EXISTS ") s (lit " IS NULL")),
      condition_to_string-is_null (to_expr (negate yes))
          ∙ rw (negated-operand (lit "EXISTS " ++ s), not_exists_words s) (simp append_assoc),
    )
