-- ===== src/Expr/Operators/Minus.antt =====
-- Unary minus of src/expr.cpp, and the SQL comment that two of its signs would open.
use iron_query.Prelude.{
  ℕ, Text, lit, starts_with, not, ◌&&◌, ◌≡◌, refl, Bool, true, false, [], ◌∷◌, ◌++◌, append-nil,
  negsuc,
}
use iron_query.Precedence.{unary_plus, symbol}
use iron_query.Decimal
use iron_query.Node.{precedence, needs_parens, make_leaf}
use iron_query.Node.Render.{bracketed, render-make_node, render-make_leaf}
use iron_query.Expr.{Expr, from_string, to_string}
use iron_query.Expr.Literal.{from_integer}
use iron_query.Expr.Operators.{minus}

to_string-minus :
    (a : Expr)
    → to_string (minus a)
      ≡ b'-' ∷ (bracketed (needs_parens (precedence a.node_) unary_plus) (to_string a) ++ [])
unfolding to_string minus
to_string-minus a = rw render-make_node (unfold lit in refl)

starts_with-bracketed :
    (parens : Bool) (s : Text)
    → starts_with (lit "-") (bracketed parens s) ≡ (not parens && starts_with (lit "-") s)
unfolding starts_with lit
starts_with-bracketed true s = refl
starts_with-bracketed false s = refl

starts_with-signs : (s : Text) → starts_with (lit "--") (b'-' ∷ s) ≡ starts_with (lit "-") s
unfolding starts_with lit
starts_with-signs s = refl

-- The text of `-a` begins with "--", which opens an SQL comment, exactly if the text of `a` begins
-- with "-" and its precedence leaves it without parentheses under a sign.
pub starts_with-minus :
    (a : Expr)
    → starts_with (lit "--") (to_string (minus a))
      ≡ (not (needs_parens (precedence a.node_) unary_plus) && starts_with (lit "-") (to_string a))
starts_with-minus a =
    rw (to_string-minus a, starts_with-signs, append-nil)
      (starts_with-bracketed (needs_parens (precedence a.node_) unary_plus) (to_string a))

from_integer-negsuc : (n : ℕ) → starts_with (lit "-") (to_string (from_integer (negsuc n))) ≡ true
unfolding from_integer from_string to_string starts_with lit
from_integer-negsuc n = rw render-make_leaf (unfold Decimal.to_string in refl)

precedence-from_integer : (n : ℕ) → precedence (from_integer (negsuc n)).node_ ≡ symbol
unfolding from_integer from_string make_leaf
precedence-from_integer n = refl

-- Of every negative integer literal the unary minus begins with "--".
pub minus-from_integer :
    (n : ℕ) → starts_with (lit "--") (to_string (minus (from_integer (negsuc n)))) ≡ true
minus-from_integer n =
    rw
      (
        starts_with-minus (from_integer (negsuc n)),
        precedence-from_integer n,
        from_integer-negsuc n,
      )
      (unfold needs_parens in refl)
