-- ===== src/Expr.antt =====
-- include/iron_query/expr.hpp, condition.hpp, select_item.hpp: an Expr and a Condition hold a node.
-- The constructors and renderings of src/expr.cpp and src/condition.cpp; the other members of Expr
-- are in the modules below.
pub mod Raw
pub mod Literal
pub mod Call
pub mod Operators
pub mod Predicates
pub mod Integral
use iron_query.Prelude.{Text, lit, String}
use iron_query.Precedence.{OperatorPrecedence, symbol, not, and, or}
use iron_query.Node.{
  Node, Part, text, child, Parts, nil, cons, make_leaf, make_node, render, render_with_context,
}

pub record Expr : Type 0 where
  pub node_ : Node

pub record Condition : Type 0 where
  pub node_ : Node

pub record SelectItem : Type 0 where
  pub s_ : Text

-- `Expr(std::shared_ptr<const Node>)` and `Condition(std::shared_ptr<const Node>)`.
abbrev pub expr : Node → Expr
expr n = record { node_ = n }

abbrev pub condition : Node → Condition
condition n = record { node_ = n }

-- A part that is a string literal of the program.
abbrev pub word : String → Part
word s = text (lit s)

unfoldable pub from_string : Text → Expr
from_string s = expr (make_leaf s symbol)

unfoldable pub from_raw : Text → OperatorPrecedence → Expr
from_raw s p = expr (make_leaf s p)

unfoldable pub extract : Expr → OperatorPrecedence → Text
extract e p = render_with_context e.node_ p

unfoldable pub to_string : Expr → Text
to_string e = render e.node_

-- Condition.
unfoldable pub condition_of : Text → OperatorPrecedence → Condition
condition_of s p = condition (make_leaf s p)

unfoldable pub condition_from_raw : Text → Condition
unfolding condition_of
condition_from_raw s = condition_of s symbol

unfoldable pub and_also : Condition → Condition → Condition
and_also a b =
    condition (
      make_node and (cons (child a.node_ and) (cons (word " AND ") (cons (child b.node_ and) nil))))

unfoldable pub or_else : Condition → Condition → Condition
or_else a b =
    condition
      (make_node or (cons (child a.node_ or) (cons (word " OR ") (cons (child b.node_ or) nil))))

unfoldable pub negate : Condition → Condition
negate a = condition (make_node not (cons (word "NOT ") (cons (child a.node_ not) nil)))

unfoldable pub condition_extract : Condition → OperatorPrecedence → Text
condition_extract c p = render_with_context c.node_ p

unfoldable pub condition_to_string : Condition → Text
condition_to_string c = render c.node_

-- `Condition::operator Expr`.
unfoldable pub to_expr : Condition → Expr
to_expr c = expr c.node_

-- SelectItem's template constructor and ToString.
unfoldable pub select_item : Expr → SelectItem
unfolding to_string
select_item e = record { s_ = to_string e }

unfoldable pub item_to_string : SelectItem → Text
item_to_string item = item.s_
