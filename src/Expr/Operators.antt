-- ===== src/Expr/Operators.antt =====
-- The operators of src/expr.cpp that give an Expr.
pub mod Minus
use iron_query.Prelude.{Text, lit, if◌then◌else◌, not, [], ◌∷◌, ◌++◌}
use iron_query.Exception.{Result, ok, err, invalid_identifier, ◌>>=◌, ◌>>◌}
use iron_query.Identifier.{is_plain_identifier, validate_operator_name}
use iron_query.Precedence.{
  OperatorPrecedence, dot, typecast, index, unary_plus, collate, exp, mul, plus, any_other, extract,
}
use iron_query.Node.{Node, Parts, text, child, nil, cons, make_node}
use iron_query.Collation
use iron_query.Collation.{Collation}
use iron_query.Expr.{Expr, expr, SelectItem, word, to_string}

unfoldable pub prefix_op : Text → Expr → OperatorPrecedence → Result Expr
prefix_op op operand p = do
  validate_operator_name op
  ok (expr (make_node p (cons (text (op ++ lit " ")) (cons (child operand.node_ p) nil))))

unfoldable pub dot_expr : Expr → Expr → Expr
dot_expr a b =
    expr (make_node dot (cons (child a.node_ dot) (cons (word ".") (cons (child b.node_ dot) nil))))

unfoldable pub cast_raw : Expr → Text → Expr
cast_raw a type = expr (
    make_node typecast (
      cons (word "CAST (")
        (cons (child a.node_ typecast) (cons (text (lit " AS " ++ type ++ lit ")")) nil))))

unfoldable pub collate_expr : Expr → Collation → Expr
collate_expr a collation = expr (
    make_node collate (
      cons (child a.node_ collate)
        (cons (text (lit " COLLATE " ++ Collation.to_string collation)) nil)))

-- `operator[]`.
unfoldable pub at_index : Expr → Expr → Expr
at_index a b = expr (
    make_node index (
      cons (child a.node_ index)
        (cons (word "[") (cons (child b.node_ extract) (cons (word "]") nil)))))

unfoldable pub binary_op : Expr → Text → Expr → OperatorPrecedence → Result Expr
binary_op a op b p = do
  validate_operator_name op
  ok (
      expr (
        make_node p (
          cons (child a.node_ p)
            (cons (text (lit " " ++ op ++ lit " ")) (cons (child b.node_ p) nil)))))

-- `operator^`, `+`, `-`, `*`, `/`, `%` and Concat.
unfoldable pub power : Expr → Expr → Result Expr
power a b = binary_op a (lit "^") b exp

unfoldable pub add : Expr → Expr → Result Expr
add a b = binary_op a (lit "+") b plus

unfoldable pub subtract : Expr → Expr → Result Expr
subtract a b = binary_op a (lit "-") b plus

unfoldable pub multiply : Expr → Expr → Result Expr
multiply a b = binary_op a (lit "*") b mul

unfoldable pub divide : Expr → Expr → Result Expr
divide a b = binary_op a (lit "/") b mul

unfoldable pub modulo : Expr → Expr → Result Expr
modulo a b = binary_op a (lit "%") b mul

unfoldable pub concat : Expr → Expr → Result Expr
concat a b = binary_op a (lit "||") b any_other

-- Unary `operator-` and `operator!`.
unfoldable pub minus : Expr → Expr
minus a = expr (make_node unary_plus (cons (word "-") (cons (child a.node_ unary_plus) nil)))

unfoldable pub negation : Expr → Expr
negation a = expr (
    make_node OperatorPrecedence.not
      (cons (word "NOT ") (cons (child a.node_ OperatorPrecedence.not) nil)))

unfoldable pub as_item : Expr → Text → Result SelectItem
as_item e name =
    if not (is_plain_identifier name)
    then err (invalid_identifier name)
    else ok (record { s_ = to_string e ++ lit " AS " ++ name })
