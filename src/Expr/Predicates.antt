-- ===== src/Expr/Predicates.antt =====
-- The predicates of src/expr.cpp: the members and comparisons that give a Condition.
pub mod NotExists
use iron_query.Prelude.{Text, lit, String, is_empty, if◌then◌else◌, true, List, ◌++◌}
use iron_query.Exception.{Result, ok, err, invalid_argument, ◌>>=◌}
use iron_query.Precedence.{OperatorPrecedence, between, compare, is, extract}
use iron_query.Node.{Node, Part, Parts, text, child, nil, cons, make_node}
use iron_query.VirtualTable.{VirtualTable}
use iron_query.Expr.{Expr, Condition, condition, word}
use iron_query.Expr.Call.{list_parts}

-- `a <word> b`, all at one precedence.
abbrev infix_parts : OperatorPrecedence → Expr → String → Expr → Parts
infix_parts p a s b = cons (child a.node_ p) (cons (word s) (cons (child b.node_ p) nil))

abbrev postfix_parts : OperatorPrecedence → Expr → Part → Parts
postfix_parts p a part = cons (child a.node_ p) (cons part nil)

unfoldable pub between_and : Expr → Expr → Expr → Condition
between_and e a b = condition (
    make_node between
      (cons (child e.node_ between) (cons (word " BETWEEN ") (infix_parts between a " AND " b))))

unfoldable pub not_between : Expr → Expr → Expr → Condition
not_between e a b = condition (
    make_node between (
      cons (child e.node_ between) (cons (word " NOT BETWEEN ") (infix_parts between a " AND " b))))

unfoldable pub like : Expr → Expr → Condition
like e a = condition (make_node between (infix_parts between e " LIKE " a))

unfoldable pub not_like : Expr → Expr → Condition
not_like e a = condition (make_node between (infix_parts between e " NOT LIKE " a))

unfoldable pub ilike : Expr → Expr → Condition
ilike e a = condition (make_node between (infix_parts between e " ILIKE " a))

unfoldable pub not_ilike : Expr → Expr → Condition
not_ilike e a = condition (make_node between (infix_parts between e " NOT ILIKE " a))

unfoldable pub similar_to : Expr → Expr → Condition
similar_to e a = condition (make_node between (infix_parts between e " SIMILAR TO " a))

unfoldable pub not_similar_to : Expr → Expr → Condition
not_similar_to e a = condition (make_node between (infix_parts between e " NOT SIMILAR TO " a))

unfoldable pub build_in_list_node : Expr → Text → List Expr → Result Node
unfolding list_parts
build_in_list_node self connector values =
    if is_empty values
    then err (invalid_argument (lit "IN () needs at least one value"))
    else ok (
        make_node between (
          cons (child self.node_ between)
            (cons (text connector) (cons (word "(") (list_parts true values)))))

unfoldable pub in_list : Expr → List Expr → Result Condition
unfolding build_in_list_node
in_list e values = do n ← build_in_list_node e (lit " IN ") values; ok (condition n)

unfoldable pub not_in_list : Expr → List Expr → Result Condition
unfolding build_in_list_node
not_in_list e values = do n ← build_in_list_node e (lit " NOT IN ") values; ok (condition n)

unfoldable pub in_subquery : Expr → VirtualTable → Result Condition
in_subquery e subquery = do
  s ← subquery.to_string_bracketed
  ok (condition (make_node between (postfix_parts between e (text (lit " IN " ++ s)))))

unfoldable pub not_in_subquery : Expr → VirtualTable → Result Condition
not_in_subquery e subquery = do
  s ← subquery.to_string_bracketed
  ok (condition (make_node between (postfix_parts between e (text (lit " NOT IN " ++ s)))))

unfoldable pub eq_any_subquery : Expr → VirtualTable → Result Condition
eq_any_subquery e subquery = do
  s ← subquery.to_string_bracketed
  ok (condition (make_node compare (postfix_parts compare e (text (lit " = ANY " ++ s)))))

unfoldable pub ne_all_subquery : Expr → VirtualTable → Result Condition
ne_all_subquery e subquery = do
  s ← subquery.to_string_bracketed
  ok (condition (make_node compare (postfix_parts compare e (text (lit " <> ALL " ++ s)))))

unfoldable pub eq_any : Expr → Expr → Condition
eq_any e array = condition (
    make_node compare (
      cons (child e.node_ compare)
        (cons (word " = ANY (") (cons (child array.node_ extract) (cons (word ")") nil)))))

unfoldable pub ne_all : Expr → Expr → Condition
ne_all e array = condition (
    make_node compare (
      cons (child e.node_ compare)
        (cons (word " <> ALL (") (cons (child array.node_ extract) (cons (word ")") nil)))))

unfoldable pub is_true : Expr → Condition
is_true e = condition (make_node is (postfix_parts is e (word " IS TRUE")))

unfoldable pub is_false : Expr → Condition
is_false e = condition (make_node is (postfix_parts is e (word " IS FALSE")))

unfoldable pub is_null : Expr → Condition
is_null e = condition (make_node is (postfix_parts is e (word " IS NULL")))

unfoldable pub is_not_null : Expr → Condition
is_not_null e = condition (make_node is (postfix_parts is e (word " IS NOT NULL")))

unfoldable pub is_distinct_from : Expr → Expr → Condition
is_distinct_from e other = condition (make_node is (infix_parts is e " IS DISTINCT FROM " other))

unfoldable pub is_not_distinct_from : Expr → Expr → Condition
is_not_distinct_from e other =
    condition (make_node is (infix_parts is e " IS NOT DISTINCT FROM " other))

unfoldable pub compare_op : Expr → Text → Expr → Condition
compare_op a op b = condition (
    make_node compare (
      cons (child a.node_ compare)
        (cons (text (lit " " ++ op ++ lit " ")) (cons (child b.node_ compare) nil))))

unfoldable pub lt : Expr → Expr → Condition
lt a b = compare_op a (lit "<") b

unfoldable pub le : Expr → Expr → Condition
le a b = compare_op a (lit "<=") b

unfoldable pub gt : Expr → Expr → Condition
gt a b = compare_op a (lit ">") b

unfoldable pub ge : Expr → Expr → Condition
ge a b = compare_op a (lit ">=") b

unfoldable pub eq : Expr → Expr → Condition
eq a b = compare_op a (lit "=") b

unfoldable pub ne : Expr → Expr → Condition
ne a b = compare_op a (lit "!=") b
