-- ===== src/Expr/Call.antt =====
-- Function calls of src/expr.cpp: Call, CallDistinct, the functions with a name of their own, EXISTS.
pub mod Rendered
use iron_query.Prelude.{
  Text, lit, String, is_empty, if◌then◌else◌, Bool, true, false, List, [], ◌∷◌, ◌++◌,
}
use iron_query.Exception.{Result, ok, err, invalid_argument, ◌>>=◌, ◌>>◌}
use iron_query.Identifier.{validate_identifier}
use iron_query.Precedence.{OperatorPrecedence, symbol, extract}
use iron_query.Node.{Node, Parts, text, child, nil, cons, make_node}
use iron_query.VirtualTable.{VirtualTable}
use iron_query.Expr.{Expr, expr, Condition, word, from_string, condition_of}

-- The loop that BuildCallNode and BuildInListNode share, up to the closing parenthesis.
unfoldable pub list_parts : Bool → List Expr → Parts
list_parts first [] = cons (word ")") nil
list_parts first (e ∷ es) =
    let rest = cons (child e.node_ extract) (list_parts false es) in
    if first then rest else cons (word ", ") rest

unfoldable pub ensure_non_empty_args : List Expr → Text → Result (Unit {0})
ensure_non_empty_args args name =
    if is_empty args
    then err (invalid_argument (name ++ lit "() needs at least one argument"))
    else ok tt

unfoldable pub build_call_node : Text → Text → List Expr → Node
unfolding list_parts
build_call_node name args_prefix args =
    make_node symbol (cons (text (name ++ lit "(" ++ args_prefix)) (list_parts true args))

unfoldable pub call : Text → List Expr → Result Expr
call name args = do validate_identifier name; ok (expr (build_call_node name [] args))

unfoldable pub call_distinct : Text → List Expr → Result Expr
unfolding ensure_non_empty_args
call_distinct name args = do
  validate_identifier name
  ensure_non_empty_args args name
  ok (expr (build_call_node name (lit "DISTINCT ") args))

-- COALESCE, GREATEST and LEAST.
unfoldable pub coalesce : List Expr → Result Expr
unfolding ensure_non_empty_args
coalesce args = do ensure_non_empty_args args (lit "COALESCE"); call (lit "COALESCE") args

unfoldable pub greatest : List Expr → Result Expr
unfolding ensure_non_empty_args
greatest args = do ensure_non_empty_args args (lit "GREATEST"); call (lit "GREATEST") args

unfoldable pub least : List Expr → Result Expr
unfolding ensure_non_empty_args
least args = do ensure_non_empty_args args (lit "LEAST"); call (lit "LEAST") args

unfoldable pub null_if : Expr → Expr → Result Expr
null_if a b = call (lit "NULLIF") (a ∷ b ∷ [])

unfoldable pub count : Expr → Result Expr
count arg = call (lit "COUNT") (arg ∷ [])

unfoldable pub count_all : Expr
count_all = from_string (lit "COUNT(*)")

unfoldable pub count_distinct : Expr → Result Expr
count_distinct arg = call_distinct (lit "COUNT") (arg ∷ [])

unfoldable pub sum : Expr → Result Expr
sum arg = call (lit "SUM") (arg ∷ [])

unfoldable pub avg : Expr → Result Expr
avg arg = call (lit "AVG") (arg ∷ [])

unfoldable pub min : Expr → Result Expr
min arg = call (lit "MIN") (arg ∷ [])

unfoldable pub max : Expr → Result Expr
max arg = call (lit "MAX") (arg ∷ [])

unfoldable pub exists : VirtualTable → Result Condition
exists subquery = do s ← subquery.to_string_bracketed; ok (condition_of (lit "EXISTS " ++ s) symbol)

unfoldable pub not_exists : VirtualTable → Result Condition
not_exists subquery = do
  s ← subquery.to_string_bracketed
  ok (condition_of (lit "NOT EXISTS " ++ s) symbol)
