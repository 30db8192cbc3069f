-- ===== src/Syntax/Unambiguous.antt =====
-- Whatever is nested in the expressions of src/expr.cpp and src/condition.cpp, their text is read back
-- as it was nested.
use iron_query.Prelude.{ℕ, ◌<◌, ◌≡◌, [], some}
use iron_query.Exception.{ok}
use iron_query.Expr.{Expr, to_string}
use iron_query.Syntax.Grammar.{read_all}
use iron_query.Syntax.Stops.{Named, depth}
use iron_query.Syntax.Reader.{read_all-tree_text}
use iron_query.Syntax.Builds.{builds}
use iron_query.Syntax.Values.{Value, build, value_tree}

-- A value built by any nesting of the arithmetic operators, members, subscripts, function calls, signs
-- and NOT, comparisons, LIKE, ILIKE and SIMILAR TO, IS DISTINCT FROM, IS NULL, IS TRUE and IS FALSE,
-- BETWEEN, IN with a list, AND and OR, over columns and functions whose names are words other than
-- NOT, DISTINCT and ON, the functions' valid ones, and string literals and quoted identifiers of any bytes but NUL: it is built without an exception, and on more
-- fuel than it is deep the reader gives its text back as that nesting. Where a pair of parentheses is
-- left out, the levels of precedence put it there, and nothing in a literal reaches out of it.
pub read_all-build :
    (v : Value) (fuel : ℕ)
    → Named (value_tree v)
    → depth (value_tree v) < fuel
    → (e : Expr) × (build v ≡ ok e) × (read_all fuel (to_string e) ≡ some (value_tree v, []))
unfolding to_string
read_all-build v fuel h d =
    let (e, made, (shown, bound)) = builds v h in
    (e, made, rw shown (read_all-tree_text (value_tree v) fuel h d))
