-- ===== src/Tests/Render.antt =====
-- Inputs of tests/test_expr.cpp, test_select.cpp, test_join.cpp, test_with.cpp, test_insert.cpp.
use iron_query.Prelude.{ℕ, lit, String, ◌≡◌, refl, [], ◌∷◌, pos, negsuc}
use iron_query.Exception.{Result, ok, err, invalid_identifier, invalid_operator, what, ◌>>=◌}
use iron_query.Precedence.{symbol}
use iron_query.Identifier.{validate_identifier, validate_operator_name}
use iron_query.Node.{
  needs_parens, render_with_context, make_leaf, make_node, render, append_part, sum_sizes,
  part_size,
}
use iron_query.Decimal
use iron_query.Expr
use iron_query.Expr.{
  Expr, and_also, or_else, negate, condition_to_string, condition_from_raw, to_string, from_raw,
}
use iron_query.Expr.Literal.{from_integer, literal, ident}
use iron_query.Expr.Operators.{add, multiply, binary_op, minus, as_item}
use iron_query.Expr.Predicates.{lt, eq, compare_op, in_list}
use iron_query.Clause
use iron_query.Table
use iron_query.Table.{table}
use iron_query.Join.{inner, join, join_table, on}
use iron_query.Select
use iron_query.Select.{from, select, where_clause, limit}

abbrev pub raw : String → Expr
raw s = from_raw (lit s) symbol

abbrev pub int : ℕ → Expr
int n = from_integer (pos n)

-- What a rendering runs through.
unfoldable pub engine : Unit {0}
unfolding condition_to_string and_also or_else negate condition_from_raw lt eq compare_op in_list
    add multiply binary_op minus as_item from_integer literal ident Decimal.to_string to_string
    from_raw Expr.from_string Expr.select_item make_leaf make_node render render_with_context
    append_part needs_parens sum_sizes part_size lit validate_identifier validate_operator_name
engine = tt

-- `(1 < 2) && (2 == age)`, `(x || y) && z`, `!!(1 < 2)`.
logical :
    (condition_to_string (and_also (lt (int 1) (int 2)) (eq (int 2) (raw "age")))
      ≡ lit "1 < 2 AND 2 = age")
    × (condition_to_string (
          and_also
            (or_else (condition_from_raw (lit "x")) (condition_from_raw (lit "y")))
            (condition_from_raw (lit "z")))
        ≡ lit "(x OR y) AND z")
    × (condition_to_string (negate (negate (lt (int 1) (int 2)))) ≡ lit "NOT (NOT 1 < 2)")
unfolding engine
logical = (refl, refl, refl)

-- `(1 + 2) * 3` and `-(-a)`.
arithmetic :
    ((do s ← add (int 1) (int 2); p ← multiply s (int 3); ok (to_string p))
      ≡ ok (lit "(1 + 2) * 3"))
    × (to_string (minus (minus (raw "a"))) ≡ lit "-(-a)")
unfolding engine
arithmetic = (refl, refl)

-- `Expr(-5)` under a minus sign.
comment : to_string (minus (from_integer (negsuc 4))) ≡ lit "--5"
unfolding engine
comment = refl

quotes :
    ((do e ← literal (lit "it's"); ok (to_string e)) ≡ ok (lit "'it''s'"))
    × ((do e ← ident (lit "a\"b"); ok (to_string e)) ≡ ok (lit "\"a\"\"b\""))
unfolding engine
quotes = (refl, refl)

names :
    (validate_identifier (lit "schema.name") ≡ ok tt)
    × (validate_identifier (lit "schema..name") ≡ err (invalid_identifier (lit "schema..name")))
    × (validate_operator_name (lit "->>") ≡ ok tt)
    × (validate_operator_name (lit "+-") ≡ err (invalid_operator (lit "+-")))
    × (validate_operator_name (lit "*-") ≡ ok tt)
unfolding engine
names = (refl, refl, refl, refl, refl)

messages : what (invalid_identifier (lit "a b")) ≡ lit "iron_query: invalid identifier: a b"
unfolding what lit
messages = refl

-- A SELECT from a join, on one line and formatted.
abbrev users : Table.Table
users = record { name_ = lit "users" }

abbrev joined : Result Select.SelectExpr
joined = do
  j ← join (table users) (table users) inner
  k ← on (eq (raw "a") (raw "b")) j
  q ← from (join_table k)
  r ← select (Expr.select_item (raw "x") ∷ Expr.select_item (raw "y") ∷ []) q
  s ← limit (pos 10) r
  where_clause (lt (raw "x") (int 3)) s

select_one_line :
    (joined >>= Select.to_string)
    ≡ ok (lit "SELECT x, y FROM users INNER JOIN users ON a = b WHERE x < 3 LIMIT 10")
unfolding engine join on table join_table from select where_clause limit Select.to_string
    Select.select_text Clause.render_items Clause.join_csv Expr.item_to_string
select_one_line = refl

select_formatted :
    (joined >>= Select.to_string_formatted)
    ≡ ok (
        lit
          "SELECT\n    x,\n    y\nFROM\n    users INNER JOIN users ON a = b\nWHERE\n    x < 3\nLIMIT\n    10")
unfolding engine join on table join_table from select where_clause limit Select.to_string_formatted
    Select.select_text_formatted Clause.render_items Clause.join_csv Expr.item_to_string
select_formatted = refl
