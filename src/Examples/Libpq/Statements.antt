-- ===== src/Examples/Libpq/Statements.antt =====
-- The two statements of examples/libpq/src/main.cpp.
use iron_query.Prelude.{Text, lit, ◌≡◌, refl, [], ◌∷◌}
use iron_query.Exception.{Result, ok, ◌>>=◌}
use iron_query.Node.{make_leaf, make_node, render, append_part, needs_parens}
use iron_query.Expr
use iron_query.Expr.{select_item, from_raw, condition_to_string, item_to_string}
use iron_query.Expr.Predicates.{eq, compare_op}
use iron_query.Clause.{join_csv, render_exprs, render_items}
use iron_query.Table
use iron_query.Table.{column_expr, placeholder, table}
use iron_query.Insert
use iron_query.Insert.{insert_into}
use iron_query.Select
use iron_query.Examples.{key_value_table, key_column, value_column}

unfoldable pub insert_sql : Result Text
insert_sql = do
  q ←
      Insert.columns (column_expr key_column ∷ column_expr value_column ∷ [])
        (insert_into key_value_table)
  q ← Insert.values (placeholder "$1" ∷ placeholder "$2" ∷ []) q
  Insert.to_string q

unfoldable pub select_sql : Result Text
select_sql = do
  q ← Select.from (table key_value_table)
  q ←
      Select.select
        (select_item (column_expr key_column) ∷ select_item (column_expr value_column) ∷ []) q
  q ← Select.where_clause (eq (column_expr key_column) (placeholder "$1")) q
  Select.to_string q

pub insert_sql-text :
    insert_sql ≡ ok (lit "INSERT INTO key_value_table (key, value) VALUES ($1, $2)")
unfolding insert_sql key_value_table key_column value_column insert_into Insert.columns
    Insert.values Insert.to_string column_expr from_raw make_leaf render append_part Expr.to_string
    join_csv render_exprs Table.to_string Table.from_raw lit Insert.ensure_same_arity
    Insert.check_rows Insert.rows_onto
insert_sql-text = refl

pub select_sql-text : select_sql ≡ ok (lit "SELECT key, value FROM key_value_table WHERE key = $1")
unfolding select_sql key_value_table key_column value_column Select.from Select.select
    Select.where_clause Select.to_string Select.ensure_valid Select.select_text column_expr
    select_item from_raw make_leaf make_node render append_part needs_parens Expr.to_string
    condition_to_string eq compare_op join_csv render_items item_to_string Table.to_string
    Table.from_raw lit table
select_sql-text = refl
