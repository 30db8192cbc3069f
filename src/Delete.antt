-- ===== src/Delete.antt =====
-- include/iron_query/delete_from.hpp and src/delete_from.cpp.
pub mod Calls
pub mod Total
pub mod Assembled
use iron_query.Prelude.{Text, lit, is_empty, if◌then◌else◌, not, List, [], ◌++◌}
use iron_query.Exception.{Result, ok, err, logic_error, ◌>>=◌}
use iron_query.VirtualTable.{
  VirtualTable, default_formatted, default_bracketed, default_as_from_item,
}
use iron_query.Expr.{Condition, SelectItem, condition_to_string}
use iron_query.Clause.{join_csv, render_items, set_once}
use iron_query.Table
use iron_query.Table.{Table}

pub record DeleteFrom : Type 0 where
  pub from_ : Text
  pub using_ : Text
  pub where_ : Text
  pub returning_ : Text

unfoldable pub delete_from : Table → DeleteFrom
delete_from tbl = record { from_ = Table.to_string tbl; using_ = []; where_ = []; returning_ = [] }

unfoldable pub using : VirtualTable → DeleteFrom → Result DeleteFrom
using tbl q = do
  item ← tbl.to_string_as_from_item
  value ← set_once (is_empty q.using_) (lit "USING clause") item
  ok (record q { using_ = value })

unfoldable pub where_clause : Condition → DeleteFrom → Result DeleteFrom
where_clause exp q = do
  value ← set_once (is_empty q.where_) (lit "WHERE clause") (condition_to_string exp)
  ok (record q { where_ = value })

unfoldable pub returning : List SelectItem → DeleteFrom → Result DeleteFrom
returning items q = do
  value ← set_once (is_empty q.returning_) (lit "RETURNING clause") (join_csv (render_items items))
  ok (record q { returning_ = value })

unfoldable pub to_string : DeleteFrom → Result Text
to_string q =
    if is_empty q.from_
    then err (logic_error (lit "FROM clause is not set"))
    else let s = lit "DELETE FROM " ++ q.from_ in
      let s = if not (is_empty q.using_) then s ++ lit " USING " ++ q.using_ else s in
      let s = if not (is_empty q.where_) then s ++ lit " WHERE " ++ q.where_ else s in
      ok (if not (is_empty q.returning_) then s ++ lit " RETURNING " ++ q.returning_ else s)

unfoldable pub delete_table : DeleteFrom → VirtualTable
unfolding to_string
delete_table q = record {
  to_string = to_string q;
  to_string_formatted = default_formatted (to_string q);
  to_string_bracketed = default_bracketed (to_string q);
  to_string_as_from_item = default_as_from_item;
}
