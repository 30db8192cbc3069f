-- ===== src/Update.antt =====
-- include/iron_query/update.hpp and src/update.cpp.
pub mod Calls
pub mod Total
pub mod Assembled
use iron_query.Prelude.{Text, lit, is_empty, if◌then◌else◌, not, List, [], ◌++◌}
use iron_query.Exception.{Result, ok, err, logic_error, ◌>>=◌}
use iron_query.VirtualTable.{VirtualTable}
use iron_query.Expr
use iron_query.Expr.{Expr, Condition, SelectItem, condition_to_string}
use iron_query.Clause.{join_csv, render_items, set_once}
use iron_query.Table
use iron_query.Table.{Table}

pub record Update : Type 0 where
  pub table_ : Text
  pub set_ : Text
  pub from_ : Text
  pub where_ : Text
  pub returning_ : Text

unfoldable pub update : Table → Update
update tbl = record {
  table_ = Table.to_string tbl;
  set_ = [];
  from_ = [];
  where_ = [];
  returning_ = [];
}

unfoldable pub set : Expr → Expr → Update → Update
set column value q = record q {
  set_ =
      (if not (is_empty q.set_) then q.set_ ++ lit ", " else q.set_)
      ++ Expr.to_string column
      ++ lit " = "
      ++ Expr.to_string value;
}

unfoldable pub from : VirtualTable → Update → Result Update
from tbl q = do
  item ← tbl.to_string_as_from_item
  value ← set_once (is_empty q.from_) (lit "FROM clause") item
  ok (record q { from_ = value })

unfoldable pub where_clause : Condition → Update → Result Update
where_clause exp q = do
  value ← set_once (is_empty q.where_) (lit "WHERE clause") (condition_to_string exp)
  ok (record q { where_ = value })

unfoldable pub returning : List SelectItem → Update → Result Update
returning items q = do
  value ← set_once (is_empty q.returning_) (lit "RETURNING clause") (join_csv (render_items items))
  ok (record q { returning_ = value })

unfoldable pub to_string : Update → Result Text
to_string q =
    if is_empty q.set_
    then err (logic_error (lit "SET clause is not set"))
    else let s = lit "UPDATE " ++ q.table_ ++ lit " SET " ++ q.set_ in
      let s = if not (is_empty q.from_) then s ++ lit " FROM " ++ q.from_ else s in
      let s = if not (is_empty q.where_) then s ++ lit " WHERE " ++ q.where_ else s in
      ok (if not (is_empty q.returning_) then s ++ lit " RETURNING " ++ q.returning_ else s)
