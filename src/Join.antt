-- ===== src/Join.antt =====
-- include/iron_query/join.hpp and src/join.cpp.
pub mod Qualified
use iron_query.Prelude.{
  Text, lit, is_empty, if◌then◌else◌, Bool, true, false, not, List, [], ◌∷◌, ◌++◌,
}
use iron_query.Exception.{Result, ok, err, logic_error, invalid_argument, ◌>>=◌, ◌>>◌}
use iron_query.VirtualTable.{VirtualTable, default_formatted, default_bracketed}
use iron_query.Expr.{Expr, Condition, condition_to_string}
use iron_query.Clause.{join_csv, render_exprs, set_once}

-- The subclasses of JoinKind.
pub data JoinKind : Type 0 where
  inner cross left_outer right_outer full_outer : JoinKind
  natural_inner natural_left_outer natural_right_outer natural_full_outer : JoinKind

abbrev pub kind_text : JoinKind → Text
kind_text inner = lit "INNER"
kind_text cross = lit "CROSS"
kind_text left_outer = lit "LEFT OUTER"
kind_text right_outer = lit "RIGHT OUTER"
kind_text full_outer = lit "FULL OUTER"
kind_text natural_inner = lit "NATURAL INNER"
kind_text natural_left_outer = lit "NATURAL LEFT OUTER"
kind_text natural_right_outer = lit "NATURAL RIGHT OUTER"
kind_text natural_full_outer = lit "NATURAL FULL OUTER"

abbrev pub is_natural : JoinKind → Bool
is_natural natural_inner = true
is_natural natural_left_outer = true
is_natural natural_right_outer = true
is_natural natural_full_outer = true
is_natural _ = false

pub record Join : Type 0 where
  pub a_ : Text
  pub b_ : Text
  pub kind_ : Text
  pub natural_ : Bool
  pub on_ : Text
  pub using_ : Text

unfoldable pub join : VirtualTable → VirtualTable → JoinKind → Result Join
join a b kind = do
  a_text ← a.to_string_bracketed
  b_text ← b.to_string_bracketed
  ok (record {
    a_ = a_text;
    b_ = b_text;
    kind_ = kind_text kind;
    natural_ = is_natural kind;
    on_ = [];
    using_ = [];
  })

unfoldable pub on : Condition → Join → Result Join
on exp j =
    if j.natural_
    then err (logic_error (lit "NATURAL JOIN cannot have an ON clause"))
    else if not (is_empty j.using_)
    then err (logic_error (lit "JOIN cannot have both ON and USING clauses"))
    else do
      value ← set_once (is_empty j.on_) (lit "ON clause") (condition_to_string exp)
      ok (record j { on_ = value })

unfoldable pub using : List Expr → Join → Result Join
using columns j =
    if j.natural_
    then err (logic_error (lit "NATURAL JOIN cannot have a USING clause"))
    else if not (is_empty j.on_)
    then err (logic_error (lit "JOIN cannot have both ON and USING clauses"))
    else if is_empty columns
    then err (invalid_argument (lit "USING clause needs at least one column"))
    else do
      value ← set_once (is_empty j.using_) (lit "USING clause") (join_csv (render_exprs columns))
      ok (record j { using_ = value })

unfoldable pub to_string : Join → Text
to_string j =
    let s = j.a_ ++ lit " " ++ j.kind_ ++ lit " JOIN " ++ j.b_ in
    let t = if not (is_empty j.on_) then s ++ lit " ON " ++ j.on_ else s in
    if not (is_empty j.using_) then t ++ lit " USING (" ++ j.using_ ++ lit ")" else t

unfoldable pub join_table : Join → VirtualTable
unfolding to_string
join_table j = record {
  to_string = ok (to_string j);
  to_string_formatted = default_formatted (ok (to_string j));
  to_string_bracketed = default_bracketed (ok (to_string j));
  to_string_as_from_item = ok (to_string j);
}
