-- ===== src/Select.antt =====
-- include/iron_query/select_expr.hpp and src/select_expr.cpp: the clauses of a SELECT and their two
-- renderings.
pub mod Order
pub mod Clauses
mod Space
mod Pieces
pub mod Layout
pub mod FromItem
pub mod Embedded
use iron_query.Prelude.{
  Text, lit, is_empty, if◌then◌else◌, Bool, true, false, not, ◌&&◌, List, [], ◌∷◌, ◌++◌, Option,
  none, some, ℤ,
}
use iron_query.Exception.{Result, ok, err, logic_error, ◌>>=◌, ◌>>◌}
use iron_query.Decimal
use iron_query.VirtualTable.{VirtualTable, default_bracketed, default_as_from_item}
use iron_query.Expr.{Expr, Condition, SelectItem, condition_to_string}
use iron_query.OrderBy.{OrderByTerm}
use iron_query.Clause.{join_csv, render_exprs, render_items, render_orders, set_once, is_none}

pub record SelectExpr : Type 0 where
  pub distinct_ : Bool
  pub distinct_on_ : Option (List Expr)
  pub from_ : Text
  pub select_ : Option (List SelectItem)
  pub where_ : Option Condition
  pub group_by_ : Option (List Expr)
  pub having_ : Option Condition
  pub order_by_ : Option (List OrderByTerm)
  pub limit_ : Option ℤ
  pub offset_ : Option ℤ

unfoldable pub from : VirtualTable → Result SelectExpr
from tbl = do
  item ← tbl.to_string_as_from_item
  ok (record {
    distinct_ = false;
    distinct_on_ = none;
    from_ = item;
    select_ = none;
    where_ = none;
    group_by_ = none;
    having_ = none;
    order_by_ = none;
    limit_ = none;
    offset_ = none;
  })

unfoldable pub distinct : SelectExpr → Result SelectExpr
distinct q = ok (record q { distinct_ = true })

unfoldable pub distinct_on : List Expr → SelectExpr → Result SelectExpr
distinct_on exps q = do
  value ← set_once (is_none q.distinct_on_) (lit "DISTINCT ON clause") (some exps)
  ok (record q { distinct_on_ = value })

unfoldable pub select : List SelectItem → SelectExpr → Result SelectExpr
select items q = do
  value ← set_once (is_none q.select_) (lit "SELECT clause") (some items)
  ok (record q { select_ = value })

unfoldable pub where_clause : Condition → SelectExpr → Result SelectExpr
where_clause exp q = do
  value ← set_once (is_none q.where_) (lit "WHERE clause") (some exp)
  ok (record q { where_ = value })

unfoldable pub order_by : List OrderByTerm → SelectExpr → Result SelectExpr
order_by terms q = do
  value ← set_once (is_none q.order_by_) (lit "ORDER BY clause") (some terms)
  ok (record q { order_by_ = value })

unfoldable pub group_by : List Expr → SelectExpr → Result SelectExpr
group_by exps q = do
  value ← set_once (is_none q.group_by_) (lit "GROUP BY clause") (some exps)
  ok (record q { group_by_ = value })

unfoldable pub having : Condition → SelectExpr → Result SelectExpr
having exp q = do
  value ← set_once (is_none q.having_) (lit "HAVING clause") (some exp)
  ok (record q { having_ = value })

unfoldable pub limit : ℤ → SelectExpr → Result SelectExpr
limit n q = do
  value ← set_once (is_none q.limit_) (lit "LIMIT clause") (some n)
  ok (record q { limit_ = value })

unfoldable pub offset : ℤ → SelectExpr → Result SelectExpr
offset n q = do
  value ← set_once (is_none q.offset_) (lit "OFFSET clause") (some n)
  ok (record q { offset_ = value })

csv_indented_onto : Text → List Text → Text
csv_indented_onto s [] = s
csv_indented_onto s (item ∷ items) =
    csv_indented_onto ((if is_empty s then s else s ++ lit ",\n") ++ lit "    " ++ item) items

unfoldable pub join_csv_indented : List Text → Text
unfolding csv_indented_onto
join_csv_indented items = csv_indented_onto [] items

-- EnsureValid; what it checks first, the SELECT list, is handed on.
unfoldable pub ensure_valid : SelectExpr → Result (List SelectItem)
ensure_valid q = elim q.select_ [
  | none ↦ err (logic_error (lit "SELECT clause is not set"))
  | some items ↦
      if is_empty q.from_
      then err (logic_error (lit "FROM clause is not set"))
      else if q.distinct_ && not (is_none q.distinct_on_)
      then err (logic_error (lit "DISTINCT and DISTINCT ON are mutually exclusive"))
      else ok items
]

-- `if (field) s += keyword + ...;`
abbrev pub append_if {ℓ} : {A : Type ℓ} → Option A → (A → Text) → Text → Text
append_if none clause s = s
append_if (some a) clause s = s ++ clause a

abbrev pub head_text : Bool → Option (List Expr) → Text
head_text distinct none = if distinct then lit "SELECT DISTINCT " else lit "SELECT "
head_text distinct (some exps) =
    lit "SELECT DISTINCT ON (" ++ join_csv (render_exprs exps) ++ lit ") "

unfoldable pub select_text : SelectExpr → List SelectItem → Text
select_text q items =
    let s = head_text q.distinct_ q.distinct_on_ in
    let s = s ++ join_csv (render_items items) ++ lit " FROM " ++ q.from_ in
    let s = append_if q.where_ (λ c. lit " WHERE " ++ condition_to_string c) s in
    let s = append_if q.group_by_ (λ es. lit " GROUP BY " ++ join_csv (render_exprs es)) s in
    let s = append_if q.having_ (λ c. lit " HAVING " ++ condition_to_string c) s in
    let s = append_if q.order_by_ (λ ts. lit " ORDER BY " ++ join_csv (render_orders ts)) s in
    let s = append_if q.limit_ (λ n. lit " LIMIT " ++ Decimal.to_string n) s in
    append_if q.offset_ (λ n. lit " OFFSET " ++ Decimal.to_string n) s

unfoldable pub to_string : SelectExpr → Result Text
unfolding ensure_valid
to_string q = do items ← ensure_valid q; ok (select_text q items)

abbrev pub header_text : Bool → Option (List Expr) → Text
header_text distinct none = if distinct then lit "SELECT DISTINCT\n" else lit "SELECT\n"
header_text distinct (some exps) =
    lit "SELECT DISTINCT ON (" ++ join_csv (render_exprs exps) ++ lit ")\n"

unfoldable pub select_text_formatted : SelectExpr → List SelectItem → Text
unfolding join_csv_indented
select_text_formatted q items =
    let s = header_text q.distinct_ q.distinct_on_ in
    let s = s ++ join_csv_indented (render_items items) ++ lit "\nFROM\n    " ++ q.from_ in
    let s = append_if q.where_ (λ c. lit "\nWHERE\n    " ++ condition_to_string c) s in
    let s =
      append_if q.group_by_ (λ es. lit "\nGROUP BY\n" ++ join_csv_indented (render_exprs es)) s in
    let s = append_if q.having_ (λ c. lit "\nHAVING\n    " ++ condition_to_string c) s in
    let s =
      append_if q.order_by_ (λ ts. lit "\nORDER BY\n" ++ join_csv_indented (render_orders ts)) s in
    let s = append_if q.limit_ (λ n. lit "\nLIMIT\n    " ++ Decimal.to_string n) s in
    append_if q.offset_ (λ n. lit "\nOFFSET\n    " ++ Decimal.to_string n) s

unfoldable pub to_string_formatted : SelectExpr → Result Text
unfolding ensure_valid
to_string_formatted q = do items ← ensure_valid q; ok (select_text_formatted q items)

unfoldable pub select_table : SelectExpr → VirtualTable
unfolding to_string to_string_formatted
select_table q = record {
  to_string = to_string q;
  to_string_formatted = to_string_formatted q;
  to_string_bracketed = default_bracketed (to_string q);
  to_string_as_from_item = default_as_from_item;
}
