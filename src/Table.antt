-- ===== src/Table.antt =====
-- Tables: src/table.cpp, table_alias.cpp, table_with_columns.cpp, column.cpp, placeholders.cpp, and
-- the members of VirtualTable that give a Table or an Expr (src/virtual_table.cpp).
pub mod Columns
use iron_query.Prelude.{
  Text, lit, String, text_eq, is_empty, if◌then◌else◌, Bool, true, false, List, [], ◌∷◌, ◌++◌, ◌||◌,
  map,
}
use iron_query.Exception.{Result, ok, err, logic_error, unknown_column, ◌>>=◌, ◌>>◌}
use iron_query.Identifier.{validate_identifier}
use iron_query.Precedence.{symbol, dot}
use iron_query.VirtualTable.{VirtualTable}
use iron_query.Expr
use iron_query.Expr.{Expr, SelectItem}
use iron_query.Expr.Operators.{as_item}

pub record Table : Type 0 where
  pub name_ : Text

unfoldable pub from_raw : Text → Table
from_raw name = record { name_ = name }

unfoldable pub to_string : Table → Text
to_string t = t.name_

-- Table overrides all but the formatted rendering, and never throws.
unfoldable pub table : Table → VirtualTable
unfolding to_string
table t = record {
  to_string = ok (to_string t);
  to_string_formatted = ok (to_string t);
  to_string_bracketed = ok (to_string t);
  to_string_as_from_item = ok (to_string t);
}

-- VirtualTable::As.
unfoldable pub as_table : VirtualTable → Text → Result Table
unfolding from_raw
as_table v name = do
  validate_identifier name
  s ← v.to_string_bracketed
  ok (from_raw (s ++ lit " AS " ++ name))

-- VirtualTable::operator Expr.
unfoldable pub subquery_expr : VirtualTable → Result Expr
subquery_expr v = do s ← v.to_string_bracketed; ok (Expr.from_raw s symbol)

pub record Column : Type 0 where
  pub name : Text
  pub type : Text
  pub is_nullable : Bool

unfoldable pub column_expr : Column → Expr
column_expr c = Expr.from_raw c.name symbol

unfoldable pub column_as : Column → Text → Result SelectItem
unfolding column_expr
column_as c alias = as_item (column_expr c) alias

pub record TableAlias : Type 0 where
  pub alias_ : Text

unfoldable pub alias_from : Text → Result TableAlias
alias_from alias = do validate_identifier alias; ok (record { alias_ = alias })

unfoldable pub alias_dot : TableAlias → Text → Expr
alias_dot a column = Expr.from_raw (a.alias_ ++ lit "." ++ column) dot

unfoldable pub alias_dot_column : TableAlias → Column → Expr
unfolding alias_dot
alias_dot_column a column = alias_dot a column.name

-- Derived from Table, whose renderings it inherits.
pub record TableWithColumns : Type 0 where
  pub base : Table
  pub columns_ : List Column
  pub alias_ : Text

unfoldable pub with_columns : Text → List Column → TableWithColumns
with_columns name columns = record {
  base = record { name_ = name };
  columns_ = columns;
  alias_ = [];
}

names_onto : Text → List Column → Text
names_onto s [] = s
names_onto s (c ∷ cs) = names_onto ((if is_empty s then s else s ++ lit ", ") ++ c.name) cs

unfoldable pub select_arg_all : TableWithColumns → Expr
unfolding names_onto
select_arg_all t = Expr.from_raw (names_onto [] t.columns_) symbol

-- TableWithColumns::As.
unfoldable pub columns_as : TableWithColumns → Text → Result TableWithColumns
unfolding to_string
columns_as t name = do
  validate_identifier name
  ok (record {
    base = record { name_ = to_string t.base ++ lit " AS " ++ name };
    columns_ = t.columns_;
    alias_ = name;
  })

-- `std::find_if(...) != end()`.
unfoldable pub has_column : Text → List Column → Bool
has_column name [] = false
has_column name (c ∷ cs) = text_eq c.name name || has_column name cs

unfoldable pub columns_dot : TableWithColumns → Text → Result Expr
unfolding has_column
columns_dot t column_name =
    if is_empty t.alias_
    then err (logic_error (lit "Dot() requires calling As() first"))
    else if has_column column_name t.columns_
    then ok (Expr.from_raw (t.alias_ ++ lit "." ++ column_name) dot)
    else err (unknown_column column_name t.alias_)

unfoldable pub columns_dot_column : TableWithColumns → Column → Result Expr
unfolding columns_dot
columns_dot_column t column = columns_dot t column.name

-- A placeholder of the given text.
abbrev pub placeholder : String → Expr
placeholder s = Expr.from_raw (lit s) symbol

-- `_1` to `_10`.
abbrev pub placeholders : List Expr
placeholders =
    map placeholder ("$1" ∷ "$2" ∷ "$3" ∷ "$4" ∷ "$5" ∷ "$6" ∷ "$7" ∷ "$8" ∷ "$9" ∷ "$10" ∷ [])
