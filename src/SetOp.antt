-- ===== src/SetOp.antt =====
-- include/iron_query/set_op.hpp and src/set_op.cpp.
use iron_query.Prelude.{Text, lit, ◌++◌}
use iron_query.Exception.{Result, ok, ◌>>=◌}
use iron_query.VirtualTable.{
  VirtualTable, default_formatted, default_bracketed, default_as_from_item,
}

-- The subclasses of SetOpKind.
pub data SetOpKind : Type 0 where
  union union_all intersect except : SetOpKind

abbrev pub kind_text : SetOpKind → Text
kind_text union = lit "UNION"
kind_text union_all = lit "UNION ALL"
kind_text intersect = lit "INTERSECT"
kind_text except = lit "EXCEPT"

pub record SetOp : Type 0 where
  pub a_ : Text
  pub b_ : Text
  pub kind_ : Text

unfoldable pub set_op : VirtualTable → VirtualTable → SetOpKind → Result SetOp
set_op a b kind = do
  a_text ← a.to_string_bracketed
  b_text ← b.to_string_bracketed
  ok (record { a_ = a_text; b_ = b_text; kind_ = kind_text kind })

unfoldable pub to_string : SetOp → Text
to_string q = q.a_ ++ lit " " ++ q.kind_ ++ lit " " ++ q.b_

unfoldable pub set_op_table : SetOp → VirtualTable
unfolding to_string
set_op_table q = record {
  to_string = ok (to_string q);
  to_string_formatted = default_formatted (ok (to_string q));
  to_string_bracketed = default_bracketed (ok (to_string q));
  to_string_as_from_item = default_as_from_item;
}
