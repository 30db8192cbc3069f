-- ===== src/VirtualTable.antt =====
-- include/iron_query/virtual_table.hpp and src/virtual_table.cpp: what a query embeds as a table. A
-- subclass is a value of this record, with its overrides or the defaults below.
use iron_query.Prelude.{Text, lit, [], ◌∷◌, ◌++◌}
use iron_query.Exception.{Result, ok, err, logic_error, ◌>>=◌}

pub record VirtualTable : Type 0 where
  pub to_string : Result Text
  pub to_string_formatted : Result Text
  pub to_string_bracketed : Result Text
  pub to_string_as_from_item : Result Text

-- The base class's virtual functions, over `ToString()`.
abbrev pub default_formatted : Result Text → Result Text
default_formatted text = text

abbrev pub default_bracketed : Result Text → Result Text
default_bracketed text = do s ← text; ok (b'(' ∷ (s ++ b')' ∷ []))

abbrev pub default_as_from_item : Result Text
default_as_from_item = err (logic_error (lit "this FROM item requires an alias; use As()"))
