-- ===== src/With.antt =====
-- include/iron_query/with.hpp and src/with.cpp.
pub mod Names
pub mod Layout
use iron_query.Prelude.{
  Text, lit, text_eq, if◌then◌else◌, Bool, true, false, ◌||◌, List, [], ◌∷◌, ◌++◌,
}
use iron_query.Exception.{Result, ok, err, logic_error, ◌>>=◌, ◌>>◌}
use iron_query.Identifier.{validate_identifier}
use iron_query.VirtualTable.{VirtualTable, default_bracketed, default_as_from_item}
use iron_query.Clause.{indent_block}

pub record WithQuery : Type 0 where
  pub ctes_ : Text
  pub main_ : Text
  pub ctes_formatted_ : Text
  pub main_formatted_ : Text

unfoldable pub to_string : WithQuery → Text
to_string q = lit "WITH " ++ q.ctes_ ++ lit " " ++ q.main_

unfoldable pub to_string_formatted : WithQuery → Text
to_string_formatted q =
    lit "WITH\n" ++ indent_block q.ctes_formatted_ 4 ++ lit "\n" ++ q.main_formatted_

unfoldable pub with_table : WithQuery → VirtualTable
unfolding to_string to_string_formatted
with_table q = record {
  to_string = ok (to_string q);
  to_string_formatted = ok (to_string_formatted q);
  to_string_bracketed = default_bracketed (ok (to_string q));
  to_string_as_from_item = default_as_from_item;
}

pub record WithBuilder : Type 0 where
  pub ctes_ : Text
  pub ctes_formatted_ : Text
  pub cte_names_ : List Text

abbrev pub cte_text : Text → Text → Text
cte_text name query = name ++ lit " AS " ++ query

abbrev pub cte_text_formatted : Text → Text → Text
cte_text_formatted name query = name ++ lit " AS (\n" ++ indent_block query 4 ++ lit "\n)"

-- The private constructor.
unfoldable pub builder : Text → VirtualTable → Result WithBuilder
builder name query = do
  bracketed ← query.to_string_bracketed
  formatted ← query.to_string_formatted
  ok (record {
    ctes_ = cte_text name bracketed;
    ctes_formatted_ = cte_text_formatted name formatted;
    cte_names_ = name ∷ [];
  })

-- `std::find(...) != end()`.
unfoldable pub has_name : Text → List Text → Bool
has_name name [] = false
has_name name (n ∷ names) = text_eq n name || has_name name names

abbrev ensure_new : Bool → Text → Result (Unit {0})
ensure_new used name =
    if used then err (logic_error (lit "duplicate CTE name: " ++ name)) else ok tt

-- The member With.
unfoldable pub add_with : Text → VirtualTable → WithBuilder → Result WithBuilder
unfolding has_name
add_with name query b = do
  validate_identifier name
  ensure_new (has_name name b.cte_names_) name
  bracketed ← query.to_string_bracketed
  formatted ← query.to_string_formatted
  ok (record b {
    ctes_ = b.ctes_ ++ lit ", " ++ cte_text name bracketed;
    ctes_formatted_ = b.ctes_formatted_ ++ lit ",\n" ++ cte_text_formatted name formatted;
    cte_names_ = b.cte_names_ ++ name ∷ [];
  })

unfoldable pub main_query : VirtualTable → WithBuilder → Result WithQuery
main_query query b = do
  main ← query.to_string
  formatted ← query.to_string_formatted
  ok (record {
    ctes_ = b.ctes_;
    main_ = main;
    ctes_formatted_ = b.ctes_formatted_;
    main_formatted_ = formatted;
  })

-- The free function With.
unfoldable pub with_cte : Text → VirtualTable → Result WithBuilder
unfolding builder
with_cte name query = do validate_identifier name; builder name query
