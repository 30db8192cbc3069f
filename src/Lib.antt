-- ===== src/Lib.antt =====
-- iron_query: the SQL query builder.
--
-- The library builds SQL text in C++. An expression is an immutable tree of nodes that renders itself
-- with the parentheses that its operators' precedences call for; the builders of the statements
-- collect rendered or live expressions clause by clause, check what they are given, and render one
-- query. Every query is a virtual table, which other queries embed as a subquery, a FROM item or a
-- CTE. The whole library is modelled, as functions that a concrete input evaluates. A member function
-- of a builder takes the builder's state and returns the next one; it is called on an rvalue, so
-- nothing else holds the old state. A function that may throw returns a Result, `ok` or `err`, and
-- what a builder holds after an exception is not modelled. A std::string is the list of its bytes.
--
-- The files, and the code that they model:
--   Prelude: bytes, texts, lists and the names of the libraries that the other files share.
--   Exception: include/iron_query/exception.hpp, src/exception.cpp. The classes as a sum.
--   Identifier: src/impl/identifier.cpp. IsPlainIdentifier, ValidateIdentifier (validate_loop is its
--     `while (true)`), ValidateOperatorName (validate_operator_name).
--   Precedence: include/iron_query/operator_precedence.hpp; rank is the enumerator's number.
--   Node: src/impl/node.hpp, src/impl/node.cpp. MakeLeaf, MakeNode, Render, RenderWithContext.
--   Decimal: std::to_string on integers, as src/expr.cpp and src/select_expr.cpp use it.
--   Expr: include/iron_query/expr.hpp, condition.hpp and select_item.hpp with their sources. Its
--     children are Literal (FromInteger, FromDouble, Literal, Ident), Call (Call, the aggregates,
--     Exists), Operators (BinaryOp, PrefixOp, CastRaw, Collate, As, arithmetic) and Predicates
--     (comparisons, Between, Like, In, EqAny, Is...), all of src/expr.cpp, and Integral (kIsSqlInteger
--     and the constructor for integral types).
--   VirtualTable: src/virtual_table.cpp. A class that derives from it is a value of the record.
--   Collation, OrderBy: src/collation.cpp, src/order_by.cpp.
--   Clause: src/impl/render.hpp, src/impl/render.cpp. JoinCsv, IndentBlock, RenderTerm, SetOnce.
--   Table: src/table.cpp, table_alias.cpp, table_with_columns.cpp, column.cpp, placeholders.cpp.
--   CaseBuilder: src/case_builder.cpp. When, Then, Else, End (when, then_result, else_result,
--     end_case).
--   Join, SetOp: src/join.cpp, src/set_op.cpp.
--   Select: src/select_expr.cpp. The setters, EnsureValid, ToString, ToStringFormatted.
--   With: src/with.cpp. WithBuilder, WithQuery.
--   Insert, Update, Delete: src/insert_into.cpp, src/update.cpp, src/delete_from.cpp.
--   Userver: include/iron_query/userver.hpp. ToQuery, over every builder that has a ToString.
--   Examples: examples/libpq/src/main.cpp (Libpq: main, ExecParams, PrintRows, the connection and the
--     results as a list of calls) and examples/userver/src/main.cpp (KeyValue: HandleRequest, GetValues,
--     std::stoi on the limit, the queries sent to the driver as a list).
--   Syntax: expressions and predicates as trees, and a reader that goes by levels of precedence,
--     against which the texts of src/expr.cpp and src/condition.cpp are measured.
--   Query: SELECT statements, their joins, set operations and CTEs as trees over those of Syntax, the
--     calls that build them (build_query, build_with), and readers of whole statements (read_query,
--     read_with).
--   Tests: runs on the inputs of tests/, and the theorems at concrete inputs.
-- The children of a file hold the theorems on it, each named for what it proves.
--
-- Bounds and fuel:
--   validate_loop runs on fuel, one unit for each round. A round that does not end the loop passes a
--   dot, so one unit more than the length of the text is enough.
--   read_all reads an expression on fuel, a unit for each depth of parentheses and each item of a list;
--   one unit more than the tree is deep is enough. read_query and read_with take that fuel for the
--   expressions and the lists of a statement, and a second one, of one unit more than the queries in
--   one another.
--   print_rows tests its condition once on each unit of fuel; one unit more than the rows is enough,
--   as main gives it.
--   digits_onto divides by ten on fuel; one unit more than the number is enough.
--   A node's size is a std::size_t, a natural number modulo 2^64. Lengths and counts are not bounded,
--   since a string has a length that fits its type. LIMIT and OFFSET are integers of any size, of
--   which the code's are those of int.
--
-- Parameters: the floating-point functions (std::isfinite, std::to_string and std::to_chars on double)
-- are the fields of Floating. std::isalpha and std::isalnum are those of the "C" locale. The record
-- Libpq holds the calls of libpq that the first example makes, on a state of their own; the record
-- Framework what the second uses of userver, its PostgreSQL driver, on a state of its own, and fmt; the
-- record QueryClass the constructor of userver's query class.
--
-- Not modelled: reserve and the capacities of strings, std::bad_alloc, the template that hands a
-- floating-point number to FromDouble, the deleted constructors, the assertions; the components that
-- main of the userver example registers with the framework; the umbrella header, which only includes
-- the others.
pub mod Prelude
pub mod Exception
pub mod Identifier
pub mod Precedence
pub mod Node
pub mod Decimal
pub mod VirtualTable
pub mod Collation
pub mod Expr
pub mod OrderBy
pub mod Clause
pub mod Table
pub mod CaseBuilder
pub mod Join
pub mod SetOp
pub mod Select
pub mod With
pub mod Insert
pub mod Update
pub mod Delete
pub mod Userver
pub mod Examples
pub mod Syntax
pub mod Query
mod Tests
