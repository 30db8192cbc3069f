-- ===== src/OrderBy.antt =====
-- include/iron_query/order_by.hpp and src/order_by.cpp.
use iron_query.Expr.{Expr}

pub data SortDirection : Type 0 where
  ascending descending : SortDirection

pub data NullsOrder : Type 0 where
  default first last : NullsOrder

pub record OrderByTerm : Type 0 where
  pub expr : Expr
  pub direction : SortDirection
  pub nulls_order : NullsOrder
