-- ===== src/Precedence.antt =====
-- include/iron_query/operator_precedence.hpp.
use iron_query.Prelude.{ℕ}

pub data OperatorPrecedence : Type 0 where
  symbol dot typecast index unary_plus collate at exp mul plus any_other : OperatorPrecedence
  between compare is not and or : OperatorPrecedence
  extract : OperatorPrecedence

-- The value of the enumerator, by which `>=` compares.
abbrev pub rank : OperatorPrecedence → ℕ
rank symbol = 0
rank dot = 1
rank typecast = 2
rank index = 3
rank unary_plus = 4
rank collate = 5
rank at = 6
rank exp = 7
rank mul = 8
rank plus = 9
rank any_other = 10
rank between = 11
rank compare = 12
rank is = 13
rank not = 14
rank and = 15
rank or = 16
rank extract = 17
