-- ===== src/Syntax.antt =====
-- The expressions that src/expr.cpp and src/condition.cpp build, as trees of SQL's grammar: leaves,
-- function calls, prefix and infix operators, subscripts and the predicates of SQL.
pub mod Grammar
pub mod Stops
pub mod Leaves
pub mod Prefixes
mod Levels
mod Operands
pub mod Reader
pub mod Values
pub mod Nodes
pub mod Builds
pub mod Unambiguous
use iron_query.Prelude.{Text, lit}
use iron_query.Precedence.{
  OperatorPrecedence, dot, index, unary_plus, exp, mul, plus, any_other, between, compare, is, and,
  or,
}

-- What stands between two operands.
pub data Op : Type 0 where
  member power multiply divide modulo add subtract concat : Op
  like not_like ilike not_ilike similar_to not_similar_to : Op
  lt le gt ge eq ne : Op
  distinct not_distinct : Op
  both either : Op

abbrev pub level : Op → OperatorPrecedence
level member = dot
level power = exp
level multiply = mul
level divide = mul
level modulo = mul
level add = plus
level subtract = plus
level concat = any_other
level like = between
level not_like = between
level ilike = between
level not_ilike = between
level similar_to = between
level not_similar_to = between
level distinct = is
level not_distinct = is
level both = and
level either = or
level _ = compare

abbrev pub op_text : Op → Text
op_text member = lit "."
op_text power = lit " ^ "
op_text multiply = lit " * "
op_text divide = lit " / "
op_text modulo = lit " % "
op_text add = lit " + "
op_text subtract = lit " - "
op_text concat = lit " || "
op_text like = lit " LIKE "
op_text not_like = lit " NOT LIKE "
op_text ilike = lit " ILIKE "
op_text not_ilike = lit " NOT ILIKE "
op_text similar_to = lit " SIMILAR TO "
op_text not_similar_to = lit " NOT SIMILAR TO "
op_text lt = lit " < "
op_text le = lit " <= "
op_text gt = lit " > "
op_text ge = lit " >= "
op_text eq = lit " = "
op_text ne = lit " != "
op_text distinct = lit " IS DISTINCT FROM "
op_text not_distinct = lit " IS NOT DISTINCT FROM "
op_text both = lit " AND "
op_text either = lit " OR "

-- What stands behind its one operand.
pub data Test : Type 0 where
  null not_null yes no : Test

abbrev pub test_text : Test → Text
test_text null = lit " IS NULL"
test_text not_null = lit " IS NOT NULL"
test_text yes = lit " IS TRUE"
test_text no = lit " IS FALSE"

-- BETWEEN, with AND in front of its third operand, and IN with a list; each may be negated.
pub data Range : Type 0 where
  inside outside : Range

abbrev pub range_text : Range → Text
range_text inside = lit " BETWEEN "
range_text outside = lit " NOT BETWEEN "

pub data Choice : Type 0 where
  among not_among : Choice

abbrev pub choice_text : Choice → Text
choice_text among = lit " IN ("
choice_text not_among = lit " NOT IN ("

-- What may follow an operand.
pub data Tail : Type 0 where
  joining : Op → Tail
  testing : Test → Tail
  spanning : Range → Tail
  choosing : Choice → Tail
  indexing : Tail

abbrev pub tail_level : Tail → OperatorPrecedence
tail_level (joining op) = level op
tail_level (testing t) = is
tail_level (spanning r) = between
tail_level (choosing c) = between
tail_level indexing = index

abbrev pub tail_text : Tail → Text
tail_text (joining op) = op_text op
tail_text (testing t) = test_text t
tail_text (spanning r) = range_text r
tail_text (choosing c) = choice_text c
tail_text indexing = lit "["

-- Unary minus and NOT.
pub data Prefix : Type 0 where
  sign negation : Prefix

abbrev pub prefix_level : Prefix → OperatorPrecedence
prefix_level sign = unary_plus
prefix_level negation = OperatorPrecedence.not

abbrev pub prefix_text : Prefix → Text
prefix_text sign = lit "-"
prefix_text negation = lit "NOT "

mutual
  pub data Tree : Type 0 where
    name : Text → Tree
    literal : Text → Tree
    identifier : Text → Tree
    called : Text → Trees → Tree
    prefixed : Prefix → Tree → Tree
    binary : Op → Tree → Tree → Tree
    tested : Test → Tree → Tree
    ranged : Range → Tree → Tree → Tree → Tree
    chosen : Choice → Tree → Trees → Tree
    indexed : Tree → Tree → Tree

  pub data Trees : Type 0 where
    empty : Trees
    more : Tree → Trees → Trees
