-- ===== src/Syntax/Values.antt =====
-- Expressions and conditions as the calls of src/expr.cpp and src/condition.cpp that build them.
use iron_query.Prelude.{Text, List, [], ◌∷◌}
use iron_query.Exception.{Result, ok, ◌>>=◌}
use iron_query.Precedence.{symbol}
use iron_query.Expr
use iron_query.Expr.{Expr, Condition, from_raw, to_expr}
use iron_query.Expr.Literal
use iron_query.Expr.Call
use iron_query.Expr.Operators
use iron_query.Expr.Predicates
use iron_query.Syntax.{
  Op, Test, Range, Choice, Tree, Trees, name, literal, identifier, called, prefixed, sign, negation,
  binary, tested, ranged, chosen, indexed, empty, more,
}

pub data Arithmetic : Type 0 where
  power multiply divide modulo add subtract concat : Arithmetic

pub data Comparison : Type 0 where
  lt le gt ge eq ne : Comparison

pub data Matching : Type 0 where
  like not_like ilike not_ilike similar_to not_similar_to distinct not_distinct : Matching

-- The calls that make a value and a predicate. The list of IN is given with its first value.
mutual
  pub data Value : Type 0 where
    column : Text → Value
    text_value : Text → Value
    quoted_name : Text → Value
    apply : Arithmetic → Value → Value → Value
    member : Value → Value → Value
    subscript : Value → Value → Value
    function : Text → Values → Value
    opposite : Value → Value
    complement : Value → Value
    truth : Predicate → Value

  pub data Values : Type 0 where
    no_values : Values
    value_and : Value → Values → Values

  pub data Predicate : Type 0 where
    compare : Comparison → Value → Value → Predicate
    matching : Matching → Value → Value → Predicate
    test : Test → Value → Predicate
    between : Range → Value → Value → Value → Predicate
    one_of : Choice → Value → Value → Values → Predicate
    both : Predicate → Predicate → Predicate
    either : Predicate → Predicate → Predicate
    neither : Predicate → Predicate

unfoldable pub operate : Arithmetic → Expr → Expr → Result Expr
unfolding Operators.power Operators.multiply Operators.divide Operators.modulo Operators.add
    Operators.subtract Operators.concat
operate power a b = Operators.power a b
operate multiply a b = Operators.multiply a b
operate divide a b = Operators.divide a b
operate modulo a b = Operators.modulo a b
operate add a b = Operators.add a b
operate subtract a b = Operators.subtract a b
operate concat a b = Operators.concat a b

unfoldable pub compared : Comparison → Expr → Expr → Condition
unfolding Predicates.lt Predicates.le Predicates.gt Predicates.ge Predicates.eq Predicates.ne
compared lt a b = Predicates.lt a b
compared le a b = Predicates.le a b
compared gt a b = Predicates.gt a b
compared ge a b = Predicates.ge a b
compared eq a b = Predicates.eq a b
compared ne a b = Predicates.ne a b

unfoldable pub matched : Matching → Expr → Expr → Condition
unfolding Predicates.like Predicates.not_like Predicates.ilike Predicates.not_ilike
    Predicates.similar_to Predicates.not_similar_to Predicates.is_distinct_from
    Predicates.is_not_distinct_from
matched like a b = Predicates.like a b
matched not_like a b = Predicates.not_like a b
matched ilike a b = Predicates.ilike a b
matched not_ilike a b = Predicates.not_ilike a b
matched similar_to a b = Predicates.similar_to a b
matched not_similar_to a b = Predicates.not_similar_to a b
matched distinct a b = Predicates.is_distinct_from a b
matched not_distinct a b = Predicates.is_not_distinct_from a b

unfoldable pub examined : Test → Expr → Condition
unfolding Predicates.is_null Predicates.is_not_null Predicates.is_true Predicates.is_false
examined Test.null a = Predicates.is_null a
examined Test.not_null a = Predicates.is_not_null a
examined Test.yes a = Predicates.is_true a
examined Test.no a = Predicates.is_false a

unfoldable pub bounded : Range → Expr → Expr → Expr → Condition
unfolding Predicates.between_and Predicates.not_between
bounded Range.inside a b c = Predicates.between_and a b c
bounded Range.outside a b c = Predicates.not_between a b c

unfoldable pub selected : Choice → Expr → List Expr → Result Condition
unfolding Predicates.in_list Predicates.not_in_list
selected Choice.among a es = Predicates.in_list a es
selected Choice.not_among a es = Predicates.not_in_list a es

-- The expression that the calls give.
unfoldable mutual
  pub build : Value → Result Expr
  build (column w) = ok (from_raw w symbol)
  build (text_value s) = Literal.literal s
  build (quoted_name s) = Literal.ident s
  build (apply op a b) = do x ← build a; y ← build b; operate op x y
  build (member a b) = do x ← build a; y ← build b; ok (Operators.dot_expr x y)
  build (subscript a b) = do x ← build a; y ← build b; ok (Operators.at_index x y)
  build (function f vs) = do es ← build_list vs; Call.call f es
  build (opposite a) = do x ← build a; ok (Operators.minus x)
  build (complement a) = do x ← build a; ok (Operators.negation x)
  build (truth p) = do c ← build_condition p; ok (to_expr c)

  pub build_list : Values → Result (List Expr)
  build_list no_values = ok []
  build_list (value_and v vs) = do e ← build v; es ← build_list vs; ok (e ∷ es)

  pub build_condition : Predicate → Result Condition
  build_condition (compare op a b) = do x ← build a; y ← build b; ok (compared op x y)
  build_condition (matching op a b) = do x ← build a; y ← build b; ok (matched op x y)
  build_condition (test t a) = do x ← build a; ok (examined t x)
  build_condition (between r a b c) = do x ← build a; y ← build b; z ← build c; ok (bounded r x y z)
  build_condition (one_of c a v vs) = do
    x ← build a
    e ← build v
    es ← build_list vs
    selected c x (e ∷ es)
  build_condition (both p q) = do
    c ← build_condition p
    d ← build_condition q
    ok (Expr.and_also c d)
  build_condition (either p q) = do
    c ← build_condition p
    d ← build_condition q
    ok (Expr.or_else c d)
  build_condition (neither p) = do c ← build_condition p; ok (Expr.negate c)

abbrev pub arithmetic_op : Arithmetic → Op
arithmetic_op power = Op.power
arithmetic_op multiply = Op.multiply
arithmetic_op divide = Op.divide
arithmetic_op modulo = Op.modulo
arithmetic_op add = Op.add
arithmetic_op subtract = Op.subtract
arithmetic_op concat = Op.concat

abbrev pub comparison_op : Comparison → Op
comparison_op lt = Op.lt
comparison_op le = Op.le
comparison_op gt = Op.gt
comparison_op ge = Op.ge
comparison_op eq = Op.eq
comparison_op ne = Op.ne

abbrev pub matching_op : Matching → Op
matching_op like = Op.like
matching_op not_like = Op.not_like
matching_op ilike = Op.ilike
matching_op not_ilike = Op.not_ilike
matching_op similar_to = Op.similar_to
matching_op not_similar_to = Op.not_similar_to
matching_op distinct = Op.distinct
matching_op not_distinct = Op.not_distinct

abbrev mutual
  pub value_tree : Value → Tree
  value_tree (column w) = name w
  value_tree (text_value s) = literal s
  value_tree (quoted_name s) = identifier s
  value_tree (apply op a b) = binary (arithmetic_op op) (value_tree a) (value_tree b)
  value_tree (member a b) = binary Op.member (value_tree a) (value_tree b)
  value_tree (subscript a b) = indexed (value_tree a) (value_tree b)
  value_tree (function f vs) = called f (values_trees vs)
  value_tree (opposite a) = prefixed sign (value_tree a)
  value_tree (complement a) = prefixed negation (value_tree a)
  value_tree (truth p) = predicate_tree p

  pub values_trees : Values → Trees
  values_trees no_values = empty
  values_trees (value_and v vs) = more (value_tree v) (values_trees vs)

  pub predicate_tree : Predicate → Tree
  predicate_tree (compare op a b) = binary (comparison_op op) (value_tree a) (value_tree b)
  predicate_tree (matching op a b) = binary (matching_op op) (value_tree a) (value_tree b)
  predicate_tree (test t a) = tested t (value_tree a)
  predicate_tree (between r a b c) = ranged r (value_tree a) (value_tree b) (value_tree c)
  predicate_tree (one_of c a v vs) = chosen c (value_tree a) (more (value_tree v) (values_trees vs))
  predicate_tree (both p q) = binary Op.both (predicate_tree p) (predicate_tree q)
  predicate_tree (either p q) = binary Op.either (predicate_tree p) (predicate_tree q)
  predicate_tree (neither p) = prefixed negation (predicate_tree p)
