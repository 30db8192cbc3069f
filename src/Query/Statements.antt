-- ===== src/Query/Statements.antt =====
-- Statements as the calls of src/select_expr.cpp, src/table.cpp, src/join.cpp and src/set_op.cpp that
-- build them, over the values and predicates of Syntax.Values.
use iron_query.Prelude.{List, [], ◌∷◌, map, Option, none, some}
use iron_query.Exception.{Result, ok, ◌>>=◌}
use iron_query.VirtualTable.{VirtualTable}
use iron_query.Expr.{SelectItem, select_item}
use iron_query.Expr.Operators.{as_item}
use iron_query.OrderBy.{OrderByTerm}
use iron_query.Table.{from_raw, table, as_table}
use iron_query.Join.{Join, join, on, using, join_table}
use iron_query.SetOp.{set_op, set_op_table}
use iron_query.Select
use iron_query.Select.{SelectExpr, from, select_table}
use iron_query.Syntax.{Tree}
use iron_query.Syntax.Values.{Value, Predicate, build, build_condition, value_tree, predicate_tree}
use iron_query.Query.{
  Distinct, all_rows, distinct_rows, distinct_on, Item, Term, Ref, Qualifier, unqualified,
  on_condition, using_columns, Joined, Body, Query, from_table, from_query, combined, QueryTree,
}

abbrev pub Statement : Type 0
Statement = Query Value Predicate

module _ {A B : Type 0} where
  -- The calls of a braced list, in order.
  unfoldable pub build_each : (A → Result B) → List A → Result (List B)
  build_each make [] = ok []
  build_each make (a ∷ items) = do b ← make a; others ← build_each make items; ok (b ∷ others)

  -- A setter that is called if there is something to set.
  unfoldable pub set_if :
      (A → Result B)
      → (B → SelectExpr → Result SelectExpr)
      → Option A
      → SelectExpr
      → Result SelectExpr
  set_if make set none q = ok q
  set_if make set (some a) q = do b ← make a; set b q

unfoldable pub build_item : Item Value → Result SelectItem
build_item (v, none) = do e ← build v; ok (select_item e)
build_item (v, some alias) = do e ← build v; as_item e alias

unfoldable pub build_term : Term Value → Result OrderByTerm
build_term (v, direction, nulls) = do
  e ← build v
  ok (record { expr = e; direction = direction; nulls_order = nulls })

unfoldable pub build_ref : Ref → Result VirtualTable
build_ref (name, none) = ok (table (from_raw name))
build_ref (name, some alias) = do t ← as_table (table (from_raw name)) alias; ok (table t)

unfoldable pub qualified : Qualifier Value Predicate → Join → Result Join
unfolding build_each
qualified unqualified j = ok j
qualified (on_condition p) j = do c ← build_condition p; on c j
qualified (using_columns vs) j = do es ← build_each build vs; using es j

unfoldable pub build_source : Ref → Option (Joined Value Predicate) → Result VirtualTable
unfolding build_ref qualified
build_source ref none = build_ref ref
build_source ref (some (kind, right, condition)) = do
  a ← build_ref ref
  b ← build_ref right
  j ← join a b kind
  k ← qualified condition j
  ok (join_table k)

unfoldable pub set_distinct : Distinct Value → SelectExpr → Result SelectExpr
unfolding build_each
set_distinct all_rows q = ok q
set_distinct distinct_rows q = Select.distinct q
set_distinct (distinct_on vs) q = do es ← build_each build vs; Select.distinct_on es q

unfoldable pub set_body : Body Value Predicate → SelectExpr → Result SelectExpr
unfolding build_each set_if build_item build_term set_distinct
set_body b q = do
  q ← set_distinct b.distinct q
  items ← build_each build_item b.items
  q ← Select.select items q
  q ← set_if build_condition Select.where_clause b.condition q
  q ← set_if (build_each build) Select.group_by b.groups q
  q ← set_if build_condition Select.having b.having q
  q ← set_if (build_each build_term) Select.order_by b.orders q
  q ← set_if ok Select.limit b.limit q
  set_if ok Select.offset b.offset q

unfoldable pub build_query : Statement → Result VirtualTable
unfolding build_source set_body
build_query (from_table ref joined b) = do
  source ← build_source ref joined
  q ← from source
  q ← set_body b q
  ok (select_table q)
build_query (from_query inner alias b) = do
  v ← build_query inner
  t ← as_table v alias
  q ← from (table t)
  q ← set_body b q
  ok (select_table q)
build_query (combined kind left right) = do
  a ← build_query left
  b ← build_query right
  u ← set_op a b kind
  ok (set_op_table u)

-- The statement as a tree.
abbrev pub mapped {ℓ κ} : {A : Type ℓ} {B : Type κ} → (A → B) → Option A → Option B
mapped f none = none
mapped f (some a) = some (f a)

abbrev pub item_tree : Item Value → Item Tree
item_tree (v, alias) = (value_tree v, alias)

abbrev pub term_tree : Term Value → Term Tree
term_tree (v, direction, nulls) = (value_tree v, direction, nulls)

abbrev pub qualifier_tree : Qualifier Value Predicate → Qualifier Tree Tree
qualifier_tree unqualified = unqualified
qualifier_tree (on_condition p) = on_condition (predicate_tree p)
qualifier_tree (using_columns vs) = using_columns (map value_tree vs)

abbrev pub joined_tree : Joined Value Predicate → Joined Tree Tree
joined_tree (kind, right, qualifier) = (kind, right, qualifier_tree qualifier)

abbrev pub distinct_tree : Distinct Value → Distinct Tree
distinct_tree all_rows = all_rows
distinct_tree distinct_rows = distinct_rows
distinct_tree (distinct_on vs) = distinct_on (map value_tree vs)

abbrev pub body_tree : Body Value Predicate → Body Tree Tree
body_tree b = record {
  distinct = distinct_tree b.distinct;
  items = map item_tree b.items;
  condition = mapped predicate_tree b.condition;
  groups = mapped (map value_tree) b.groups;
  having = mapped predicate_tree b.having;
  orders = mapped (map term_tree) b.orders;
  limit = b.limit;
  offset = b.offset;
}

abbrev pub query_tree : Statement → QueryTree
query_tree (from_table ref joined b) = from_table ref (mapped joined_tree joined) (body_tree b)
query_tree (from_query q alias b) = from_query (query_tree q) alias (body_tree b)
query_tree (combined kind q r) = combined kind (query_tree q) (query_tree r)
