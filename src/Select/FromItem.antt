-- ===== src/Select/FromItem.antt =====
-- What stands behind FROM (src/select_expr.cpp, src/virtual_table.cpp): a subquery wants an alias.
use iron_query.Prelude.{ap, append_assoc, none, false, Text, lit, ◌≡◌, refl, [], ◌∷◌, ◌++◌}
use iron_query.Exception.{Result, ok, err, logic_error, ◌>>=◌, ◌>>◌}
use iron_query.Identifier.{validate_identifier}
use iron_query.VirtualTable.{VirtualTable, default_bracketed}
use iron_query.SetOp
use iron_query.SetOp.{SetOp, set_op_table}
use iron_query.With
use iron_query.With.{WithQuery, with_table}
use iron_query.Delete
use iron_query.Delete.{DeleteFrom, delete_table}
use iron_query.Join
use iron_query.Join.{Join, join_table}
use iron_query.Table
use iron_query.Table.{Table, table, as_table}
use iron_query.Select
use iron_query.Select.{SelectExpr, from, select_table}

-- The builders whose text is a query, by what they hold.
pub data Subquery : Type 0 where
  select_query : SelectExpr → Subquery
  set_query : SetOp → Subquery
  with_query : WithQuery → Subquery
  delete_query : DeleteFrom → Subquery

abbrev pub query_table : Subquery → VirtualTable
query_table (select_query q) = select_table q
query_table (set_query u) = set_op_table u
query_table (with_query w) = with_table w
query_table (delete_query d) = delete_table d

-- What ToString gives for each.
abbrev pub query_text : Subquery → Result Text
query_text (select_query q) = Select.to_string q
query_text (set_query u) = ok (SetOp.to_string u)
query_text (with_query w) = ok (With.to_string w)
query_text (delete_query d) = Delete.to_string d

-- A SELECT of which FROM alone is set.
abbrev pub only_from : Text → SelectExpr
only_from item = record {
  distinct_ = false;
  distinct_on_ = none;
  from_ = item;
  select_ = none;
  where_ = none;
  group_by_ = none;
  having_ = none;
  order_by_ = none;
  limit_ = none;
  offset_ = none;
}

-- The alias is looked at before the query is rendered; `text` is the query's own.
abbrev pub aliased : Text → Result Text → Result SelectExpr
aliased alias text = do
  validate_identifier alias
  s ← text
  ok (only_from (b'(' ∷ (s ++ (b')' ∷ (lit " AS " ++ alias)))))

bracketed_alias :
    (s alias : Text)
    → (b'(' ∷ (s ++ b')' ∷ [])) ++ lit " AS " ++ alias
      ≡ b'(' ∷ (s ++ (b')' ∷ (lit " AS " ++ alias)))
unfolding lit
bracketed_alias s alias = simp append_assoc

from-aliased :
    (v : VirtualTable) (alias : Text) (text : Result Text)
    → v.to_string_bracketed ≡ default_bracketed text
    → (do u ← as_table v alias; from (table u)) ≡ aliased alias text
unfolding as_table from table Table.to_string Table.from_raw
from-aliased v alias text h = rw h (go (validate_identifier alias) text)
  where
    go :
        (valid : Result (Unit {0})) (r : Result Text)
        → (do
          u ← (do valid; s ← default_bracketed r; ok (Table.from_raw (s ++ lit " AS " ++ alias)))
          from (table u))
          ≡ (do valid; s ← r; ok (only_from (b'(' ∷ (s ++ (b')' ∷ (lit " AS " ++ alias))))))
    go (err e) r = refl
    go (ok u) (err e) = refl
    go (ok u) (ok s) = ap (λ x. ok (only_from x)) (bracketed_alias s alias)

-- From takes a Table and a Join by their texts. It refuses every SELECT, set operation, WITH query and
-- DELETE; once As gives it an alias, From takes it as its text in parentheses, AS and the alias,
-- and else throws what As throws: what an alias that is no identifier throws, or if it is one what
-- the query's own ToString throws.
pub from-as_table :
    (k : Subquery) (t : Table) (j : Join) (alias : Text)
    → (from (table t) ≡ ok (only_from (Table.to_string t)))
      × (from (join_table j) ≡ ok (only_from (Join.to_string j)))
      × (from (query_table k)
          ≡ err (logic_error (lit "this FROM item requires an alias; use As()")))
      × ((do u ← as_table (query_table k) alias; from (table u)) ≡ aliased alias (query_text k))
unfolding from table join_table select_table set_op_table with_table delete_table
from-as_table k t j alias =
    (refl, refl, refused k, from-aliased (query_table k) alias (query_text k) (brackets k))
  where
    refused :
        (k : Subquery)
        → from (query_table k)
          ≡ err (logic_error (lit "this FROM item requires an alias; use As()"))
    refused (select_query q) = refl
    refused (set_query u) = refl
    refused (with_query w) = refl
    refused (delete_query d) = refl

    brackets :
        (k : Subquery) → (query_table k).to_string_bracketed ≡ default_bracketed (query_text k)
    brackets (select_query q) = refl
    brackets (set_query u) = refl
    brackets (with_query w) = refl
    brackets (delete_query d) = refl
