-- ===== src/Userver.antt =====
-- include/iron_query/userver.hpp: a builder's text as a query of the userver framework, whose class
-- is the parameter.
use iron_query.Prelude.{Text}
use iron_query.Exception.{Result, ok, ◌>>=◌}
use iron_query.Select
use iron_query.Select.{SelectExpr}
use iron_query.SetOp
use iron_query.SetOp.{SetOp}
use iron_query.With
use iron_query.With.{WithQuery}
use iron_query.Insert
use iron_query.Insert.{InsertInto}
use iron_query.Update
use iron_query.Update.{Update}
use iron_query.Delete
use iron_query.Delete.{DeleteFrom}

-- What the template asks of its Builder.
pub record Builder (B : Type 0) : Type 0 where
  pub to_string : B → Result Text

instance abbrev pub select_builder : Builder SelectExpr
unfolding Select.to_string
select_builder = record { to_string = Select.to_string }

instance abbrev pub set_op_builder : Builder SetOp
unfolding SetOp.to_string
set_op_builder = record { to_string = λ q. ok (SetOp.to_string q) }

instance abbrev pub with_builder : Builder WithQuery
unfolding With.to_string
with_builder = record { to_string = λ q. ok (With.to_string q) }

instance abbrev pub insert_builder : Builder InsertInto
unfolding Insert.to_string
insert_builder = record { to_string = Insert.to_string }

instance abbrev pub update_builder : Builder Update
unfolding Update.to_string
update_builder = record { to_string = Update.to_string }

instance abbrev pub delete_builder : Builder DeleteFrom
unfolding Delete.to_string
delete_builder = record { to_string = Delete.to_string }

-- storages::Query: its type Q, the type N of its names and the type L of its log modes.
pub record QueryClass (Q N L : Type 0) : Type 0 where
  pub query : Text → N → L → Q
  pub full : L

module _ {Q N L : Type 0} (storages : QueryClass Q N L) {B : Type 0} ⦃b : Builder B⦄ where
  abbrev pub to_query_logged : B → N → L → Result Q
  to_query_logged builder name log_mode = do
    s ← b.to_string builder
    ok (storages.query s name log_mode)

  -- The log mode left to its default.
  abbrev pub to_query : B → N → Result Q
  to_query builder name = to_query_logged builder name storages.full
