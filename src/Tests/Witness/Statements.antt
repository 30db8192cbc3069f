-- ===== src/Tests/Witness/Statements.antt =====
-- The theorems on SELECT, CASE and joins at concrete inputs.
use iron_query.Prelude.{
  ◌+◌, ◌≤◌, lit, ◌≡◌, ◌≢◌, ◌↔◌, refl, true, false, List, [], ◌∷◌, ◌++◌, none, some, pos,
}
use mathlib.Core.List.Permᴰ
use iron_query.Clause
use iron_query.Exception.{ok, err, logic_error, IsOk, ◌>>=◌}
use iron_query.Expr
use iron_query.Expr.{Expr, Condition, condition_from_raw}
use iron_query.Table
use iron_query.Table.{Table, table, as_table}
use iron_query.CaseBuilder
use iron_query.CaseBuilder.{CaseBuilder, case, end_case}
use iron_query.CaseBuilder.Completion.{run-end_case_after}
use iron_query.CaseBuilder.Protocol
use iron_query.CaseBuilder.Protocol.{
  Alternates, branch, branches, last_else, else_text, run-IsOk_iff, to_string-end_case,
  end_case-when,
}
use iron_query.Join
use iron_query.Join.{join_table, Join, join, inner, natural_inner, is_natural}
use iron_query.Join.Qualified
use iron_query.Join.Qualified.{
  Qualifier, qualify, qualifier_text, clause_text, IsQualified, join-run-IsQualified, qualify-once,
  to_string-qualify,
}
use iron_query.Select
use iron_query.Select.{SelectExpr, from, select_table}
use iron_query.Select.Order
use iron_query.Select.Order.{run-Perm}
use iron_query.Select.Clauses.{
  Clause, times_set, calls_of, select_clause, distinct_on_clause, run_iff, to_string_iff,
}
use iron_query.Select.Layout.{LeadsWithText, SameOutcome, to_string_formatted-layout}
use iron_query.Select.FromItem.{
  select_query, query_table, query_text, only_from, aliased, from-as_table,
}
use iron_query.Tests.Render.{raw, engine}

-- `SELECT x FROM users`, and the two calls that limit it.
abbrev pub users : Table
users = record { name_ = lit "users" }

abbrev pub selected : SelectExpr
selected = record {
  distinct_ = false;
  distinct_on_ = none;
  from_ = lit "users";
  select_ = some (Expr.select_item (raw "x") ∷ []);
  where_ = none;
  group_by_ = none;
  having_ = none;
  order_by_ = none;
  limit_ = none;
  offset_ = none;
}

abbrev limit_call : Order.Setter
limit_call = Order.limit (pos 10)

abbrev where_call : Order.Setter
where_call = Order.where_clause (condition_from_raw (lit "a"))

abbrev narrowed : SelectExpr
narrowed = record selected { where_ = some (condition_from_raw (lit "a")); limit_ = some (pos 10) }

run-Perm_example : Order.run (where_call ∷ limit_call ∷ []) selected ≡ ok narrowed
run-Perm_example =
    run-Perm {calls = limit_call ∷ where_call ∷ []} {calls' = where_call ∷ limit_call ∷ []} selected
      narrowed ∣ Permᴰ.swap refl refl ∣₁
      (unfold Order.run Order.apply Select.limit Select.where_clause in refl)

run_iff_example :
    (IsOk (Order.run (limit_call ∷ where_call ∷ []) selected)
      ↔ ((k : Clause) → times_set k selected + calls_of k (limit_call ∷ where_call ∷ []) ≤ 1))
    × (((t : SelectExpr) × (Order.run (limit_call ∷ where_call ∷ []) selected ≡ ok t)
          × ((k : Clause)
              → times_set k t ≡ times_set k selected + calls_of k (limit_call ∷ where_call ∷ [])))
        ↔ ((k : Clause) → times_set k selected + calls_of k (limit_call ∷ where_call ∷ []) ≤ 1))
run_iff_example = run_iff (limit_call ∷ where_call ∷ []) selected

to_string_iff_example : IsOk (Select.to_string narrowed) ↔ (
    (times_set select_clause narrowed ≡ 1)
    × (narrowed.from_ ≢ [])
    × ¬ ((narrowed.distinct_ ≡ true) × (times_set distinct_on_clause narrowed ≡ 1)))
to_string_iff_example = to_string_iff narrowed

narrowed-LeadsWithText : LeadsWithText narrowed
unfolding engine Clause.render_items Expr.item_to_string
narrowed-LeadsWithText = record { items = refl; groups = tt; orders = tt }

to_string_formatted-layout_example :
    SameOutcome (Select.to_string narrowed) (Select.to_string_formatted narrowed)
to_string_formatted-layout_example = to_string_formatted-layout narrowed narrowed-LeadsWithText

-- `users CROSS JOIN users`.
abbrev crossed : Join
crossed = record {
  a_ = lit "users";
  b_ = lit "users";
  kind_ = lit "CROSS";
  natural_ = false;
  on_ = [];
  using_ = [];
}

from-as_table_example :
    (from (table users) ≡ ok (only_from (Table.to_string users)))
    × (from (join_table crossed) ≡ ok (only_from (Join.to_string crossed)))
    × (from (query_table (select_query selected))
        ≡ err (logic_error (lit "this FROM item requires an alias; use As()")))
    × ((do u ← as_table (query_table (select_query selected)) (lit "s"); from (table u))
        ≡ aliased (lit "s") (query_text (select_query selected)))
from-as_table_example = from-as_table (select_query selected) users crossed (lit "s")

-- `CASE WHEN a THEN x ELSE y END`.
abbrev case_calls : List Protocol.Call
case_calls =
    Protocol.when (condition_from_raw (lit "a"))
    ∷ Protocol.then_result (raw "x")
    ∷ Protocol.else_result (raw "y")
    ∷ []

run-IsOk_iff_example : IsOk (Protocol.run case_calls case) ↔ Alternates false case_calls
run-IsOk_iff_example = run-IsOk_iff case_calls

to_string-end_case_example :
    (e : Expr) × ((Protocol.run case_calls case >>= end_case) ≡ ok e)
    × (Expr.to_string e
        ≡ lit "CASE "
          ++ (branches [] case_calls ++ (else_text (last_else [] case_calls) ++ lit "END")))
to_string-end_case_example = to_string-end_case case_calls tt (unfold lit in cc)

-- `CASE WHEN a THEN x ELSE y`, with a second condition that waits.
abbrev open_calls : List Protocol.Call
open_calls = case_calls ++ Protocol.when (condition_from_raw (lit "c")) ∷ []

run-end_case_after_example :
    (more : List Protocol.Call) × (e : Expr) × ((Protocol.run (open_calls ++ more) case
        >>= end_case)
      ≡ ok e)
    × (Expr.to_string e
        ≡ lit "CASE "
          ++ ((branches [] open_calls ++ branch (lit "c") (Expr.to_string (raw "z")))
              ++ (else_text (last_else [] open_calls) ++ lit "END")))
run-end_case_after_example =
    unfold engine in
    run-end_case_after open_calls (condition_from_raw (lit "b")) (raw "z")
      ((run-IsOk_iff open_calls).1 tt)

-- A branch is complete, and a second condition waits.
abbrev one_branch : CaseBuilder
one_branch = record {
  whens_ = lit "WHEN a THEN x ";
  pending_when_ = lit "a";
  else_ = [];
  has_pending_when_ = false;
}

abbrev waiting : CaseBuilder
waiting = record one_branch { has_pending_when_ = true }

end_case-when_example : end_case waiting ≡ end_case one_branch
end_case-when_example =
    end_case-when (condition_from_raw (lit "a")) one_branch {d = waiting}
      (unfold engine CaseBuilder.when in refl)

-- `users INNER JOIN users`, ON a.
abbrev unqualified : Join
unqualified = record {
  a_ = lit "users";
  b_ = lit "users";
  kind_ = lit "INNER";
  natural_ = false;
  on_ = [];
  using_ = [];
}

abbrev qualified : Join
qualified = record unqualified { on_ = lit "a" }

abbrev on_call : Qualifier
on_call = Qualified.on (condition_from_raw (lit "a"))

on_call_qualifies : qualify on_call unqualified ≡ ok qualified
unfolding engine qualify Join.on
on_call_qualifies = refl

join-run-IsQualified_example : IsQualified qualified × (qualified.natural_ ≡ is_natural inner)
join-run-IsQualified_example =
    join-run-IsQualified (table users) (table users) inner (on_call ∷ []) {j = unqualified}
      {k = qualified} (unfold engine join table in refl)
      (unfold Qualified.run in rw on_call_qualifies)
