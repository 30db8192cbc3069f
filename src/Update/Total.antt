-- ===== src/Update/Total.antt =====
-- When a chain of calls on an Update returns (src/update.cpp).
use iron_query.Prelude.{ℕ, suc, ◌+◌, ◌≤◌, Text, ◌≡◌, refl, List, [], ◌∷◌, arith}
use iron_query.Exception.{Result, ok, err, IsOk}
use iron_query.Expr.{condition_to_string}
use iron_query.Clause.{join_csv, render_items}
use iron_query.Clause.Gathered.{filled, filled_bound, filled-free}
use iron_query.VirtualTable.{VirtualTable}
use iron_query.Update
use iron_query.Table.{Table}
use iron_query.Update.{Update, update}
use iron_query.Update.Calls.{Call, set, from, where_clause, returning, apply, run}

-- How often a chain calls From, Where and Returning.
abbrev pub froms : List Call → ℕ
froms [] = 0
froms (from _ ∷ calls) = suc (froms calls)
froms (_ ∷ calls) = froms calls

abbrev pub wheres : List Call → ℕ
wheres [] = 0
wheres (where_clause _ ∷ calls) = suc (wheres calls)
wheres (_ ∷ calls) = wheres calls

abbrev pub returnings : List Call → ℕ
returnings [] = 0
returnings (returning _ ∷ calls) = suc (returnings calls)
returnings (_ ∷ calls) = returnings calls

-- Every table behind FROM may stand there.
abbrev pub Renders : List Call → Type 0
Renders [] = Unit
Renders (from tbl ∷ calls) = IsOk tbl.to_string_as_from_item × Renders calls
Renders (_ ∷ calls) = Renders calls

-- No clause is set twice.
pub record Once (f w r : ℕ) (calls : List Call) : Type 0 where
  pub one_from : f + froms calls ≤ 1
  pub one_where : w + wheres calls ≤ 1
  pub one_returning : r + returnings calls ≤ 1

abbrev OnceFor : Update → List Call → Type 0
OnceFor q calls = Once (filled q.from_) (filled q.where_) (filled q.returning_) calls

from-free :
    (tbl : VirtualTable) (q : Update)
    → q.from_ ≡ []
    → IsOk tbl.to_string_as_from_item
    → (s : Text) × (apply (from tbl) q ≡ ok (record q { from_ = s }))
unfolding apply
from-free tbl q free h = go tbl.to_string_as_from_item refl h
  where
    go :
        (r : Result Text)
        → tbl.to_string_as_from_item ≡ r
        → IsOk r
        → (s : Text) × (apply (from tbl) q ≡ ok (record q { from_ = s }))
    go (ok s) e x = (s, unfold apply in rw (e, free) refl)
    go (err y) e x = absurd x

where-free :
    (q : Update) (c : _)
    → q.where_ ≡ []
    → apply (where_clause c) q ≡ ok (record q { where_ = condition_to_string c })
unfolding apply
where-free q c free = rw free refl

returning-free :
    (q : Update) (items : _)
    → q.returning_ ≡ []
    → apply (returning items) q ≡ ok (record q { returning_ = join_csv (render_items items) })
unfolding apply
returning-free q items free = rw free refl

run-IsOk_of_apply :
    (call : Call) (calls : List Call) (q r : Update)
    → apply call q ≡ ok r
    → IsOk (run calls r)
    → IsOk (run (call ∷ calls) q)
unfolding run
run-IsOk_of_apply call calls q r e h = rw e h

set-applied :
    (column value : _) (q : Update) → apply (set column value) q ≡ ok (Update.set column value q)
unfolding apply
set-applied column value q = refl

set-fields :
    (column value : _) (q : Update) (calls : List Call)
    → OnceFor q (set column value ∷ calls)
    → OnceFor (Update.set column value q) calls
unfolding Update.set
set-fields column value q calls once = record {
  one_from = once.one_from;
  one_where = once.one_where;
  one_returning = once.one_returning;
}

run_total : (calls : List Call) (q : Update) → OnceFor q calls → Renders calls → IsOk (run calls q)
run_total [] q once h = unfold run in tt
run_total (set column value ∷ calls) q once h =
    run-IsOk_of_apply (set column value) calls q (Update.set column value q)
      (set-applied column value q)
      (run_total calls (Update.set column value q) (set-fields column value q calls once) h)
run_total (from tbl ∷ calls) q once (item, h) =
    let (s, e) = from-free tbl q (filled-free q.from_ (froms calls) once.one_from) item in
    run-IsOk_of_apply (from tbl) calls q (record q { from_ = s }) e
      (run_total calls (record q { from_ = s })
        (record {
          one_from = omega (arith, once.one_from, filled_bound s);
          one_where = once.one_where;
          one_returning = once.one_returning;
        })
        h)
run_total (where_clause c ∷ calls) q once h =
    run-IsOk_of_apply (where_clause c) calls q _
      (where-free q c (filled-free q.where_ (wheres calls) once.one_where))
      (run_total calls (record q { where_ = condition_to_string c })
        (record {
          one_from = once.one_from;
          one_where = omega (arith, once.one_where, filled_bound (condition_to_string c));
          one_returning = once.one_returning;
        })
        h)
run_total (returning items ∷ calls) q once h =
    run-IsOk_of_apply (returning items) calls q _
      (returning-free q items (filled-free q.returning_ (returnings calls) once.one_returning))
      (run_total calls (record q { returning_ = join_csv (render_items items) })
        (record {
          one_from = once.one_from;
          one_where = once.one_where;
          one_returning =
              omega (arith, once.one_returning, filled_bound (join_csv (render_items items)));
        })
        h)

-- On a fresh builder the chain returns, if it sets no clause twice and its FROM items may stand there.
pub run-update_total :
    (tbl : Table) (calls : List Call)
    → Once 0 0 0 calls
    → Renders calls
    → IsOk (run calls (update tbl))
unfolding update
run-update_total tbl calls once h = run_total calls (update tbl) once h
