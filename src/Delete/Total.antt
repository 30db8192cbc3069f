-- ===== src/Delete/Total.antt =====
-- When a chain of calls on a DeleteFrom returns (src/delete_from.cpp).
use iron_query.Prelude.{ℕ, suc, ◌+◌, ◌≤◌, Text, ◌≡◌, refl, List, [], ◌∷◌, arith}
use iron_query.Exception.{Result, ok, err, IsOk}
use iron_query.Expr.{condition_to_string}
use iron_query.Clause.{join_csv, render_items}
use iron_query.Clause.Gathered.{filled, filled_bound, filled-free}
use iron_query.VirtualTable.{VirtualTable}
use iron_query.Table.{Table}
use iron_query.Delete.{DeleteFrom, delete_from}
use iron_query.Delete.Calls.{Call, using, where_clause, returning, apply, run}

-- How often a chain calls Using, Where and Returning.
abbrev pub usings : List Call → ℕ
usings [] = 0
usings (using _ ∷ calls) = suc (usings calls)
usings (_ ∷ calls) = usings calls

abbrev pub wheres : List Call → ℕ
wheres [] = 0
wheres (where_clause _ ∷ calls) = suc (wheres calls)
wheres (_ ∷ calls) = wheres calls

abbrev pub returnings : List Call → ℕ
returnings [] = 0
returnings (returning _ ∷ calls) = suc (returnings calls)
returnings (_ ∷ calls) = returnings calls

-- Every table behind USING may stand there.
abbrev pub Renders : List Call → Type 0
Renders [] = Unit
Renders (using tbl ∷ calls) = IsOk tbl.to_string_as_from_item × Renders calls
Renders (_ ∷ calls) = Renders calls

-- No clause is set twice.
pub record Once (f w r : ℕ) (calls : List Call) : Type 0 where
  pub one_using : f + usings calls ≤ 1
  pub one_where : w + wheres calls ≤ 1
  pub one_returning : r + returnings calls ≤ 1

abbrev OnceFor : DeleteFrom → List Call → Type 0
OnceFor q calls = Once (filled q.using_) (filled q.where_) (filled q.returning_) calls

using-free :
    (tbl : VirtualTable) (q : DeleteFrom)
    → q.using_ ≡ []
    → IsOk tbl.to_string_as_from_item
    → (s : Text) × (apply (using tbl) q ≡ ok (record q { using_ = s }))
unfolding apply
using-free tbl q free h = go tbl.to_string_as_from_item refl h
  where
    go :
        (r : Result Text)
        → tbl.to_string_as_from_item ≡ r
        → IsOk r
        → (s : Text) × (apply (using tbl) q ≡ ok (record q { using_ = s }))
    go (ok s) e x = (s, unfold apply in rw (e, free) refl)
    go (err y) e x = absurd x

where-free :
    (q : DeleteFrom) (c : _)
    → q.where_ ≡ []
    → apply (where_clause c) q ≡ ok (record q { where_ = condition_to_string c })
unfolding apply
where-free q c free = rw free refl

returning-free :
    (q : DeleteFrom) (items : _)
    → q.returning_ ≡ []
    → apply (returning items) q ≡ ok (record q { returning_ = join_csv (render_items items) })
unfolding apply
returning-free q items free = rw free refl

run-IsOk_of_apply :
    (call : Call) (calls : List Call) (q r : DeleteFrom)
    → apply call q ≡ ok r
    → IsOk (run calls r)
    → IsOk (run (call ∷ calls) q)
unfolding run
run-IsOk_of_apply call calls q r e h = rw e h

run_total :
    (calls : List Call) (q : DeleteFrom) → OnceFor q calls → Renders calls → IsOk (run calls q)
run_total [] q once h = unfold run in tt
run_total (using tbl ∷ calls) q once (item, h) =
    let (s, e) = using-free tbl q (filled-free q.using_ (usings calls) once.one_using) item in
    run-IsOk_of_apply (using tbl) calls q (record q { using_ = s }) e
      (run_total calls (record q { using_ = s })
        (record {
          one_using = omega (arith, once.one_using, filled_bound s);
          one_where = once.one_where;
          one_returning = once.one_returning;
        })
        h)
run_total (where_clause c ∷ calls) q once h =
    run-IsOk_of_apply (where_clause c) calls q _
      (where-free q c (filled-free q.where_ (wheres calls) once.one_where))
      (run_total calls (record q { where_ = condition_to_string c })
        (record {
          one_using = once.one_using;
          one_where = omega (arith, once.one_where, filled_bound (condition_to_string c));
          one_returning = once.one_returning;
        })
        h)
run_total (returning items ∷ calls) q once h =
    run-IsOk_of_apply (returning items) calls q _
      (returning-free q items (filled-free q.returning_ (returnings calls) once.one_returning))
      (run_total calls (record q { returning_ = join_csv (render_items items) })
        (record {
          one_using = once.one_using;
          one_where = once.one_where;
          one_returning =
              omega (arith, once.one_returning, filled_bound (join_csv (render_items items)));
        })
        h)

-- On a fresh builder the chain returns, if it sets no clause twice and its USING items may stand there.
pub run-delete_from_total :
    (tbl : Table) (calls : List Call)
    → Once 0 0 0 calls
    → Renders calls
    → IsOk (run calls (delete_from tbl))
unfolding delete_from
run-delete_from_total tbl calls once h = run_total calls (delete_from tbl) once h
