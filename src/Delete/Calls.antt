-- ===== src/Delete/Calls.antt =====
-- What a chain of calls on a DeleteFrom leaves in its fields (src/delete_from.cpp).
use iron_query.Prelude.{Text, ◌≡◌, sym, ap, ◌∙◌, List, [], ◌∷◌, ◌++◌, append-nil, arith}
use iron_query.Exception.{Result, ok, ◌>>=◌, >>=-eq-ok}
use iron_query.VirtualTable.{VirtualTable}
use iron_query.Expr.{Condition, SelectItem, condition_to_string}
use iron_query.Clause.{join_csv, render_items}
use iron_query.Clause.Gathered.{gathered, gathered-step, shown}
use iron_query.Delete
use iron_query.Delete.{DeleteFrom, delete_from, to_string}

-- One call of a setter.
pub data Call : Type 0 where
  using : VirtualTable → Call
  where_clause : Condition → Call
  returning : List SelectItem → Call

unfoldable pub apply : Call → DeleteFrom → Result DeleteFrom
unfolding Delete.using Delete.where_clause Delete.returning
apply (using tbl) q = Delete.using tbl q
apply (where_clause c) q = Delete.where_clause c q
apply (returning items) q = Delete.returning items q

unfoldable pub run : List Call → DeleteFrom → Result DeleteFrom
run [] q = ok q
run (call ∷ calls) q = do r ← apply call q; run calls r

abbrev pub using_of : Call → Text
using_of (using tbl) = shown tbl.to_string_as_from_item
using_of _ = []

abbrev pub where_of : Call → Text
where_of (where_clause c) = condition_to_string c
where_of _ = []

abbrev pub returning_of : Call → Text
returning_of (returning items) = join_csv (render_items items)
returning_of _ = []

abbrev pub Became : DeleteFrom → List Call → DeleteFrom → Type 0
Became q calls r =
    (r.from_ ≡ q.from_)
    × (r.using_ ≡ q.using_ ++ gathered using_of calls)
    × (r.where_ ≡ q.where_ ++ gathered where_of calls)
    × (r.returning_ ≡ q.returning_ ++ gathered returning_of calls)

apply-fields :
    (call : Call) (q : DeleteFrom) {r : DeleteFrom}
    → apply call q ≡ ok r
    → (r.from_ ≡ q.from_)
      × (r.using_ ≡ q.using_ ++ using_of call)
      × (r.where_ ≡ q.where_ ++ where_of call)
      × (r.returning_ ≡ q.returning_ ++ returning_of call)
unfolding apply
apply-fields (using tbl) q h =
    ground (arith, append-nil q.using_, append-nil q.where_, append-nil q.returning_)
apply-fields _ q h =
    ground (arith, append-nil q.using_, append-nil q.where_, append-nil q.returning_)

run-cons :
    (call : Call) (calls : List Call) (q : DeleteFrom) {t : DeleteFrom}
    → run (call ∷ calls) q ≡ ok t
    → (r : DeleteFrom) × (apply call q ≡ ok r) × (run calls r ≡ ok t)
unfolding run
run-cons call calls q h = >>=-eq-ok (apply call q) (run calls) h

run-nil : (q : DeleteFrom) {t : DeleteFrom} → run [] q ≡ ok t → q ≡ t
unfolding run
run-nil q h = cc

pub run-Became :
    (calls : List Call) (q : DeleteFrom) {t : DeleteFrom} → run calls q ≡ ok t → Became q calls t
run-Became [] q {t} h =
    let same = run-nil q h in
    (
      ap DeleteFrom.from_ (sym same),
      ap DeleteFrom.using_ (sym same) ∙ sym (append-nil q.using_),
      ap DeleteFrom.where_ (sym same) ∙ sym (append-nil q.where_),
      ap DeleteFrom.returning_ (sym same) ∙ sym (append-nil q.returning_),
    )
run-Became (call ∷ calls) q h =
    let (r, ha, hr) = run-cons call calls q h in
    let (f, u, w, g) = apply-fields call q ha in
    let (f', u', w', g') = run-Became calls r hr in
    (
      f' ∙ f,
      gathered-step using_of call calls q.using_ u u',
      gathered-step where_of call calls q.where_ w w',
      gathered-step returning_of call calls q.returning_ g g',
    )
