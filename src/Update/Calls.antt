-- ===== src/Update/Calls.antt =====
-- What a chain of calls on an Update leaves in its fields (src/update.cpp).
use iron_query.Prelude.{
  Text, lit, is_empty, following, intercalate, if◌then◌else◌, not, ◌≡◌, ◌≢◌, refl, sym, ap, ◌∙◌,
  List, [], ◌∷◌, ◌++◌, append_assoc, append-nil, arith,
}
use iron_query.Exception.{Result, ok, ◌>>=◌, >>=-eq-ok}
use iron_query.VirtualTable.{VirtualTable}
use iron_query.Expr
use iron_query.Expr.{Expr, Condition, SelectItem, condition_to_string}
use iron_query.Clause.Gathered.{gathered, gathered-step, shown}
use iron_query.Clause.{join_csv, render_items}
use iron_query.Update
use iron_query.Update.{Update, update, to_string}

-- One call of a setter.
pub data Call : Type 0 where
  set : Expr → Expr → Call
  from : VirtualTable → Call
  where_clause : Condition → Call
  returning : List SelectItem → Call

unfoldable pub apply : Call → Update → Result Update
unfolding Update.set Update.from Update.where_clause Update.returning
apply (set column value) q = ok (Update.set column value q)
apply (from tbl) q = Update.from tbl q
apply (where_clause c) q = Update.where_clause c q
apply (returning items) q = Update.returning items q

unfoldable pub run : List Call → Update → Result Update
run [] q = ok q
run (call ∷ calls) q = do r ← apply call q; run calls r

-- The assignments in the order of the calls, and the texts of each other clause.
abbrev pub assignment : Expr → Expr → Text
assignment column value = Expr.to_string column ++ lit " = " ++ Expr.to_string value

abbrev pub assignments : List Call → List Text
assignments [] = []
assignments (set column value ∷ calls) = assignment column value ∷ assignments calls
assignments (_ ∷ calls) = assignments calls

abbrev pub from_of : Call → Text
from_of (from tbl) = shown tbl.to_string_as_from_item
from_of _ = []

abbrev pub where_of : Call → Text
where_of (where_clause c) = condition_to_string c
where_of _ = []

abbrev pub returning_of : Call → Text
returning_of (returning items) = join_csv (render_items items)
returning_of _ = []

-- A list of assignments behind those that are set.
abbrev pub onto : Text → List Text → Text
onto [] items = intercalate (lit ", ") items
onto (c ∷ s) items = (c ∷ s) ++ following (lit ", ") items

onto-step :
    (s item : Text) (items : List Text)
    → item ≢ []
    → onto ((if not (is_empty s) then s ++ lit ", " else s) ++ item) items ≡ onto s (item ∷ items)
onto-step [] [] items h = absurd (h refl)
onto-step [] (c ∷ item) items h = refl
onto-step (c ∷ s) item items h = simp append_assoc

pub assignment_ne : (column value : Expr) → assignment column value ≢ []
assignment_ne column value = go (Expr.to_string column) (Expr.to_string value)
  where
    go : (a b : Text) → (a ++ lit " = " ++ b) ≢ []
    go [] b = unfold lit in cc
    go (c ∷ a) b = cc

abbrev pub set_by : Call → Text → Text
set_by (set column value) s =
    (if not (is_empty s) then s ++ lit ", " else s) ++ assignment column value
set_by _ s = s

onto-set_by :
    (call : Call) (calls : List Call) (s : Text)
    → onto (set_by call s) (assignments calls) ≡ onto s (assignments (call ∷ calls))
onto-set_by (set column value) calls s =
    onto-step s (assignment column value) (assignments calls) (assignment_ne column value)
onto-set_by (from _) calls s = refl
onto-set_by (where_clause _) calls s = refl
onto-set_by (returning _) calls s = refl

set_result_assoc : (a b c d : Text) → ((a ++ b) ++ c) ++ d ≡ a ++ ((b ++ c) ++ d)
set_result_assoc a b c d = simp append_assoc

apply-fields :
    (call : Call) (q : Update) {r : Update}
    → apply call q ≡ ok r
    → (r.table_ ≡ q.table_)
      × (r.set_ ≡ set_by call q.set_)
      × (r.from_ ≡ q.from_ ++ from_of call)
      × (r.where_ ≡ q.where_ ++ where_of call)
      × (r.returning_ ≡ q.returning_ ++ returning_of call)
unfolding apply
apply-fields (set column value) q {r} h =
    let same : Update.set column value q ≡ r = cc in
    (
      ap Update.table_ (sym same),
      ap Update.set_ (sym same)
          ∙ set_result_assoc (if not (is_empty q.set_) then q.set_ ++ lit ", " else q.set_)
              (Expr.to_string column) (lit " = ") (Expr.to_string value),
      ap Update.from_ (sym same) ∙ sym (append-nil q.from_),
      ap Update.where_ (sym same) ∙ sym (append-nil q.where_),
      ap Update.returning_ (sym same) ∙ sym (append-nil q.returning_),
    )
apply-fields _ q h =
    ground (arith, append-nil q.from_, append-nil q.where_, append-nil q.returning_)

-- What a chain of calls leaves behind.
abbrev pub Became : Update → List Call → Update → Type 0
Became q calls r =
    (r.table_ ≡ q.table_)
    × (r.set_ ≡ onto q.set_ (assignments calls))
    × (r.from_ ≡ q.from_ ++ gathered from_of calls)
    × (r.where_ ≡ q.where_ ++ gathered where_of calls)
    × (r.returning_ ≡ q.returning_ ++ gathered returning_of calls)

onto-nil : (s : Text) → onto s [] ≡ s
onto-nil [] = refl
onto-nil (c ∷ s) = append-nil (c ∷ s)

run-cons :
    (call : Call) (calls : List Call) (q : Update) {t : Update}
    → run (call ∷ calls) q ≡ ok t
    → (r : Update) × (apply call q ≡ ok r) × (run calls r ≡ ok t)
unfolding run
run-cons call calls q h = >>=-eq-ok (apply call q) (run calls) h

run-nil : (q : Update) {t : Update} → run [] q ≡ ok t → q ≡ t
unfolding run
run-nil q h = cc

pub run-Became :
    (calls : List Call) (q : Update) {t : Update} → run calls q ≡ ok t → Became q calls t
run-Became [] q {t} h =
    let same = run-nil q h in
    (
      ap Update.table_ (sym same),
      ap Update.set_ (sym same) ∙ sym (onto-nil q.set_),
      ap Update.from_ (sym same) ∙ sym (append-nil q.from_),
      ap Update.where_ (sym same) ∙ sym (append-nil q.where_),
      ap Update.returning_ (sym same) ∙ sym (append-nil q.returning_),
    )
run-Became (call ∷ calls) q h =
    let (r, ha, hr) = run-cons call calls q h in
    let (table, s, f, w, g) = apply-fields call q ha in
    let (table', s', f', w', g') = run-Became calls r hr in
    (
      table' ∙ table,
      s' ∙ ap (λ x. onto x (assignments calls)) s ∙ onto-set_by call calls q.set_,
      gathered-step from_of call calls q.from_ f f',
      gathered-step where_of call calls q.where_ w w',
      gathered-step returning_of call calls q.returning_ g g',
    )
