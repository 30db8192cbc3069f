-- ===== src/Insert.antt =====
-- include/iron_query/insert_into.hpp and src/insert_into.cpp.
pub mod Arity
pub mod Rows
use iron_query.Prelude.{
  ℕ, Text, lit, is_empty, length, ◌==◌, if◌then◌else◌, Bool, true, false, not, ◌||◌, List, [], ◌∷◌,
  ◌++◌, map,
}
use iron_query.Exception.{Result, ok, err, logic_error, invalid_argument, ◌>>=◌, ◌>>◌}
use iron_query.Decimal
use iron_query.Expr
use iron_query.Expr.{Expr, SelectItem}
use iron_query.Clause.{
  join_csv, render_binary, render_exprs, render_items, ensure_not_set, set_once,
}
use iron_query.Table
use iron_query.Table.{Table}

pub record InsertInto : Type 0 where
  pub into_ : Text
  pub columns_ : List Text
  pub rows_ : List (List Text)
  pub returning_ : Text
  pub on_conflict_ : Text

unfoldable pub insert_into : Table → InsertInto
insert_into tbl = record {
  into_ = Table.to_string tbl;
  columns_ = [];
  rows_ = [];
  returning_ = [];
  on_conflict_ = [];
}

abbrev arity_error : ℕ → ℕ → Text
arity_error columns values =
    Decimal.natural_to_string columns
    ++ lit " columns but a row with "
    ++ Decimal.natural_to_string values
    ++ lit " values"

-- The loop of EnsureSameArity.
unfoldable pub check_rows : ℕ → List (List Text) → Result (Unit {0})
check_rows columns [] = ok tt
check_rows columns (row ∷ rows) =
    if not (length row == columns)
    then err (logic_error (arity_error columns (length row)))
    else check_rows columns rows

unfoldable pub ensure_same_arity : List Text → List (List Text) → Result (Unit {0})
unfolding check_rows
ensure_same_arity columns rows =
    if is_empty columns || is_empty rows then ok tt else check_rows (length columns) rows

unfoldable pub columns : List Expr → InsertInto → Result InsertInto
columns cols q = do
  value ← set_once (is_empty q.columns_) (lit "column list") (render_exprs cols)
  ensure_same_arity value q.rows_
  ok (record q { columns_ = value })

unfoldable pub values : List Expr → InsertInto → Result InsertInto
values vals q = do
  value ← set_once (is_empty q.rows_) (lit "row values") (render_exprs vals ∷ [])
  ensure_same_arity q.columns_ value
  ok (record q { rows_ = value })

unfoldable pub insert_rows : List (List Expr) → InsertInto → Result InsertInto
insert_rows rows q = do
  ensure_not_set (is_empty q.rows_) (lit "row values")
  ensure_same_arity q.columns_ (q.rows_ ++ map render_exprs rows)
  ok (record q { rows_ = q.rows_ ++ map render_exprs rows })

unfoldable pub returning : List SelectItem → InsertInto → Result InsertInto
returning items q = do
  value ← set_once (is_empty q.returning_) (lit "RETURNING clause") (join_csv (render_items items))
  ok (record q { returning_ = value })

unfoldable pub on_conflict_do_nothing : InsertInto → InsertInto
on_conflict_do_nothing q = record q { on_conflict_ = lit "ON CONFLICT DO NOTHING" }

unfoldable pub on_conflict_target_do_nothing : List Expr → InsertInto → InsertInto
on_conflict_target_do_nothing target_cols q = record q {
  on_conflict_ = lit "ON CONFLICT (" ++ join_csv (render_exprs target_cols) ++ lit ") DO NOTHING";
}

assignments_onto : Text → List (Expr × Expr) → Text
assignments_onto set [] = set
assignments_onto set ((column, value) ∷ assignments) =
    assignments_onto
      ((if is_empty set then set else set ++ lit ", ")
        ++ render_binary (Expr.to_string column) (lit "=") (Expr.to_string value))
      assignments

unfoldable pub on_conflict_do_update :
    List Expr → List (Expr × Expr) → InsertInto → Result InsertInto
unfolding assignments_onto
on_conflict_do_update target_cols assignments q =
    if is_empty assignments
    then err (invalid_argument (lit "ON CONFLICT DO UPDATE needs at least one assignment"))
    else ok (record q {
      on_conflict_ =
          lit "ON CONFLICT ("
          ++ join_csv (render_exprs target_cols)
          ++ lit ") DO UPDATE SET "
          ++ assignments_onto [] assignments;
    })

-- The loop over the rows; the flag is `i != 0`.
unfoldable pub rows_onto : Bool → Text → List (List Text) → Text
rows_onto later s [] = s
rows_onto later s (row ∷ rows) =
    rows_onto true ((if later then s ++ lit ", " else s) ++ lit "(" ++ join_csv row ++ lit ")") rows

unfoldable pub to_string : InsertInto → Result Text
unfolding ensure_same_arity rows_onto
to_string q =
    if is_empty q.columns_
    then err (logic_error (lit "no columns to insert into"))
    else if is_empty q.rows_
    then err (logic_error (lit "no values to insert"))
    else do
      ensure_same_arity q.columns_ q.rows_
      let s = lit "INSERT INTO " ++ q.into_ ++ lit " (" ++ join_csv q.columns_ ++ lit ") VALUES "
      let s = rows_onto false s q.rows_
      let s = if not (is_empty q.on_conflict_) then s ++ lit " " ++ q.on_conflict_ else s
      ok (if not (is_empty q.returning_) then s ++ lit " RETURNING " ++ q.returning_ else s)
