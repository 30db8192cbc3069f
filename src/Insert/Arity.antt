-- ===== src/Insert/Arity.antt =====
-- The arity check of src/insert_into.cpp: rows and column list agree however they are set.
use iron_query.Prelude.{
  suc, ℕ, Text, length, is_empty-ne-nil, All, ==_iff, ◌≡◌, ◌≢◌, ◌⊎◌, ◌↔◌, inl, inr, refl, sym, ap,
  ◌∙◌, List, [], ◌∷◌, arith,
}
use iron_query.Exception.{Result, ok, ◌>>=◌, >>=-eq-ok, IsOk, IsOk-eq}
use iron_query.Expr.{Expr, SelectItem}
use iron_query.Clause.{render_exprs}
use iron_query.Table.{Table}
use iron_query.Insert
use iron_query.Insert.{InsertInto, insert_into, check_rows, ensure_same_arity, to_string}

-- Every row has as many values as there are columns.
abbrev pub RowsFit : List Text → List (List Text) → Type 0
RowsFit columns rows = All (λ row. length row ≡ length columns) rows

-- Where both are set, the rows fit the column list.
abbrev pub Fits : List Text → List (List Text) → Type 0
Fits columns rows = (columns ≡ []) ⊎ RowsFit columns rows

check_rows_iff :
    (n : ℕ) (rows : List (List Text))
    → (check_rows n rows ≡ ok tt) ↔ All (λ row. length row ≡ n) rows
unfolding check_rows
check_rows_iff n [] = (ground arith, ground arith)
check_rows_iff n (row ∷ rows) = ground (arith, ==_iff (length row) n, check_rows_iff n rows)

-- EnsureSameArity returns exactly if a list is missing or all rows fit.
pub ensure_same_arity_iff :
    (columns : List Text) (rows : List (List Text))
    → (ensure_same_arity columns rows ≡ ok tt) ↔ Fits columns rows
unfolding ensure_same_arity
ensure_same_arity_iff [] rows = ((λ h. inl refl), λ h. refl)
ensure_same_arity_iff (c ∷ cs) [] = ((λ h. inr tt), λ h. refl)
ensure_same_arity_iff (c ∷ cs) (row ∷ rows) = (
  (λ h. inr ((check_rows_iff (length (c ∷ cs)) (row ∷ rows)).0 h)),
  λ h. (check_rows_iff (length (c ∷ cs)) (row ∷ rows)).1 (fits h),
)
  where
    fits : Fits (c ∷ cs) (row ∷ rows) → RowsFit (c ∷ cs) (row ∷ rows)
    fits (inl e) = cc
    fits (inr f) = f

-- One call of a setter.
pub data Setter : Type 0 where
  columns : List Expr → Setter
  values : List Expr → Setter
  insert_rows : List (List Expr) → Setter
  returning : List SelectItem → Setter
  on_conflict_do_nothing : Setter
  on_conflict_target_do_nothing : List Expr → Setter
  on_conflict_do_update : List Expr → List (Expr × Expr) → Setter

unfoldable pub apply : Setter → InsertInto → Result InsertInto
apply (columns cols) q = Insert.columns cols q
apply (values vals) q = Insert.values vals q
apply (insert_rows rows) q = Insert.insert_rows rows q
apply (returning items) q = Insert.returning items q
apply on_conflict_do_nothing q = ok (Insert.on_conflict_do_nothing q)
apply (on_conflict_target_do_nothing cols) q = ok (Insert.on_conflict_target_do_nothing cols q)
apply (on_conflict_do_update cols assignments) q = Insert.on_conflict_do_update cols assignments q

unfoldable pub run : List Setter → InsertInto → Result InsertInto
run [] q = ok q
run (a ∷ calls) q = do r ← apply a q; run calls r

-- What a call that returns has checked.
apply_checked :
    (a : Setter) (q : InsertInto) {r : InsertInto}
    → apply a q ≡ ok r
    → ((r.columns_ ≡ q.columns_) × (r.rows_ ≡ q.rows_))
      ⊎ (ensure_same_arity r.columns_ r.rows_ ≡ ok tt)
unfolding apply Insert.columns Insert.values Insert.insert_rows Insert.returning
    Insert.on_conflict_do_nothing Insert.on_conflict_target_do_nothing Insert.on_conflict_do_update
apply_checked (columns cols) q h = ground arith
apply_checked _ q h = ground arith

run-Fits :
    (calls : List Setter) (q : InsertInto) {t : InsertInto}
    → Fits q.columns_ q.rows_
    → run calls q ≡ ok t
    → Fits t.columns_ t.rows_
unfolding run
run-Fits [] q {t} f h = let same : q ≡ t = cc in rw (← same) f
run-Fits (a ∷ calls) q f h =
    let (r, ha, hr) = >>=-eq-ok (apply a q) (run calls) h in
    run-Fits calls r (go r (apply_checked a q ha)) hr
  where
    go :
        (r : InsertInto)
        → ((r.columns_ ≡ q.columns_) × (r.rows_ ≡ q.rows_))
          ⊎ (ensure_same_arity r.columns_ r.rows_ ≡ ok tt)
        → Fits r.columns_ r.rows_
    go r (inl (c, s)) = rw (c, s) f
    go r (inr e) = (ensure_same_arity_iff r.columns_ r.rows_).0 e

-- Whatever setters have returned on an INSERT, in whatever order, its rows fit its column list where
-- both are set, and ToString gives a text exactly if both are set: its own check of the row lengths
-- never throws.
pub run-to_string_iff :
    (tbl : Table) (calls : List Setter) {t : InsertInto}
    → run calls (insert_into tbl) ≡ ok t
    → Fits t.columns_ t.rows_ × (IsOk (to_string t) ↔ ((t.columns_ ≢ []) × (t.rows_ ≢ [])))
run-to_string_iff tbl calls {t} h =
    let fits = run-Fits calls (insert_into tbl) (unfold insert_into in inl refl) h in
    let checked = (ensure_same_arity_iff t.columns_ t.rows_).1 fits in
    (
      fits,
      unfold to_string in
          (
            (λ x. ((λ e. ground arith), λ e. ground arith)),
            λ (c, r).
                ground (arith, is_empty-ne-nil t.columns_ c, is_empty-ne-nil t.rows_ r, checked),
          ),
    )

length-render_exprs : (es : List Expr) → length (render_exprs es) ≡ length es
unfolding render_exprs
length-render_exprs [] = refl
length-render_exprs (e ∷ es) = ap suc (length-render_exprs es)

abbrev Holds : List Expr → List Expr → InsertInto → Type 0
Holds cols vals t = (t.columns_ ≡ render_exprs cols) × (t.rows_ ≡ render_exprs vals ∷ [])

columns-values :
    (tbl : Table) (cols vals : List Expr) {t : InsertInto}
    → run (columns cols ∷ values vals ∷ []) (insert_into tbl) ≡ ok t
    → Holds cols vals t
unfolding run apply Insert.columns Insert.values insert_into
columns-values tbl cols vals h = ground arith

values-columns :
    (tbl : Table) (cols vals : List Expr) {t : InsertInto}
    → run (values vals ∷ columns cols ∷ []) (insert_into tbl) ≡ ok t
    → Holds cols vals t
unfolding run apply Insert.columns Insert.values insert_into
values-columns tbl cols vals h = ground arith

mismatch_unfit :
    (cols vals : List Expr) (t : InsertInto)
    → cols ≢ []
    → length vals ≢ length cols
    → Holds cols vals t
    → ¬ Fits t.columns_ t.rows_
mismatch_unfit [] vals t ne differ holds f = ne refl
mismatch_unfit (c ∷ cols) vals t ne differ (cs, rs) (inl e) = absurd (nonempty (sym cs ∙ e))
  where
    nonempty : render_exprs (c ∷ cols) ≢ []
    nonempty = unfold render_exprs in cc
mismatch_unfit (c ∷ cols) vals t ne differ (cs, rs) (inr f) =
    let same = rw (rs, cs) at f in
    absurd (differ (sym (length-render_exprs vals) ∙ same.0 ∙ length-render_exprs (c ∷ cols)))

-- A row whose number of values differs from that of a column list that is not empty is refused,
-- whichever of the two is given first.
pub run_mismatch :
    (tbl : Table) (cols vals : List Expr)
    → cols ≢ []
    → length vals ≢ length cols
    → (¬ IsOk (run (columns cols ∷ values vals ∷ []) (insert_into tbl)))
      × (¬ IsOk (run (values vals ∷ columns cols ∷ []) (insert_into tbl)))
run_mismatch tbl cols vals ne differ = (
  (λ x.
      let (t, e) = IsOk-eq _ x in
      mismatch_unfit cols vals t ne differ (columns-values tbl cols vals e)
        (run-to_string_iff tbl _ e).0),
  λ x.
      let (t, e) = IsOk-eq _ x in
      mismatch_unfit cols vals t ne differ (values-columns tbl cols vals e)
        (run-to_string_iff tbl _ e).0,
)

-- The clause ON CONFLICT is no clause that is set once: each call replaces what an earlier one set.
pub on_conflict-replaces :
    (cols cols' : List Expr) (assignments : List (Expr × Expr)) (q : InsertInto) {r : InsertInto}
    → Insert.on_conflict_do_update cols assignments q ≡ ok r
    → (Insert.on_conflict_do_nothing r ≡ Insert.on_conflict_do_nothing q)
      × (Insert.on_conflict_target_do_nothing cols' r
          ≡ Insert.on_conflict_target_do_nothing cols' q)
      × (Insert.on_conflict_do_update cols assignments (Insert.on_conflict_do_nothing q) ≡ ok r)
unfolding Insert.on_conflict_do_nothing Insert.on_conflict_target_do_nothing
    Insert.on_conflict_do_update
on_conflict-replaces cols cols' assignments q h = ground arith
