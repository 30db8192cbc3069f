-- ===== src/Tests/Witness/Texts.antt =====
-- The theorems on the texts of expressions and statements at concrete inputs.
use iron_query.Prelude.{
  true, ℕ, has_byte, ◌≢◌, lit, intercalate, map, ◌≡◌, refl, List, [], ◌∷◌, ◌++◌, some, arith,
}
use iron_query.Exception.{ok, IsOk}
use iron_query.Identifier.{is_word, is_alnum, is_alpha, validate_identifier}
use iron_query.Expr
use iron_query.Expr.{Expr, Condition, condition_from_raw, condition_to_string, negate, to_expr}
use iron_query.Expr.Call.{exists, not_exists}
use iron_query.Expr.Predicates.{is_null}
use iron_query.Expr.Predicates.NotExists.{is_null-not_exists}
use iron_query.Clause
use iron_query.Clause.{join_csv}
use iron_query.Clause.Gathered.{gathered, clause}
use iron_query.Clause.Blank.{unspaced}
use iron_query.Table
use iron_query.Table.{Table, table}
use iron_query.Select
use iron_query.Select.{SelectExpr, select_table}
use iron_query.Select.Layout.{LeadsWithText}
use iron_query.Select.Embedded.{select_table-IsQuery}
use iron_query.With
use iron_query.With.{WithQuery, WithBuilder, with_cte, add_with, main_query}
use iron_query.With.Names
use iron_query.With.Layout.{IsQuery, with_cte-main_query-unspaced}
use iron_query.Insert
use iron_query.Insert.{InsertInto}
use iron_query.Insert.Rows.{tuple, to_string-rows}
use iron_query.Update
use iron_query.Update.{Update, update}
use iron_query.Update.Calls
use iron_query.Update.Assembled.{to_string-run-update}
use iron_query.Delete
use iron_query.Delete.{DeleteFrom, delete_from}
use iron_query.Delete.Assembled
use iron_query.Delete.Assembled.{to_string-run-delete_from}
use iron_query.Syntax.{Test, Range, Choice}
use iron_query.Syntax.Grammar.{read_all}
use iron_query.Syntax.Stops.{Named, IsWord}
use iron_query.Syntax.Values
use iron_query.Syntax.Values.{Value, Predicate, build, value_tree}
use iron_query.Syntax.Unambiguous.{read_all-build}
use iron_query.Tests.Render.{raw, int, engine}
use iron_query.Tests.Witness.Statements.{users, selected}
use iron_query.Tests.Witness.Collected.{inserted}

-- `NOT (a + b) * -c BETWEEN 'it''s' AND d[f(a, b)] AND a IN (b, c) IS NULL`, as a value.
abbrev pub col : ℕ → Value
col c = Values.column (c ∷ [])

abbrev quoted_text : Value
quoted_text = Values.text_value (lit "it's")

abbrev indexed_call : Value
indexed_call = Values.subscript (col b'd') (
    Values.function (lit "f")
      (Values.value_and (col b'a') (Values.value_and (col b'b') Values.no_values)))

abbrev nested : Value
nested = Values.truth (
    Values.both
      (Values.neither (
        Values.between Range.inside
          (Values.apply Values.multiply (Values.apply Values.add (col b'a') (col b'b'))
            (Values.opposite (col b'c')))
          quoted_text indexed_call))
      (Values.test Test.null (
        Values.truth (
          Values.one_of Choice.among (col b'a') (col b'b')
            (Values.value_and (col b'c') Values.no_values)))))

pub letter : (c : ℕ) → is_word c ≡ true → c ≢ 78 → IsWord (c ∷ [])
unfolding lit
letter c h ne = record {
  shown = λ e. cc;
  word = rw h refl;
  usual = λ e. cc;
  unselected = λ e. cc;
  unjoined = λ e. cc;
}

nested-Named : Named (value_tree nested)
unfolding lit is_word is_alnum is_alpha validate_identifier has_byte
nested-Named =
    let a = letter 97 refl (λ e. omega (arith, e)) in
    let b = letter 98 refl (λ e. omega (arith, e)) in
    let c = letter 99 refl (λ e. omega (arith, e)) in
    let d = letter 100 refl (λ e. omega (arith, e)) in
    let f = letter 102 refl (λ e. omega (arith, e)) in
    ((((a, b), c), refl, (d, (f, refl, (a, (b, tt))))), (a, tt, (b, (c, tt))))

read_all-build_example :
    (e : Expr) × (build nested ≡ ok e)
    × (read_all 20 (Expr.to_string e) ≡ some (value_tree nested, []))
read_all-build_example = read_all-build nested 20 nested-Named (omega arith)

-- `UPDATE users SET a = 1, b = 2 WHERE a`.
abbrev update_calls : List Calls.Call
update_calls =
    Calls.set (raw "a") (int 1)
    ∷ Calls.where_clause (condition_from_raw (lit "a"))
    ∷ Calls.set (raw "b") (int 2)
    ∷ []

to_string-run-update_example :
    (q : Update) × (Calls.run update_calls (update users) ≡ ok q)
    × (Update.to_string q
        ≡ Update.Assembled.statement (Table.to_string users) (Calls.assignments update_calls) (
            clause (lit " FROM ") (gathered Calls.from_of update_calls)
            ++ (clause (lit " WHERE ") (gathered Calls.where_of update_calls)
                ++ clause (lit " RETURNING ") (gathered Calls.returning_of update_calls))))
to_string-run-update_example =
    to_string-run-update users update_calls
      (record { one_from = omega arith; one_where = omega arith; one_returning = omega arith }) tt

-- `DELETE FROM users WHERE a`.
abbrev delete_calls : List Delete.Calls.Call
delete_calls = Delete.Calls.where_clause (condition_from_raw (lit "a")) ∷ []

to_string-run-delete_from_example :
    (q : DeleteFrom) × (Delete.Calls.run delete_calls (delete_from users) ≡ ok q)
    × (Delete.to_string q
        ≡ Delete.Assembled.statement (Table.to_string users) (
            clause (lit " USING ") (gathered Delete.Calls.using_of delete_calls)
            ++ (clause (lit " WHERE ") (gathered Delete.Calls.where_of delete_calls)
                ++ clause (lit " RETURNING ") (gathered Delete.Calls.returning_of delete_calls))))
to_string-run-delete_from_example =
    to_string-run-delete_from users delete_calls
      (record { one_using = omega arith; one_where = omega arith; one_returning = omega arith }) tt

-- `INSERT INTO users (a) VALUES (1)`.
inserted_renders : IsOk (Insert.to_string inserted)
unfolding Insert.to_string Insert.ensure_same_arity
inserted_renders = tt

to_string-rows_example :
    Insert.to_string inserted
    ≡ ok (
        lit "INSERT INTO "
        ++ (inserted.into_
            ++ (lit " ("
                ++ (join_csv inserted.columns_
                    ++ (lit ") VALUES "
                        ++ (intercalate (lit ", ") (map tuple inserted.rows_)
                            ++ (clause (lit " ") inserted.on_conflict_
                                ++ clause (lit " RETURNING ") inserted.returning_)))))))
to_string-rows_example = to_string-rows inserted inserted_renders

-- `SELECT x FROM users`, alone and in a CTE.
selected-LeadsWithText : LeadsWithText selected
unfolding engine Clause.render_items Expr.item_to_string
selected-LeadsWithText = record { items = refl; groups = tt; orders = tt }

select_table-IsQuery_example : IsQuery (select_table selected)
select_table-IsQuery_example =
    select_table-IsQuery selected (lit "SELECT x FROM users") selected-LeadsWithText (
      unfold engine Select.to_string Select.select_text Clause.render_items Clause.join_csv
        Expr.item_to_string in
      refl)

abbrev one_cte : WithBuilder
one_cte = record {
  ctes_ = lit "c AS (SELECT x FROM users)";
  ctes_formatted_ = lit "c AS (\n    SELECT\n        x\n    FROM\n        users\n)";
  cte_names_ = lit "c" ∷ [];
}

abbrev with_query : WithQuery
with_query = record {
  ctes_ = lit "c AS (SELECT x FROM users)";
  main_ = lit "SELECT x FROM users";
  ctes_formatted_ = lit "c AS (\n    SELECT\n        x\n    FROM\n        users\n)";
  main_formatted_ = lit "SELECT\n    x\nFROM\n    users";
}

with_cte-main_query-unspaced_example :
    unspaced (With.to_string with_query) ≡ unspaced (With.to_string_formatted with_query)
with_cte-main_query-unspaced_example =
    with_cte-main_query-unspaced (lit "c") (select_table selected) [] (select_table selected)
      {b = one_cte} {c = one_cte} {q = with_query} select_table-IsQuery_example tt
      select_table-IsQuery_example
      (unfold engine with_cte select_table Select.to_string Select.to_string_formatted
          Select.select_text Select.select_text_formatted Clause.indent_block Clause.render_items
          Clause.join_csv Expr.item_to_string in
        refl)
      (unfold Names.run in refl)
      (unfold engine main_query select_table Select.to_string Select.to_string_formatted
          Select.select_text Select.select_text_formatted Clause.render_items Clause.join_csv
          Expr.item_to_string in
        refl)

is_null-not_exists_example :
    (leaf yes : Condition) × (not_exists (select_table selected) ≡ ok leaf)
    × (exists (select_table selected) ≡ ok yes)
    × (condition_to_string leaf ≡ condition_to_string (negate yes))
    × (condition_to_string (is_null (to_expr leaf))
        ≡ lit "NOT EXISTS " ++ (lit "(SELECT x FROM users)" ++ lit " IS NULL"))
    × (condition_to_string (is_null (to_expr (negate yes)))
        ≡ b'(' ∷ (lit "NOT EXISTS " ++ (lit "(SELECT x FROM users)" ++ (b')' ∷ lit " IS NULL"))))
is_null-not_exists_example =
    is_null-not_exists (select_table selected) (lit "(SELECT x FROM users)") (
      unfold engine select_table Select.to_string Select.select_text Clause.render_items
        Clause.join_csv Expr.item_to_string in
      refl)
