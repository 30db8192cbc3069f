-- ===== src/Tests/Witness/Collected.antt =====
-- The theorems on WITH, INSERT and the columns of a table at concrete inputs.
use iron_query.Prelude.{
  Text, lit, text_eq, ◌≡◌, ◌≢◌, ◌↔◌, ◌⊎◌, refl, false, List, [], ◌∷◌, ◌++◌, map, intercalate, arith,
}
use iron_query.Clause
use iron_query.Exception.{ok, err, unknown_column, IsOk}
use iron_query.VirtualTable.{VirtualTable}
use iron_query.Expr
use iron_query.Expr.{Expr, Condition, condition_from_raw}
use iron_query.Table
use iron_query.Table.{Table, table, as_table, TableWithColumns, columns_as, columns_dot}
use iron_query.Table.Columns.{Declares, columns_as-dot}
use iron_query.With.{WithBuilder, with_cte, add_with}
use iron_query.With.Names
use iron_query.With.Names.{Fresh, IsNamed, name_of, with_cte-run-names, add_with_taken}
use iron_query.Insert
use iron_query.Insert.{InsertInto, insert_into}
use iron_query.Insert.Arity
use iron_query.Insert.Arity.{Fits, run-to_string_iff, run_mismatch, on_conflict-replaces}
use iron_query.Tests.Render.{raw, int, engine}
use iron_query.Tests.Witness.Statements.{users}

-- `WITH a AS users, b AS users`.
abbrev one_cte : WithBuilder
one_cte = record {
  ctes_ = lit "a AS users";
  ctes_formatted_ = lit "a AS (\n    users\n)";
  cte_names_ = lit "a" ∷ [];
}

abbrev two_ctes : WithBuilder
two_ctes = record {
  ctes_ = lit "a AS users, b AS users";
  ctes_formatted_ = lit "a AS (\n    users\n),\nb AS (\n    users\n)";
  cte_names_ = lit "a" ∷ lit "b" ∷ [];
}

abbrev second : List (Text × VirtualTable)
second = (lit "b", table users) ∷ []

with_cte-run-names_example :
    IsNamed two_ctes
    × (two_ctes.cte_names_ ≡ lit "a" ∷ map name_of second)
    × (two_ctes.ctes_ ≡ intercalate (lit ", ") (map Names.shown ((lit "a", table users) ∷ second)))
with_cte-run-names_example =
    with_cte-run-names (lit "a") (table users) second {b = one_cte} {c = two_ctes}
      (unfold engine with_cte table Clause.indent_block in refl)
      (unfold engine text_eq Names.run add_with table Clause.indent_block in refl)

-- `INSERT INTO users (a) VALUES (1)`.
abbrev pub inserted : InsertInto
inserted = record {
  into_ = lit "users";
  columns_ = lit "a" ∷ [];
  rows_ = (lit "1" ∷ []) ∷ [];
  returning_ = [];
  on_conflict_ = [];
}

run-to_string_iff_example :
    Fits inserted.columns_ inserted.rows_
    × (IsOk (Insert.to_string inserted) ↔ ((inserted.columns_ ≢ []) × (inserted.rows_ ≢ [])))
run-to_string_iff_example =
    run-to_string_iff users (Arity.values (int 1 ∷ []) ∷ Arity.columns (raw "a" ∷ []) ∷ [])
      {t = inserted}
      (unfold engine Arity.run Arity.apply Insert.values Insert.columns Insert.ensure_same_arity
          insert_into Table.to_string Clause.render_exprs in
        refl)

run_mismatch_example :
    (¬ IsOk (
      Arity.run
        (Arity.columns (raw "a" ∷ raw "b" ∷ []) ∷ Arity.values (int 1 ∷ []) ∷ [])
        (insert_into users)))
    × (¬ IsOk (
        Arity.run
          (Arity.values (int 1 ∷ []) ∷ Arity.columns (raw "a" ∷ raw "b" ∷ []) ∷ [])
          (insert_into users)))
run_mismatch_example =
    run_mismatch users (raw "a" ∷ raw "b" ∷ []) (int 1 ∷ []) (λ e. cc) (λ e. omega arith)

abbrev assignment : List (Expr × Expr)
assignment = (raw "a", int 1) ∷ []

abbrev updating : InsertInto
updating = record inserted { on_conflict_ = lit "ON CONFLICT (a) DO UPDATE SET a = 1" }

on_conflict-replaces_example :
    (Insert.on_conflict_do_nothing updating ≡ Insert.on_conflict_do_nothing inserted)
    × (Insert.on_conflict_target_do_nothing (raw "b" ∷ []) updating
        ≡ Insert.on_conflict_target_do_nothing (raw "b" ∷ []) inserted)
    × (Insert.on_conflict_do_update
          (raw "a" ∷ [])
          assignment
          (Insert.on_conflict_do_nothing inserted)
        ≡ ok updating)
on_conflict-replaces_example =
    on_conflict-replaces (raw "a" ∷ []) (raw "b" ∷ []) assignment inserted {r = updating} (
      unfold engine Insert.on_conflict_do_update Clause.render_exprs Clause.join_csv
        Clause.render_binary in
      refl)

-- `users` with the column id, AS u.
abbrev users_columns : TableWithColumns
users_columns =
    Table.with_columns (lit "users")
      (record { name = lit "id"; type = lit "int"; is_nullable = false } ∷ [])

abbrev aliased : TableWithColumns
aliased = record users_columns { base = record { name_ = lit "users AS u" }; alias_ = lit "u" }

columns_as-dot_example :
    (Table.to_string aliased.base ≡ Table.to_string users_columns.base ++ lit " AS " ++ lit "u")
    × ((Declares users_columns.columns_ (lit "id")
          × ((e : Expr) × (columns_dot aliased (lit "id") ≡ ok e)
              × (Expr.to_string e ≡ lit "u" ++ lit "." ++ lit "id")))
        ⊎ ((¬ Declares users_columns.columns_ (lit "id"))
            × (columns_dot aliased (lit "id") ≡ err (unknown_column (lit "id") (lit "u")))))
columns_as-dot_example =
    columns_as-dot users_columns (lit "u") (lit "id") {u = aliased}
      (unfold engine columns_as Table.to_string Table.with_columns in refl)
