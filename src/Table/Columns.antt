-- ===== src/Table/Columns.antt =====
-- Column references of src/table_with_columns.cpp: a column list that Dot checks against.
use iron_query.Prelude.{
  Text, lit, text_eq_iff, is_empty, is_empty-ne-nil, ◌≡◌, ◌≢◌, ◌⊎◌, inl, inr, ◌↔◌, refl, true,
  false, Bool-cases, List, [], ◌∷◌, ◌++◌, arith,
}
use iron_query.Exception.{ok, err, logic_error, unknown_column}
use iron_query.Identifier.{validate_identifier}
use iron_query.Precedence.{dot}
use iron_query.Expr
use iron_query.Expr.{Expr}
use iron_query.Expr.Raw.{to_string-from_raw}
use iron_query.Table.{
  Column, TableWithColumns, to_string, columns_as, has_column, columns_dot, with_columns,
}

-- A column of that name is declared.
abbrev pub Declares : List Column → Text → Type 0
Declares [] name = ⊥
Declares (c ∷ cs) name = (c.name ≡ name) ⊎ Declares cs name

has_column-Declares :
    (name : Text) (cs : List Column) → (has_column name cs ≡ true) ↔ Declares cs name
unfolding has_column
has_column-Declares name [] = (ground arith, ground arith)
has_column-Declares name (c ∷ cs) =
    ground (arith, text_eq_iff c.name name, has_column-Declares name cs)

validate_identifier-nil : (s : Text) → validate_identifier s ≡ ok tt → s ≢ []
unfolding validate_identifier
validate_identifier-nil [] h = cc
validate_identifier-nil (c ∷ s) h = cc

dot_outcome :
    (column : Text) (u : TableWithColumns)
    → is_empty u.alias_ ≡ false
    → (Declares u.columns_ column
        × (columns_dot u column ≡ ok (Expr.from_raw ((u.alias_ ++ lit ".") ++ column) dot)))
      ⊎ ((¬ Declares u.columns_ column)
          × (columns_dot u column ≡ err (unknown_column column u.alias_)))
unfolding columns_dot
dot_outcome column u a = elim (Bool-cases (has_column column u.columns_)) [
  | inl e ↦ inl ((has_column-Declares column u.columns_).0 e, rw (a, e))
  | inr e ↦ inr ((λ d. cc (e, (has_column-Declares column u.columns_).1 d)), rw (a, e))
]

columns_as-fields :
    (t : TableWithColumns) (alias : Text) {u : TableWithColumns}
    → columns_as t alias ≡ ok u
    → (u.alias_ ≡ alias)
      × (u.columns_ ≡ t.columns_)
      × (to_string u.base ≡ to_string t.base ++ lit " AS " ++ alias)
      × (validate_identifier alias ≡ ok tt)
unfolding columns_as to_string
columns_as-fields t alias h = ground arith

-- An aliased table is the table's name AS the alias, with the columns kept; its Dot gives
-- `alias.column` for every declared column, and throws UnknownColumn for every other.
pub columns_as-dot :
    (t : TableWithColumns) (alias column : Text) {u : TableWithColumns}
    → columns_as t alias ≡ ok u
    → (to_string u.base ≡ to_string t.base ++ lit " AS " ++ alias)
      × ((Declares t.columns_ column
            × ((e : Expr) × (columns_dot u column ≡ ok e)
                × (Expr.to_string e ≡ alias ++ lit "." ++ column)))
          ⊎ ((¬ Declares t.columns_ column)
              × (columns_dot u column ≡ err (unknown_column column alias))))
columns_as-dot t alias column {u} h =
    let (a, cs, text, valid) = columns_as-fields t alias h in
    let shown : is_empty u.alias_ ≡ false =
      rw a (is_empty-ne-nil alias (validate_identifier-nil alias valid)) in
    (
      text,
      rw (← a, ← cs)
          (elim (dot_outcome column u shown) [
            | inl (d, e) ↦ inl (
              d,
              (Expr.from_raw ((u.alias_ ++ lit ".") ++ column) dot, e, to_string-from_raw _ dot),
            )
            | inr (n, e) ↦ inr (n, e)
          ]),
    )

-- Without an alias Dot throws, whatever the column.
pub with_columns-dot :
    (name column : Text) (cs : List Column)
    → columns_dot (with_columns name cs) column
      ≡ err (logic_error (lit "Dot() requires calling As() first"))
unfolding columns_dot with_columns
with_columns-dot name column cs = refl
