-- ===== src/Clause.antt =====
-- src/impl/render.hpp and render.cpp: how a clause is set once, and how its terms are rendered.
pub mod Csv
pub mod Indent
pub mod Gathered
pub mod Blank
use iron_query.Prelude.{
  ℕ, Text, lit, is_empty, replicate, ◌==◌, if◌then◌else◌, Bool, true, false, not, List, [], ◌∷◌,
  ◌++◌, map, Option, none, some,
}
use iron_query.Exception.{Result, ok, err, logic_error, ◌>>=◌, ◌>>◌}
use iron_query.Expr
use iron_query.Expr.{Expr, SelectItem, item_to_string}
use iron_query.OrderBy.{
  SortDirection, ascending, descending, NullsOrder, default, first, last, OrderByTerm,
}

csv_onto : Text → List Text → Text
csv_onto s [] = s
csv_onto s (item ∷ items) = csv_onto ((if is_empty s then s else s ++ lit ", ") ++ item) items

unfoldable pub join_csv : List Text → Text
unfolding csv_onto
join_csv items = csv_onto [] items

indent_onto : Text → Text → Text → Text
indent_onto prefix [] s = s
indent_onto prefix (c ∷ text) s =
    indent_onto prefix text (if c == b'\n' then (s ++ c ∷ []) ++ prefix else s ++ c ∷ [])

unfoldable pub indent_block : Text → ℕ → Text
unfolding indent_onto
indent_block text spaces = indent_onto (replicate spaces b' ') text (replicate spaces b' ')

unfoldable pub render_binary : Text → Text → Text → Text
render_binary lhs op rhs = lhs ++ b' ' ∷ (op ++ b' ' ∷ rhs)

-- IsEmpty of a std::optional.
abbrev pub is_none {ℓ} : {A : Type ℓ} → Option A → Bool
is_none none = true
is_none (some a) = false

-- `empty` is IsEmpty of the field.
abbrev pub ensure_not_set : Bool → Text → Result (Unit {0})
ensure_not_set empty what =
    if not empty then err (logic_error (what ++ lit " is already set")) else ok tt

-- The new value of the field.
abbrev pub set_once {ℓ} : {A : Type ℓ} → Bool → Text → A → Result A
set_once empty what value = do ensure_not_set empty what; ok value

abbrev pub direction_text : SortDirection → Text
direction_text descending = lit " DESC"
direction_text ascending = []

abbrev pub nulls_text : NullsOrder → Text
nulls_text first = lit " NULLS FIRST"
nulls_text last = lit " NULLS LAST"
nulls_text default = []

unfoldable pub render_order : OrderByTerm → Text
render_order term =
    (Expr.to_string term.expr ++ direction_text term.direction) ++ nulls_text term.nulls_order

-- RenderAll, at each type of terms.
unfoldable pub render_exprs : List Expr → List Text
render_exprs = map Expr.to_string

unfoldable pub render_items : List SelectItem → List Text
render_items = map item_to_string

unfoldable pub render_orders : List OrderByTerm → List Text
render_orders = map render_order
