-- ===== src/Expr/Call/Rendered.antt =====
-- The texts of the calls of src/expr.cpp.
use iron_query.Prelude.{
  Text, lit, following, intercalate, ◌≡◌, refl, sym, true, false, List, [], ◌∷◌, ◌++◌, map,
  append_assoc, append-nil,
}
use iron_query.Exception.{ok, IsOk}
use iron_query.Identifier.{validate_identifier}
use iron_query.Precedence.{extract}
use iron_query.Node.{child, render}
use iron_query.Node.Render.{parts_text, part_text, render-make_node, render_with_context-bracketed}
use iron_query.Expr
use iron_query.Expr.{Expr, to_string}
use iron_query.Expr.Call.{
  list_parts, build_call_node, call, call_distinct, coalesce, greatest, least, null_if, count,
  count_distinct, sum, avg, min, max,
}

-- An argument as a list shows it.
abbrev pub listed : Expr → Text
listed e = Expr.extract e extract

render_with_context-part : (e : Expr) → part_text (child e.node_ extract) ≡ listed e
unfolding Expr.extract
render_with_context-part e = sym (render_with_context-bracketed e.node_ extract)

list_parts-following :
    (es : List Expr)
    → parts_text (list_parts false es) ≡ following (lit ", ") (map listed es) ++ lit ")"
unfolding list_parts
list_parts-following [] = rw append-nil
list_parts-following (e ∷ es) =
    rw (list_parts-following es, render_with_context-part e) (simp append_assoc)

pub list_parts-intercalate :
    (es : List Expr)
    → parts_text (list_parts true es) ≡ intercalate (lit ", ") (map listed es) ++ lit ")"
unfolding list_parts
list_parts-intercalate [] = rw append-nil
list_parts-intercalate (e ∷ es) =
    rw (list_parts-following es, render_with_context-part e) (simp append_assoc)

abbrev pub call_text : Text → Text → List Expr → Text
call_text name prefix args =
    name ++ (lit "(" ++ (prefix ++ (intercalate (lit ", ") (map listed args) ++ lit ")")))

build_call_node-text :
    (name prefix : Text) (args : List Expr)
    → render (build_call_node name prefix args) ≡ call_text name prefix args
unfolding build_call_node
build_call_node-text name prefix args =
    rw (render-make_node, list_parts-intercalate args) (simp append_assoc)

-- With a valid name Call gives `name(a, b, ...)` and CallDistinct, on at least one argument,
-- `name(DISTINCT a, b, ...)`, each argument as in a list, in its order.
pub to_string-call :
    (name : Text) (arg : Expr) (args : List Expr)
    → validate_identifier name ≡ ok tt
    → ((e : Expr) × (call name args ≡ ok e) × (to_string e ≡ call_text name [] args))
      × ((e : Expr) × (call_distinct name (arg ∷ args) ≡ ok e)
          × (to_string e ≡ call_text name (lit "DISTINCT ") (arg ∷ args)))
unfolding call call_distinct to_string
to_string-call name arg args h = (
  (Expr.expr (build_call_node name [] args), rw h, build_call_node-text name [] args),
  (
    Expr.expr (build_call_node name (lit "DISTINCT ") (arg ∷ args)),
    rw h,
    build_call_node-text name (lit "DISTINCT ") (arg ∷ args),
  ),
)

valid :
    (validate_identifier (lit "COUNT") ≡ ok tt)
    × (validate_identifier (lit "SUM") ≡ ok tt)
    × (validate_identifier (lit "AVG") ≡ ok tt)
    × (validate_identifier (lit "MIN") ≡ ok tt)
    × (validate_identifier (lit "MAX") ≡ ok tt)
    × (validate_identifier (lit "NULLIF") ≡ ok tt)
    × (validate_identifier (lit "COALESCE") ≡ ok tt)
    × (validate_identifier (lit "GREATEST") ≡ ok tt)
    × (validate_identifier (lit "LEAST") ≡ ok tt)
unfolding validate_identifier lit
valid = (refl, refl, refl, refl, refl, refl, refl, refl, refl)

-- The functions with a name of their own never throw on at least one argument.
pub named-IsOk :
    (a b : Expr) (args : List Expr)
    → IsOk (count a)
      × IsOk (count_distinct a)
      × IsOk (sum a)
      × IsOk (avg a)
      × IsOk (min a)
      × IsOk (max a)
      × IsOk (null_if a b)
      × IsOk (coalesce (a ∷ args))
      × IsOk (greatest (a ∷ args))
      × IsOk (least (a ∷ args))
unfolding count count_distinct sum avg min max null_if coalesce greatest least call call_distinct
named-IsOk a b args = (
  rw valid.0 tt,
  rw valid.0 tt,
  rw valid.1 tt,
  rw valid.2 tt,
  rw valid.3 tt,
  rw valid.4 tt,
  rw valid.5 tt,
  rw valid.6 tt,
  rw valid.7 tt,
  rw valid.8 tt,
)
