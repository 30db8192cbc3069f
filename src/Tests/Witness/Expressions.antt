-- ===== src/Tests/Witness/Expressions.antt =====
-- The theorems on identifiers, nodes, literals, calls and clauses at concrete inputs.
use iron_query.Prelude.{
  none, ℕ, ◌+◌, ◌%◌, Text, lit, length, split, all_of, has_byte, starts_with, intercalate, map,
  replicate, if◌then◌else◌, ◌≡◌, ◌↔◌, ◌⊎◌, refl, Bool, true, not, ◌&&◌, ◌||◌, ◌++◌, some, negsuc,
  arith,
}
use iron_query.Exception.{ok, err, invalid_identifier, invalid_operator}
use iron_query.Precedence.{symbol, plus, unary_plus}
use iron_query.Identifier.{
  is_plain_identifier, validate_loop, validate_identifier, validate_operator_name,
}
use iron_query.Identifier.Plain.{IsPlain, is_plain_identifier_iff}
use iron_query.Identifier.Dotted.{validate_identifier-split}
use iron_query.Identifier.Operator.{IsOperatorName, validate_operator_name_iff}
use iron_query.Node.{
  Node, child, text, nil, cons, precedence, size_of, size_mod, needs_parens, make_leaf, make_node,
  render, render_with_context,
}
use iron_query.Node.Shown.{Shown}
use iron_query.Node.Size.{IsBuilt, leaf, composite, no_parts, text_part, child_part, size-render}
use iron_query.Decimal.RoundTrip.{Spells}
use iron_query.Expr
use iron_query.Expr.{Expr, to_string}
use iron_query.Expr.Literal.{from_integer, Floating, from_double, literal, ident}
use iron_query.Expr.Literal.Quoting.{read_quoted, read_quoted-literal, read_quoted-ident}
use iron_query.Expr.Integral
use iron_query.Expr.Integral.{IsBoolOrCharacter, from_integral, from_integral-Spells}
use iron_query.Expr.Literal.Numbers.{Pointed, from_double-has_mark}
use iron_query.Expr.Operators.{minus}
use iron_query.Expr.Operators.Minus.{starts_with-minus, minus-from_integer}
use iron_query.Clause.{indent_block}
use iron_query.Clause.Indent.{newline, indented, indent_block-lines}
use iron_query.Tests.Render.{raw, engine}

read_quoted-literal_example :
    (e : Expr) × (literal (lit "it's") ≡ ok e)
    × (read_quoted b'\'' (to_string e ++ lit " AND x") ≡ some (lit "it's", lit " AND x"))
read_quoted-literal_example =
    read_quoted-literal (lit "it's") (lit " AND x") (unfold has_byte lit in refl)
      (unfold lit in omega arith)

read_quoted-ident_example :
    (e : Expr) × (ident (lit "a\"b") ≡ ok e)
    × (read_quoted b'"' (to_string e ++ lit ".c") ≡ some (lit "a\"b", lit ".c"))
read_quoted-ident_example =
    read_quoted-ident (lit "a\"b") (lit ".c") (unfold has_byte lit in refl)
      (unfold lit in omega arith)

validate_identifier-split_example :
    (validate_loop 9 (lit "ab.c") 0
      ≡ some (
          if all_of is_plain_identifier (split b'.' (lit "ab.c"))
          then ok tt
          else err (invalid_identifier (lit "ab.c"))))
    × (some (validate_identifier (lit "ab.c")) ≡ validate_loop 9 (lit "ab.c") 0)
validate_identifier-split_example =
    validate_identifier-split 9 (lit "ab.c") (unfold lit in omega arith)

is_plain_identifier_iff_example : (is_plain_identifier (lit "_a1") ≡ true) ↔ IsPlain (lit "_a1")
is_plain_identifier_iff_example = is_plain_identifier_iff (lit "_a1")

validate_operator_name_iff_example :
    ((validate_operator_name (lit "->>") ≡ ok tt) ↔ IsOperatorName (lit "->>"))
    × ((validate_operator_name (lit "->>") ≡ ok tt)
        ⊎ (validate_operator_name (lit "->>") ≡ err (invalid_operator (lit "->>"))))
validate_operator_name_iff_example = validate_operator_name_iff (lit "->>")

-- `a + 1`.
abbrev sum_node : Node
sum_node = make_node plus (
    cons (child (make_leaf (lit "a") symbol) plus)
      (cons (text (lit " + ")) (cons (child (make_leaf (lit "1") symbol) plus) nil)))

sum_node-IsBuilt : IsBuilt sum_node
sum_node-IsBuilt =
    composite plus _
      (child_part plus (leaf (lit "a") symbol (unfold lit in omega arith) refl) (
        text_part (lit " + ")
          (child_part plus (leaf (lit "1") symbol (unfold lit in omega arith) refl) no_parts)))
      refl

size-render_example :
    (size_of sum_node ≡ length (render sum_node) % size_mod)
    × (length (render_with_context sum_node unary_plus)
        ≡ size_of sum_node + (if needs_parens (precedence sum_node) unary_plus then 2 else 0))
size-render_example = size-render unary_plus sum_node-IsBuilt (unfold engine in omega arith)

from_integral-Spells_example :
    ((¬ IsBoolOrCharacter Integral.short)
      × (e : Expr) × (from_integral Integral.short (negsuc 41) ≡ some e)
      × Spells (negsuc 41) (to_string e))
    ⊎ (IsBoolOrCharacter Integral.short × (from_integral Integral.short (negsuc 41) ≡ none))
from_integral-Spells_example =
    from_integral-Spells (λ t. 16) Integral.short (negsuc 41) (omega arith) (omega arith)

-- Doubles that are the natural numbers, printed with no point.
abbrev naturals : Floating
naturals = record {
  Double = ℕ;
  is_finite = λ n. true;
  double_to_string = λ n. lit "n";
  to_chars = λ n. some (lit "7");
}

from_double-has_mark_example :
    (◌≡◌ {A = Bool} true true)
    × ((s : Text) × (some (lit "7") ≡ some s)
        × Pointed s (to_string (Expr.from_string (lit "7" ++ lit ".0")))
        × ((has_byte b'.' (to_string (Expr.from_string (lit "7" ++ lit ".0")))
              || has_byte b'e' (to_string (Expr.from_string (lit "7" ++ lit ".0"))))
            ≡ true))
from_double-has_mark_example =
    from_double-has_mark naturals 7 (unfold from_double has_byte lit in refl)

starts_with-minus_example : starts_with (lit "--") (to_string (minus (raw "-a"))) ≡ (
    not (needs_parens (precedence (raw "-a").node_) unary_plus)
    && starts_with (lit "-") (to_string (raw "-a")))
starts_with-minus_example = starts_with-minus (raw "-a")

minus-from_integer_example :
    starts_with (lit "--") (to_string (minus (from_integer (negsuc 4)))) ≡ true
minus-from_integer_example = minus-from_integer 4

indent_block-lines_example :
    indent_block (lit "a\nb") 4
    ≡ intercalate newline (map (indented (replicate 4 b' ')) (split b'\n' (lit "a\nb")))
indent_block-lines_example = indent_block-lines (lit "a\nb") 4
