-- ===== src/Expr/Literal.antt =====
-- The literals of src/expr.cpp: integers, doubles, quoted strings and identifiers, NULL, booleans.
pub mod Quoting
pub mod Numbers
use iron_query.Prelude.{
  ℕ, Text, lit, has_byte, ◌==◌, if◌then◌else◌, Bool, true, false, not, ◌&&◌, [], ◌∷◌, ◌++◌, Option,
  none, some, ℤ,
}
use iron_query.Exception.{Result, ok, err, invalid_identifier, invalid_literal}
use iron_query.Precedence.{symbol}
use iron_query.Decimal
use iron_query.Expr.{Expr, from_string, from_raw}

unfoldable pub from_integer : ℤ → Expr
from_integer z = from_string (Decimal.to_string z)

-- The overload for `unsigned long long`.
unfoldable pub from_unsigned : ℕ → Expr
from_unsigned n = from_string (Decimal.natural_to_string n)

-- What the program uses of `double`: std::isfinite, std::to_string and std::to_chars, which has no
-- text where the buffer is too small.
pub record Floating : Type 1 where
  pub Double : Type 0
  pub is_finite : Double → Bool
  pub double_to_string : Double → Text
  pub to_chars : Double → Option Text

abbrev with_point : Text → Text
with_point s = if not (has_byte b'.' s) && not (has_byte b'e' s) then s ++ lit ".0" else s

module _ (floating : Floating) where
  open floating use {Double, is_finite, double_to_string, to_chars}

  unfoldable pub from_double : Double → Result Expr
  from_double value =
      if not (is_finite value)
      then err (
          invalid_literal
            (double_to_string value ++ lit ": NaN and infinity have no plain SQL literal"))
      else elim (to_chars value) [
        | none ↦
            err (invalid_literal (double_to_string value ++ lit ": cannot render double literal"))
        | some s ↦ ok (from_string (with_point s))
      ]

-- The loop of Literal and of Ident: the quote is written twice.
unfoldable pub escape_onto : ℕ → Text → Text → Text
escape_onto quote [] escaped = escaped
escape_onto quote (c ∷ s) escaped =
    escape_onto quote s ((if c == quote then escaped ++ quote ∷ [] else escaped) ++ c ∷ [])

unfoldable pub literal : Text → Result Expr
unfolding escape_onto
literal value =
    if has_byte 0 value
    then err (invalid_literal (lit "string literal must not contain NUL bytes"))
    else ok (from_raw (escape_onto b'\'' value (b'\'' ∷ []) ++ b'\'' ∷ []) symbol)

unfoldable pub ident : Text → Result Expr
unfolding escape_onto
ident name =
    if has_byte 0 name
    then err (invalid_identifier (lit "<identifier containing a NUL byte>"))
    else ok (from_raw (escape_onto b'"' name (b'"' ∷ []) ++ b'"' ∷ []) symbol)

unfoldable pub null : Expr
null = from_raw (lit "NULL") symbol

unfoldable pub bool : Bool → Expr
bool value = from_raw (if value then lit "TRUE" else lit "FALSE") symbol
