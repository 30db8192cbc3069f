-- ===== src/Expr/Literal/Numbers.antt =====
-- The number literals of src/expr.cpp.
use iron_query.Prelude.{
  Text, lit, has_byte, ◌||◌, ◌≡◌, ◌⊎◌, refl, Bool, true, false, Bool-cases, inl, inr, [], ◌∷◌, ◌++◌,
  Option, none, some, ℤ, pos, arith,
}
use iron_query.Exception.{ok}
use iron_query.Decimal
use iron_query.Decimal.RoundTrip.{Spells, to_string-Spells}
use iron_query.Precedence.{symbol}
use iron_query.Node.Render.{render-make_leaf}
use iron_query.Expr.{Expr, from_string, to_string}
use iron_query.Expr.Literal.{from_integer, from_unsigned, Floating, from_double, with_point}

-- The text of an integer literal is a decimal number, with a minus sign if it is negative, that
-- reads back as the integer.
pub from_integer-Spells : (z : ℤ) → Spells z (to_string (from_integer z))
unfolding from_integer from_string to_string
from_integer-Spells z = rw render-make_leaf (to_string-Spells z)

-- So is that of an unsigned one.
pub from_unsigned-Spells : (n : _) → Spells (pos n) (to_string (from_unsigned n))
unfolding from_unsigned from_string to_string Decimal.to_string
from_unsigned-Spells n = rw render-make_leaf (to_string-Spells (pos n))

has_byte-append : (c : _) (s t : Text) → has_byte c (s ++ t) ≡ (has_byte c s || has_byte c t)
unfolding has_byte
has_byte-append c [] t = refl
has_byte-append c (x ∷ s) t = ground (arith, has_byte-append c s t)

abbrev pub has_mark : Text → Bool
has_mark s = has_byte b'.' s || has_byte b'e' s

has_mark-with_point : (s : Text) → has_mark (with_point s) ≡ true
has_mark-with_point s = elim (Bool-cases (has_mark s)) [
  | inl h ↦ ground arith
  | inr h ↦ ground (arith, has_byte-append b'.' s (lit ".0"), dot_in_zero)
]
  where
    dot_in_zero : has_byte b'.' (lit ".0") ≡ true
    dot_in_zero = unfold has_byte lit in refl

to_string_with_point : (s : Text) → to_string (from_string (with_point s)) ≡ with_point s
unfolding from_string to_string
to_string_with_point s = render-make_leaf (with_point s) symbol

-- What stands for a rendering: itself if it has a mark, else with ".0" behind it.
abbrev pub Pointed : Text → Text → Type 0
Pointed s t = ((has_mark s ≡ true) × (t ≡ s)) ⊎ ((has_mark s ≡ false) × (t ≡ s ++ lit ".0"))

with_point-Pointed : (s : Text) → Pointed s (with_point s)
with_point-Pointed s = elim (Bool-cases (has_mark s)) [
  | inl h ↦ inl (h, ground arith)
  | inr h ↦ inr (h, ground arith)
]

module _ (floating : Floating) where
  open floating use {Double, is_finite, to_chars}

  -- A double becomes a literal only if it is finite and std::to_chars renders it; the text is that
  -- rendering if the rendering holds a point or an `e`, and that rendering with ".0" behind it if it
  -- holds neither, so that it holds a point or an `e` and never reads as an integer.
  pub from_double-has_mark :
      (value : Double) {e : Expr}
      → from_double floating value ≡ ok e
      → (is_finite value ≡ true)
        × ((s : Text) × (to_chars value ≡ some s)
            × Pointed s (to_string e)
            × ((has_byte b'.' (to_string e) || has_byte b'e' (to_string e)) ≡ true))
  unfolding from_double
  from_double-has_mark value {e} h = go (is_finite value) (to_chars value) refl refl h
    where
      go :
          (finite : Bool) (chars : Option Text)
          → is_finite value ≡ finite
          → to_chars value ≡ chars
          → from_double floating value ≡ ok e
          → (is_finite value ≡ true)
            × ((s : Text) × (to_chars value ≡ some s)
                × Pointed s (to_string e)
                × (has_mark (to_string e) ≡ true))
      go false chars f c h = cc (f, h)
      go true none f c h = absurd (ground arith)
      go true (some s) f c h =
          let same : e ≡ from_string (with_point s) = ground arith in
          (
            f,
            (
              s,
              c,
              rw (same, to_string_with_point) (with_point-Pointed s),
              rw (same, to_string_with_point) (has_mark-with_point s),
            ),
          )
