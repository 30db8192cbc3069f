-- ===== src/Expr/Integral.antt =====
-- The constructor of include/iron_query/expr.hpp for the integral types of C++ (kIsSqlInteger, Expr(T)).
use native.Mathlib.Nat.{pow-le-pow_right}
use iron_query.Prelude.{
  ℕ, suc, ◌-◌, ◌%◌, ◌^◌, ◌<◌, ◌≤◌, ◌≡◌, ◌⊎◌, refl, Bool, true, false, if◌then◌else◌, inl, inr,
  Option, none, some, ℤ, pos, negsuc, ltb, arith,
}
use iron_query.Expr.{Expr, to_string}
use iron_query.Expr.Literal.{from_integer, from_unsigned}
use iron_query.Decimal.RoundTrip.{Spells}
use iron_query.Expr.Literal.Numbers.{from_integer-Spells, from_unsigned-Spells}

-- The types of which std::is_integral_v holds, char8_t from C++20 on.
pub data IntegralType : Type 0 where
  bool char signed_char unsigned_char wchar char8 char16 char32 : IntegralType
  short unsigned_short int unsigned_int long unsigned_long long_long unsigned_long_long :
      IntegralType

unfoldable pub is_sql_integer : IntegralType → Bool
is_sql_integer bool = false
is_sql_integer char = false
is_sql_integer signed_char = false
is_sql_integer unsigned_char = false
is_sql_integer wchar = false
is_sql_integer char16 = false
is_sql_integer char32 = false
is_sql_integer _ = true

-- std::is_signed_v, where `char` and `wchar_t` are signed.
abbrev pub is_signed : IntegralType → Bool
is_signed bool = false
is_signed unsigned_char = false
is_signed char8 = false
is_signed char16 = false
is_signed char32 = false
is_signed unsigned_short = false
is_signed unsigned_int = false
is_signed unsigned_long = false
is_signed unsigned_long_long = false
is_signed _ = true

-- The casts to `unsigned long long` and `long long` wrap.
abbrev pub to_unsigned_long_long : ℤ → ℕ
to_unsigned_long_long (pos n) = n % 2 ^ 64
to_unsigned_long_long (negsuc n) = 2 ^ 64 - suc (n % 2 ^ 64)

abbrev pub signed_of : ℕ → ℤ
signed_of r = if ltb r (2 ^ 63) then pos r else negsuc (2 ^ 64 - suc r)

abbrev pub to_long_long : ℤ → ℤ
to_long_long z = signed_of (to_unsigned_long_long z)

-- Expr(T value); none where the template does not take the type.
unfoldable pub from_integral : IntegralType → ℤ → Option Expr
unfolding is_sql_integer from_integer from_unsigned
from_integral t value =
    if is_sql_integer t
    then some (
        if is_signed t
        then from_integer (to_long_long value)
        else from_unsigned (to_unsigned_long_long value))
    else none

-- The values of a type of w bits.
abbrev pub InRange : Bool → ℕ → ℤ → Type 0
InRange true w (pos n) = n < 2 ^ (w - 1)
InRange true w (negsuc n) = n < 2 ^ (w - 1)
InRange false w (pos n) = n < 2 ^ w
InRange false w (negsuc n) = ⊥

mod_small : (n : ℕ) → n < 2 ^ 64 → n % 2 ^ 64 ≡ n
mod_small n h = omega (arith, h)

to_long_long-pos : (n : ℕ) → n < 2 ^ 63 → to_long_long (pos n) ≡ pos n
to_long_long-pos n h = ground (arith, h, mod_small n (omega (arith, h)))

to_long_long-negsuc : (n : ℕ) → n < 2 ^ 63 → to_long_long (negsuc n) ≡ negsuc n
to_long_long-negsuc n h = ground (arith, h, mod_small n (omega (arith, h)))

half : (w : ℕ) → w ≤ 64 → 2 ^ (w - 1) ≤ 2 ^ 63
half w h = pow-le-pow_right (omega arith) {j = 63} (omega (arith, h))

signed-Spells :
    (w : ℕ) (z : ℤ)
    → w ≤ 64
    → InRange true w z
    → Spells z (to_string (from_integer (to_long_long z)))
signed-Spells w (pos n) narrow h =
    rw (to_long_long-pos n (omega (arith, h, half w narrow))) (from_integer-Spells (pos n))
signed-Spells w (negsuc n) narrow h =
    rw (to_long_long-negsuc n (omega (arith, h, half w narrow))) (from_integer-Spells (negsuc n))

unsigned-Spells :
    (w : ℕ) (z : ℤ)
    → w ≤ 64
    → InRange false w z
    → Spells z (to_string (from_unsigned (to_unsigned_long_long z)))
unsigned-Spells w (pos n) narrow h =
    let whole : 2 ^ w ≤ 2 ^ 64 = pow-le-pow_right (omega arith) narrow in
    rw (mod_small n (omega (arith, h, whole))) (from_unsigned-Spells n)
unsigned-Spells w (negsuc n) narrow h = absurd h

cast-Spells :
    (signed : Bool) (w : ℕ) (z : ℤ)
    → w ≤ 64
    → InRange signed w z
    → Spells z (
        to_string (
          if signed
          then from_integer (to_long_long z)
          else from_unsigned (to_unsigned_long_long z)))
cast-Spells true w z narrow h = signed-Spells w z narrow h
cast-Spells false w z narrow h = unsigned-Spells w z narrow h

-- What the comment on kIsSqlInteger excludes, as far as C++17 has it.
abbrev pub IsBoolOrCharacter : IntegralType → Type 0
IsBoolOrCharacter bool = Unit
IsBoolOrCharacter char = Unit
IsBoolOrCharacter signed_char = Unit
IsBoolOrCharacter unsigned_char = Unit
IsBoolOrCharacter wchar = Unit
IsBoolOrCharacter char16 = Unit
IsBoolOrCharacter char32 = Unit
IsBoolOrCharacter _ = ⊥

-- Of the integral types of C++, of any widths up to the 64 bits of `long long`: the constructor takes
-- neither bool nor a character type of C++17; it takes the integers of each width and sign, and char8_t,
-- and each of their values becomes a literal that reads back as that value, for no cast wraps.
pub from_integral-Spells :
    (bits : IntegralType → ℕ) (t : IntegralType) (value : ℤ)
    → bits t ≤ 64
    → InRange (is_signed t) (bits t) value
    → ((¬ IsBoolOrCharacter t)
        × (e : Expr) × (from_integral t value ≡ some e)
        × Spells value (to_string e))
      ⊎ (IsBoolOrCharacter t × (from_integral t value ≡ none))
unfolding from_integral
from_integral-Spells bits bool value narrow h = inr (tt, refl)
from_integral-Spells bits char value narrow h = inr (tt, refl)
from_integral-Spells bits signed_char value narrow h = inr (tt, refl)
from_integral-Spells bits unsigned_char value narrow h = inr (tt, refl)
from_integral-Spells bits wchar value narrow h = inr (tt, refl)
from_integral-Spells bits char16 value narrow h = inr (tt, refl)
from_integral-Spells bits char32 value narrow h = inr (tt, refl)
from_integral-Spells bits char8 value narrow h =
    inl ((λ e. e), _, refl, cast-Spells false (bits char8) value narrow h)
from_integral-Spells bits short value narrow h =
    inl ((λ e. e), _, refl, cast-Spells true (bits short) value narrow h)
from_integral-Spells bits unsigned_short value narrow h =
    inl ((λ e. e), _, refl, cast-Spells false (bits unsigned_short) value narrow h)
from_integral-Spells bits int value narrow h =
    inl ((λ e. e), _, refl, cast-Spells true (bits int) value narrow h)
from_integral-Spells bits unsigned_int value narrow h =
    inl ((λ e. e), _, refl, cast-Spells false (bits unsigned_int) value narrow h)
from_integral-Spells bits long value narrow h =
    inl ((λ e. e), _, refl, cast-Spells true (bits long) value narrow h)
from_integral-Spells bits unsigned_long value narrow h =
    inl ((λ e. e), _, refl, cast-Spells false (bits unsigned_long) value narrow h)
from_integral-Spells bits long_long value narrow h =
    inl ((λ e. e), _, refl, cast-Spells true (bits long_long) value narrow h)
from_integral-Spells bits unsigned_long_long value narrow h =
    inl ((λ e. e), _, refl, cast-Spells false (bits unsigned_long_long) value narrow h)
