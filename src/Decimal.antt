-- ===== src/Decimal.antt =====
-- std::to_string of the integer types, which the literals, LIMIT, OFFSET and messages use.
pub mod RoundTrip
use iron_query.Prelude.{
  ℕ, zero, suc, ◌+◌, ◌/◌, ◌%◌, Text, ltb, if◌then◌else◌, [], ◌∷◌, ℤ, pos, negsuc,
}

-- A round for each digit, the last digit first; the fuel is at least the number of digits.
unfoldable pub digits_onto : ℕ → ℕ → Text → Text
digits_onto zero n out = out
digits_onto (suc fuel) n out =
    let more = digits_onto fuel (n / 10) ((b'0' + n % 10) ∷ out) in
    if ltb n 10 then (b'0' + n) ∷ out else more

unfoldable pub natural_to_string : ℕ → Text
unfolding digits_onto
natural_to_string n = digits_onto (suc n) n []

unfoldable pub to_string : ℤ → Text
unfolding natural_to_string
to_string (pos n) = natural_to_string n
to_string (negsuc n) = b'-' ∷ natural_to_string (suc n)
