-- ===== src/Identifier.antt =====
-- src/impl/identifier.cpp and .hpp: which texts are SQL identifiers and operator names.
pub mod Plain
pub mod Dotted
pub mod Operator
use iron_query.Prelude.{
  ℕ, zero, suc, ◌+◌, ◌-◌, Text, lit, has_byte, has_text, is_empty, all_of, length, take, drop, leb,
  ltb, ◌==◌, if◌then◌else◌, Bool, true, false, not, ◌&&◌, ◌||◌, List, [], ◌∷◌, Option, none, some,
}
use iron_query.Exception.{invalid_identifier, invalid_operator, Result, ok, err, ◌>>◌}

-- `std::isalpha` and `std::isalnum` in the "C" locale.
unfoldable pub is_alpha : ℕ → Bool
is_alpha c = (leb b'a' c && leb c b'z') || (leb b'A' c && leb c b'Z')

unfoldable pub is_alnum : ℕ → Bool
unfolding is_alpha
is_alnum c = is_alpha c || (leb b'0' c && leb c b'9')

unfoldable pub is_word : ℕ → Bool
unfolding is_alnum
is_word c = is_alnum c || c == b'_'

unfoldable pub is_plain_identifier : Text → Bool
unfolding is_alpha is_word
is_plain_identifier [] = false
is_plain_identifier (c ∷ cs) =
    if not (is_alpha c) && not (c == b'_') then false else all_of is_word cs

-- `s.find('.', start)` on what stands behind `start`; `none` is npos.
find_from : ℕ → Text → ℕ → Option ℕ
find_from c [] at = none
find_from c (x ∷ xs) at = if x == c then some at else find_from c xs (at + 1)

unfoldable pub find : ℕ → Text → ℕ → Option ℕ
unfolding find_from
find c s start = find_from c (drop start s) start

-- `s.substr(start, dot - start)`: with npos the count is cut to what is left of `s`.
unfoldable pub part_at : Text → ℕ → Option ℕ → Text
part_at s start none = drop start s
part_at s start (some dot) = take (dot - start) (drop start s)

-- The `while (true)` loop of ValidateIdentifier, a round for each unit of fuel; `none` means that
-- the fuel ran out.
unfoldable pub validate_loop : ℕ → Text → ℕ → Option (Result (Unit {0}))
unfolding is_plain_identifier find part_at
validate_loop zero s start = none
validate_loop (suc fuel) s start =
    let dot = find b'.' s start in
    let next : Option (Result (Unit {0})) = elim dot [
      | none ↦ some (ok tt)
      | some d ↦ validate_loop fuel s (d + 1)
    ] in
    if not (is_plain_identifier (part_at s start dot))
    then some (err (invalid_identifier s))
    else next

abbrev returned : Text → Option (Result (Unit {0})) → Result (Unit {0})
returned s (some r) = r
returned s none = err (invalid_identifier s)

-- Each round but the last passes a dot, so one round more than there are bytes is enough.
unfoldable pub validate_identifier : Text → Result (Unit {0})
unfolding validate_loop
validate_identifier s = returned s (validate_loop (length s + 1) s 0)

abbrev pub operator_chars : Text
operator_chars =
    b'+' ∷ b'-' ∷ b'*' ∷ b'/' ∷ b'<' ∷ b'>' ∷ b'=' ∷ b'~' ∷ b'!' ∷ b'@' ∷ b'#' ∷ b'%' ∷ b'^' ∷ b'&'
    ∷ b'|' ∷ b'`' ∷ b'?' ∷ []

unfoldable pub is_operator_char : ℕ → Bool
unfolding has_byte
is_operator_char c = has_byte c operator_chars

-- `s.back()`; the empty text has none, and the code does not ask.
abbrev pub back : Text → ℕ
back [] = 0
back (c ∷ []) = c
back (c ∷ d ∷ s) = back (d ∷ s)

abbrev is_sign : ℕ → Bool
is_sign c = c == b'+' || c == b'-'

unfoldable pub validate_operator_name : Text → Result (Unit {0})
unfolding is_operator_char has_text lit
validate_operator_name s =
    if is_empty s
      || not (all_of is_operator_char s)
      || has_text (lit "--") s
      || has_text (lit "/*") s
    then err (invalid_operator s)
    else if ltb 1 (length s) && is_sign (back s) && all_of is_sign s
    then err (invalid_operator s)
    else ok tt
