-- ===== src/Examples/KeyValue/Stoi.antt =====
-- std::stoi, by which examples/userver/src/main.cpp reads the limit.
use iron_query.Prelude.{
  ℕ, zero, suc, ◌+◌, ◌-◌, ◌*◌, ◌^◌, ◌<◌, Text, leb, ltb, ◌==◌, if◌then◌else◌, Bool, true, false,
  ◌&&◌, ◌||◌, All, ◌≡◌, ◌≢◌, refl, [], ◌∷◌, ℤ, pos, negsuc, arith,
}
use iron_query.Identifier.Plain.{IsDigit}
use iron_query.Decimal
use iron_query.Decimal.RoundTrip.{value, Spells, to_string-Spells}

-- A number, std::invalid_argument or std::out_of_range.
pub data Parsed : Type 0 where
  number : ℤ → Parsed
  no_number out_of_range : Parsed

-- std::isspace.
abbrev is_space : ℕ → Bool
is_space c = c == b' ' || leb 9 c && leb c 13

abbrev is_digit : ℕ → Bool
is_digit c = leb b'0' c && leb c b'9'

unfoldable pub skip_space : Text → Text
skip_space [] = []
skip_space (c ∷ s) = if is_space c then skip_space s else c ∷ s

-- The digits at the start, behind the number `n`.
unfoldable pub digits_value : ℕ → Text → ℕ
digits_value n [] = n
digits_value n (c ∷ s) =
    let rest = digits_value (n * 10 + (c - b'0')) s in if is_digit c then rest else n

-- An int has 32 bits.
abbrev pub positive : ℕ → Parsed
positive n = if ltb n (2 ^ 31) then number (pos n) else out_of_range

abbrev pub negative : ℕ → Parsed
negative zero = number (pos 0)
negative (suc n) = if ltb n (2 ^ 31) then number (negsuc n) else out_of_range

unfoldable pub unsigned : (ℕ → Parsed) → Text → Parsed
unfolding digits_value
unsigned sign [] = no_number
unsigned sign (c ∷ s) = if is_digit c then sign (digits_value 0 (c ∷ s)) else no_number

unfoldable pub signed : Text → Parsed
unfolding unsigned
signed [] = no_number
signed (c ∷ s) =
    if c == b'-'
    then unsigned negative s
    else if c == b'+'
    then unsigned positive s
    else unsigned positive (c ∷ s)

unfoldable pub stoi : Text → Parsed
unfolding skip_space signed
stoi s = signed (skip_space s)

-- The numbers of an int.
abbrev pub IsInt : ℤ → Type 0
IsInt (pos n) = n < 2 ^ 31
IsInt (negsuc n) = n < 2 ^ 31

digits_value-value : (n : ℕ) (s : Text) → All IsDigit s → digits_value n s ≡ value n s
unfolding digits_value
digits_value-value n [] h = refl
digits_value-value n (c ∷ s) (d, h) =
    let digit : is_digit c ≡ true = ground arith in
    rw digit (digits_value-value (n * 10 + (c - b'0')) s h)

unsigned-value :
    (sign : ℕ → Parsed) (s : Text) → s ≢ [] → All IsDigit s → unsigned sign s ≡ sign (value 0 s)
unfolding unsigned
unsigned-value sign [] ne h = absurd (ne refl)
unsigned-value sign (c ∷ s) ne (d, h) =
    let digit : is_digit c ≡ true = ground arith in
    rw (digit, digits_value-value (0 + (c - b'0')) s h) refl

stoi-Spells : (n : ℤ) (s : Text) → Spells n s → IsInt n → stoi s ≡ number n
unfolding stoi skip_space signed
stoi-Spells (pos n) [] (ne, h, e) i = absurd (ne refl)
stoi-Spells (pos n) (c ∷ s) (ne, (d, h), e) i =
    let space : is_space c ≡ false = ground arith in
    let minus : (c == b'-') ≡ false = ground arith in
    let plus : (c == b'+') ≡ false = ground arith in
    let small : ltb n (2 ^ 31) ≡ true = ground arith in
    rw (space, minus, plus, unsigned-value positive (c ∷ s) ne (d, h), e, small) refl
stoi-Spells (negsuc n) [] h i = absurd h
stoi-Spells (negsuc n) (c ∷ s) (m, ne, h, e) i =
    let small : ltb n (2 ^ 31) ≡ true = ground arith in
    rw (m, unsigned-value negative s ne h, e, small) refl

-- The decimal text of every int is read as that int.
pub stoi-to_string : (n : ℤ) → IsInt n → stoi (Decimal.to_string n) ≡ number n
stoi-to_string n i = stoi-Spells n (Decimal.to_string n) (to_string-Spells n) i

-- Either branch of a test.
branch-IsInt :
    (b : Bool) {yes no : Parsed} (n : ℤ)
    → (if b then yes else no) ≡ number n
    → (yes ≡ number n → IsInt n)
    → (no ≡ number n → IsInt n)
    → IsInt n
branch-IsInt true n e hy hn = hy e
branch-IsInt false n e hy hn = hn e

positive-IsInt : (m : ℕ) (n : ℤ) → positive m ≡ number n → IsInt n
positive-IsInt m (pos n) e = ground arith
positive-IsInt m (negsuc n) e = ground arith

negative-IsInt : (m : ℕ) (n : ℤ) → negative m ≡ number n → IsInt n
negative-IsInt zero (pos n) e = ground arith
negative-IsInt zero (negsuc n) e = ground arith
negative-IsInt (suc m) (pos n) e = ground arith
negative-IsInt (suc m) (negsuc n) e = ground arith

unsigned-IsInt :
    (sign : ℕ → Parsed) (s : Text) (n : ℤ)
    → ((m : ℕ) → sign m ≡ number n → IsInt n)
    → unsigned sign s ≡ number n
    → IsInt n
unfolding unsigned
unsigned-IsInt sign [] n h e = cc
unsigned-IsInt sign (c ∷ s) n h e =
    branch-IsInt (is_digit c) n e (h (digits_value 0 (c ∷ s))) (λ bad. cc)

signed-IsInt : (s : Text) (n : ℤ) → signed s ≡ number n → IsInt n
unfolding signed
signed-IsInt [] n e = cc
signed-IsInt (c ∷ s) n e =
    let plain : unsigned positive (c ∷ s) ≡ number n → IsInt n =
      unsigned-IsInt positive (c ∷ s) n (λ m. positive-IsInt m n) in
    branch-IsInt (c == b'-') n e (unsigned-IsInt negative s n (λ m. negative-IsInt m n)) (λ e'.
      branch-IsInt (c == b'+') n e' (unsigned-IsInt positive s n (λ m. positive-IsInt m n)) plain)

-- What std::stoi returns is in the range of int.
pub stoi-IsInt : (s : Text) {n : ℤ} → stoi s ≡ number n → IsInt n
unfolding stoi
stoi-IsInt s {n} e = signed-IsInt (skip_space s) n e
