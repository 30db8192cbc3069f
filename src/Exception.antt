-- ===== src/Exception.antt =====
-- include/iron_query/exception.hpp and src/exception.cpp: the exceptions as values, and the result
-- of a call that may throw.
use iron_query.Prelude.{Text, lit, ◌++◌, Bool, true, false, ◌≡◌, refl}

-- One constructor for each class, with the arguments of its constructor.
pub data Error : Type 0 where
  logic_error : Text → Error
  invalid_argument : Text → Error
  invalid_identifier : Text → Error
  invalid_operator : Text → Error
  invalid_literal : Text → Error
  unknown_column : Text → Text → Error

-- `what()`: the constructors of the base classes prepend their prefix.
logic_what : Text → Text
logic_what s = lit "iron_query: " ++ s

argument_what : Text → Text
argument_what s = lit "iron_query: " ++ s

unfoldable pub what : Error → Text
unfolding logic_what argument_what
what (logic_error s) = logic_what s
what (invalid_argument s) = argument_what s
what (invalid_identifier s) = argument_what (lit "invalid identifier: " ++ s)
what (invalid_operator s) = argument_what (lit "invalid operator name: " ++ s)
what (invalid_literal s) = argument_what s
what (unknown_column column table) =
    argument_what (lit "'" ++ column ++ lit "' is not a column of table '" ++ table ++ lit "'")

-- Whether `catch (const InvalidArgument &)` takes the exception.
abbrev pub is_invalid_argument : Error → Bool
is_invalid_argument (logic_error s) = false
is_invalid_argument _ = true

pub data Result {ℓ} (A : Type ℓ) : Type ℓ where
  ok : A → Result A
  err : Error → Result A

infixl 5 ◌>>=◌
abbrev pub ◌>>=◌ {ℓ κ} : {S : Type ℓ} {T : Type κ} → Result S → (S → Result T) → Result T
err thrown >>= next = err thrown
ok s >>= next = next s

infixl 5 ◌>>◌
abbrev pub ◌>>◌ {ℓ} : {B : Type ℓ} → Result (Unit {0}) → Result B → Result B
m >> k = m >>= λ _. k

-- The call returned normally.
abbrev pub IsOk {ℓ} : {A : Type ℓ} → Result A → Type 0
IsOk (ok a) = Unit
IsOk (err e) = ⊥

pub IsOk-eq {ℓ} : {A : Type ℓ} (r : Result A) → IsOk r → (a : A) × (r ≡ ok a)
IsOk-eq (ok a) h = (a, refl)
IsOk-eq (err e) h = absurd h

pub IsOk-of_eq {ℓ} : {A : Type ℓ} {r : Result A} {a : A} → r ≡ ok a → IsOk r
IsOk-of_eq e = rw e tt

-- A chain that returns has a first step that returns.
pub >>=-eq-ok {ℓ κ} :
    {S : Type ℓ} {T : Type κ} (first : Result S) (next : S → Result T) {t : T}
    → first >>= next ≡ ok t
    → (s : S) × (first ≡ ok s) × (next s ≡ ok t)
>>=-eq-ok (err thrown) next h = cc
>>=-eq-ok (ok s) next h = (s, refl, h)
