-- ===== src/Decimal/RoundTrip.antt =====
-- What std::to_string prints reads back.
use iron_query.Prelude.{
  ℕ, zero, suc, ◌+◌, ◌-◌, ◌*◌, ◌/◌, ◌%◌, ◌<◌, Text, ltb, All, Bool-cases, [], ◌∷◌, ℤ, pos, negsuc,
  ◌≡◌, ◌≢◌, refl, ap, ◌∙◌, inl, inr, arith,
}
use iron_query.Identifier.Plain.{IsDigit}
use iron_query.Decimal.{digits_onto, natural_to_string, to_string}

-- The number that digits spell, behind the number `n`.
abbrev pub value : ℕ → Text → ℕ
value n [] = n
value n (c ∷ s) = value (n * 10 + (c - b'0')) s

digits_onto-value :
    (fuel n : ℕ) (out : Text) → n < fuel → value 0 (digits_onto fuel n out) ≡ value n out
unfolding digits_onto
digits_onto-value zero n out h = absurd (omega arith)
digits_onto-value (suc fuel) n out h = elim (Bool-cases (ltb n 10)) [
  | inl small ↦ rw small (ap (λ m. value m out) (omega arith))
  | inr large ↦ rw large (
      digits_onto-value fuel (n / 10) ((b'0' + n % 10) ∷ out) (ground arith)
      ∙ ap (λ m. value m out) (omega arith))
]

digits_onto-All : (fuel n : ℕ) (out : Text) → All IsDigit out → All IsDigit (digits_onto fuel n out)
unfolding digits_onto
digits_onto-All zero n out h = h
digits_onto-All (suc fuel) n out h =
    ground (arith, digits_onto-All fuel (n / 10) ((b'0' + n % 10) ∷ out))

-- A text of digits alone spells a number, and one behind a minus sign a negative number.
abbrev pub Spells : ℤ → Text → Type 0
Spells (pos n) s = (s ≢ []) × All IsDigit s × (value 0 s ≡ n)
Spells (negsuc n) [] = ⊥
Spells (negsuc n) (c ∷ s) = (c ≡ b'-') × (s ≢ []) × All IsDigit s × (value 0 s ≡ suc n)

digits_onto-ne-nil : (fuel n : ℕ) (out : Text) → 0 < fuel → digits_onto fuel n out ≢ []
unfolding digits_onto
digits_onto-ne-nil zero n out h = absurd (omega arith)
digits_onto-ne-nil (suc zero) n out h = ground arith
digits_onto-ne-nil (suc (suc fuel)) n out h =
    ground (arith, digits_onto-ne-nil (suc fuel) (n / 10) ((b'0' + n % 10) ∷ out))

natural_to_string-Spells : (n : ℕ) → Spells (pos n) (natural_to_string n)
unfolding natural_to_string
natural_to_string-Spells n = (
  digits_onto-ne-nil (suc n) n [] (omega arith),
  digits_onto-All (suc n) n [] tt,
  digits_onto-value (suc n) n [] (omega arith),
)

pub to_string-Spells : (z : ℤ) → Spells z (to_string z)
unfolding to_string
to_string-Spells (pos n) = natural_to_string-Spells n
to_string-Spells (negsuc n) =
    let digits = natural_to_string-Spells (suc n) in (refl, digits.0, digits.1, digits.2)
