-- ===== src/Identifier/Operator.antt =====
-- ValidateOperatorName of src/impl/identifier.cpp against the rules of its comments.
use iron_query.Prelude.{
  ℕ, ◌≤◌, Text, lit, starts_with, has_text, is_empty-ne-nil, all_of, length, All, ==_iff,
  Bool-cases, ◌≡◌, ◌≢◌, refl, ap, ◌↔◌, ◌⊎◌, inl, inr, true, false, [], ◌∷◌, ◌++◌, arith,
}
use iron_query.Exception.{invalid_operator, ok, err}
use iron_query.Identifier.{back, is_operator_char, is_sign, validate_operator_name}

-- `p` stands somewhere in `s`.
abbrev pub Occurs : Text → Text → Type 0
Occurs p s = (before after : Text) × (s ≡ before ++ (p ++ after))

abbrev pub IsSign : ℕ → Type 0
IsSign c = (c ≡ b'+') ⊎ (c ≡ b'-')

-- Some character is not a sign.
abbrev pub HasOther : Text → Type 0
HasOther [] = ⊥
HasOther (c ∷ s) = (c ≢ b'+') × (c ≢ b'-') ⊎ HasOther s

abbrev pub IsOperatorChar : ℕ → Type 0
IsOperatorChar c = is_operator_char c ≡ true

-- The rules: no comment can start in the name, and a name of several characters that ends in a
-- sign has another character than signs.
pub record IsOperatorName (s : Text) : Type 0 where
  pub not_empty : s ≢ []
  pub chars : All IsOperatorChar s
  pub no_line_comment : ¬ Occurs (lit "--") s
  pub no_block_comment : ¬ Occurs (lit "/*") s
  pub sign_rule : (length s ≤ 1) ⊎ (¬ IsSign (back s)) ⊎ HasOther s

starts_with-append : (p s : Text) → starts_with p s ≡ true → (after : Text) × (s ≡ p ++ after)
unfolding starts_with
starts_with-append [] s h = (s, refl)
starts_with-append (c ∷ p) [] h = cc
starts_with-append (c ∷ p) (d ∷ s) h =
    let (after, e) = starts_with-append p s (ground arith) in (after, ground (arith, ==_iff c d))

starts_with_self : (p after : Text) → starts_with p (p ++ after) ≡ true
unfolding starts_with
starts_with_self [] after = refl
starts_with_self (c ∷ p) after = ground (arith, starts_with_self p after)

has_text-Occurs : (p s : Text) → has_text p s ≡ true → Occurs p s
unfolding has_text
has_text-Occurs p [] h = let (after, e) = starts_with-append p [] h in ([], after, e)
has_text-Occurs p (c ∷ s) h = elim (Bool-cases (starts_with p (c ∷ s))) [
  | inl here ↦ let (after, e) = starts_with-append p (c ∷ s) here in ([], after, e)
  | inr later ↦
      let (before, after, e) = has_text-Occurs p s (rw later at h) in
      (c ∷ before, after, ap (◌∷◌ c) e)
]

has_text_at : (before p after : Text) → has_text p (before ++ (p ++ after)) ≡ true
unfolding has_text
has_text_at [] [] [] = refl
has_text_at [] [] (c ∷ after) = unfold starts_with in refl
has_text_at [] (c ∷ p) after = rw (starts_with_self (c ∷ p) after)
has_text_at (c ∷ before) p after = ground (arith, has_text_at before p after)

pub has_text_iff : (p s : Text) → (has_text p s ≡ true) ↔ Occurs p s
has_text_iff p s = (has_text-Occurs p s, λ (before, after, e). rw e (has_text_at before p after))

all_of-IsOperatorChar : (s : Text) → (all_of is_operator_char s ≡ true) ↔ All IsOperatorChar s
all_of-IsOperatorChar [] = (ground arith, ground arith)
all_of-IsOperatorChar (c ∷ s) = ground (arith, all_of-IsOperatorChar s)

all_of-HasOther : (s : Text) → (all_of is_sign s ≡ false) ↔ HasOther s
all_of-HasOther [] = (ground arith, ground arith)
all_of-HasOther (c ∷ s) = ground (arith, all_of-HasOther s)

validate_operator_name-cases :
    (s : Text)
    → (validate_operator_name s ≡ ok tt) ⊎ (validate_operator_name s ≡ err (invalid_operator s))
unfolding validate_operator_name
validate_operator_name-cases s = ground arith

validate_operator_name-IsSign :
    (s : Text)
    → validate_operator_name s ≡ ok tt
    → (length s ≤ 1) ⊎ (¬ IsSign (back s)) ⊎ HasOther s
unfolding validate_operator_name
validate_operator_name-IsSign s h = elim (Bool-cases (all_of is_sign s)) [
  | inl signs ↦ ground arith
  | inr other ↦ inr (inr ((all_of-HasOther s).0 other))
]

validate_operator_name_sound : (s : Text) → validate_operator_name s ≡ ok tt → IsOperatorName s
unfolding validate_operator_name
validate_operator_name_sound s h = record {
  not_empty = ground arith;
  chars = (all_of-IsOperatorChar s).0 (ground arith);
  no_line_comment = λ o. ground (arith, (has_text_iff (lit "--") s).1 o);
  no_block_comment = λ o. ground (arith, (has_text_iff (lit "/*") s).1 o);
  sign_rule = validate_operator_name-IsSign s h;
}

lacks : (p s : Text) → ¬ Occurs p s → has_text p s ≡ false
lacks p s h = elim (Bool-cases (has_text p s)) [
  | inl found ↦ absurd (h ((has_text_iff p s).0 found))
  | inr e ↦ e
]

validate_operator_name_complete : (s : Text) → IsOperatorName s → validate_operator_name s ≡ ok tt
unfolding validate_operator_name
validate_operator_name_complete s h = ground (
  arith,
  is_empty-ne-nil s h.not_empty,
  (all_of-IsOperatorChar s).1 h.chars,
  lacks (lit "--") s h.no_line_comment,
  lacks (lit "/*") s h.no_block_comment,
  h.sign_rule,
  (all_of-HasOther s).1,
)

-- ValidateOperatorName returns exactly for the names that are not empty, have operator characters only
-- and neither comment opener inside, and have a character other than + and - if they are of several
-- characters and end in one of these; else it throws InvalidOperator with the name. So it takes a
-- lone + or -, as the comment in identifier.cpp says and the one in identifier.hpp denies.
pub validate_operator_name_iff :
    (s : Text)
    → ((validate_operator_name s ≡ ok tt) ↔ IsOperatorName s)
      × ((validate_operator_name s ≡ ok tt) ⊎ (validate_operator_name s ≡ err (invalid_operator s)))
validate_operator_name_iff s = (
  (validate_operator_name_sound s, validate_operator_name_complete s),
  validate_operator_name-cases s,
)
