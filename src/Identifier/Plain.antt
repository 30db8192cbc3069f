-- ===== src/Identifier/Plain.antt =====
-- IsPlainIdentifier of src/impl/identifier.cpp against the shape that its comment gives.
use iron_query.Prelude.{ℕ, ◌≤◌, Text, All, ◌≡◌, ◌↔◌, ◌⊎◌, true, [], ◌∷◌, all_of, arith}
use iron_query.Identifier.{is_word, is_plain_identifier}

abbrev pub IsLetter : ℕ → Type 0
IsLetter c = (b'a' ≤ c) × (c ≤ b'z') ⊎ (b'A' ≤ c) × (c ≤ b'Z')

abbrev pub IsDigit : ℕ → Type 0
IsDigit c = (b'0' ≤ c) × (c ≤ b'9')

abbrev pub IsStart : ℕ → Type 0
IsStart c = IsLetter c ⊎ (c ≡ b'_')

abbrev pub IsWord : ℕ → Type 0
IsWord c = IsStart c ⊎ IsDigit c

-- A letter or underscore, followed by letters, digits and underscores.
abbrev pub IsPlain : Text → Type 0
IsPlain [] = ⊥
IsPlain (c ∷ cs) = IsStart c × All IsWord cs

pub is_word_iff : (c : ℕ) → (is_word c ≡ true) ↔ IsWord c
unfolding is_word
is_word_iff c = (ground arith, ground arith)

pub all_of-is_word : (s : Text) → (all_of is_word s ≡ true) ↔ All IsWord s
all_of-is_word [] = (ground arith, ground arith)
all_of-is_word (c ∷ cs) = ground (arith, is_word_iff c, all_of-is_word cs)

-- `IsPlainIdentifier` answers true exactly for a letter or underscore followed by letters, digits
-- and underscores.
pub is_plain_identifier_iff : (s : Text) → (is_plain_identifier s ≡ true) ↔ IsPlain s
unfolding is_plain_identifier
is_plain_identifier_iff [] = (ground arith, ground arith)
is_plain_identifier_iff (c ∷ cs) =
    (ground (arith, all_of-is_word cs), ground (arith, all_of-is_word cs))
