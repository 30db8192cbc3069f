-- ===== src/Identifier/Dotted.antt =====
-- ValidateIdentifier of src/impl/identifier.cpp against the parts between the dots.
use iron_query.Prelude.{
  ℕ, zero, suc, ◌+◌, ◌-◌, ◌<◌, Text, split, length, length-drop, drop-suc-drop, take, drop, all_of,
  All, if◌then◌else◌, ◌==◌, Bool-cases, ◌≡◌, refl, ◌↔◌, inl, inr, Bool, true, false, List, [], ◌∷◌,
  Option, none, some, arith,
}
use iron_query.Exception.{invalid_identifier, Result, ok, err}
use iron_query.Identifier.Plain.{IsPlain, is_plain_identifier_iff}
use iron_query.Identifier.{
  is_plain_identifier, find_from, find, part_at, validate_loop, validate_identifier,
}

-- What a search tells of the first part.
abbrev Found : ℕ → Text → ℕ → Option ℕ → Type 0
Found sep t at none = split sep t ≡ t ∷ []
Found sep t at (some d) =
    (k : ℕ) × (d ≡ at + k) × (k < length t) × (split sep t ≡ take k t ∷ split sep (drop (suc k) t))

Found-cons :
    (sep c : ℕ) (t : Text) (at : ℕ) (r : Option ℕ)
    → c == sep ≡ false
    → Found sep t (at + 1) r
    → Found sep (c ∷ t) at r
unfolding split
Found-cons sep c t at none ne h = rw (ne, h)
Found-cons sep c t at (some d) ne (k, e, lt, h) = (suc k, omega arith, omega arith, rw (ne, h))

find_from-Found : (sep : ℕ) (t : Text) (at : ℕ) → Found sep t at (find_from sep t at)
unfolding find_from split
find_from-Found sep [] at = refl
find_from-Found sep (c ∷ t) at = elim (Bool-cases (c == sep)) [
  | inl e ↦ rw e (0, omega arith, omega arith, rw e)
  | inr ne ↦
      rw ne (Found-cons sep c t at (find_from sep t (at + 1)) ne (find_from-Found sep t (at + 1)))
]

abbrev pub answer : Text → Bool → Result (Unit {0})
answer s valid = if valid then ok tt else err (invalid_identifier s)

-- One round, on the result of the search.
round :
    (fuel : ℕ) (s : Text) (start : ℕ) (dot : Option ℕ)
    → length (drop start s) < suc fuel
    → ((d : ℕ)
        → length (drop d s) < fuel
        → validate_loop fuel s d
          ≡ some (answer s (all_of is_plain_identifier (split b'.' (drop d s)))))
    → find b'.' s start ≡ dot
    → Found b'.' (drop start s) start dot
    → validate_loop (suc fuel) s start
      ≡ some (answer s (all_of is_plain_identifier (split b'.' (drop start s))))
unfolding validate_loop part_at
round fuel s start none lt ih e h =
    rw (e, h)
      (elim (Bool-cases (is_plain_identifier (drop start s))) [ inl p ↦ rw p | inr p ↦ rw p ])
round fuel s start (some d) lt ih e (k, at, k_lt, h) =
    let next : d + 1 ≡ suc (start + k) = omega arith in
    let first : d - start ≡ k = omega arith in
    let rest = drop-suc-drop start k s in
    let shorter : length (drop (d + 1) s) < fuel =
      omega (arith, length-drop {0} start s, length-drop {0} (d + 1) s) in
    rw (e, h, first, rest, ← next, ih (d + 1) shorter)
      (elim (Bool-cases (is_plain_identifier (take k (drop start s)))) [
        | inl p ↦ rw p
        | inr p ↦ rw p
      ])

validate_loop-split :
    (fuel : ℕ) (s : Text) (start : ℕ)
    → length (drop start s) < fuel
    → validate_loop fuel s start
      ≡ some (answer s (all_of is_plain_identifier (split b'.' (drop start s))))
validate_loop-split zero s start lt = absurd (omega arith)
validate_loop-split (suc fuel) s start lt =
    round fuel s start (find b'.' s start) lt (λ d. validate_loop-split fuel s d) refl
      (unfold find in find_from-Found b'.' (drop start s) start)

-- ValidateIdentifier returns exactly when every part between the dots is a plain identifier, and
-- else throws InvalidIdentifier with the whole text; its loop ends after at most one round more than
-- there are bytes.
pub validate_identifier-split :
    (fuel : ℕ) (s : Text)
    → length s < fuel
    → (validate_loop fuel s 0
        ≡ some (
            if all_of is_plain_identifier (split b'.' s)
            then ok tt
            else err (invalid_identifier s)))
      × (some (validate_identifier s) ≡ validate_loop fuel s 0)
unfolding validate_identifier
validate_identifier-split fuel s h =
    let whole = validate_loop-split (length s + 1) s 0 (omega arith) in
    let given = validate_loop-split fuel s 0 h in (given, rw (whole, given))

all_of-IsPlain : (ps : List Text) → (all_of is_plain_identifier ps ≡ true) ↔ All IsPlain ps
all_of-IsPlain [] = (ground arith, ground arith)
all_of-IsPlain (p ∷ ps) = ground (arith, is_plain_identifier_iff p, all_of-IsPlain ps)

pub validate_identifier-eq :
    (s : Text) → validate_identifier s ≡ answer s (all_of is_plain_identifier (split b'.' s))
unfolding validate_identifier
validate_identifier-eq s = rw (validate_loop-split (length s + 1) s 0 (omega arith))

-- A text passes ValidateIdentifier exactly when all its parts have the shape of an identifier.
pub validate_identifier_iff :
    (s : Text) → (validate_identifier s ≡ ok tt) ↔ All IsPlain (split b'.' s)
validate_identifier_iff s =
    rw (validate_identifier-eq s) (ground (arith, all_of-IsPlain (split b'.' s)))
