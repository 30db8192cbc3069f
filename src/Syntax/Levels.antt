-- ===== src/Syntax/Levels.antt =====
-- What the reader of Syntax does from one level to the next.
use iron_query.Prelude.{
  ℕ, zero, suc, ◌≤◌, Text, ◌==◌, ◌≡◌, refl, Bool-cases, ◌⊎◌, inl, inr, Option, none, some, arith,
}
use iron_query.Syntax.{Tail, Tree}
use iron_query.Syntax.Grammar.{behind_prefix, read_tail, Read, Inner, after, read_level}
use iron_query.Syntax.Stops.{Stops, Stops-le}

follow-Stops :
    (inner : Inner) (operand : Text → Read) (l : ℕ) (t : Tree) (rest : Text)
    → Stops (suc l) rest
    → after inner operand l t rest (read_tail rest) ≡ some (t, rest)
follow-Stops inner operand l t rest stops = go (read_tail rest) refl
  where
    go :
        (found : Option (Tail × Text))
        → read_tail rest ≡ found
        → after inner operand l t rest found ≡ some (t, rest)
    go none e = refl
    go (some (tail, s)) e = ground (arith, stops.tails_wait tail s e)

suc_cases : (k l : ℕ) → k ≤ suc l → (k ≡ suc l) ⊎ (k ≤ l)
suc_cases k l h = elim (Bool-cases (k == suc l)) [
  | inl same ↦ inl (ground (arith, same))
  | inr differ ↦ inr (ground (arith, differ, h))
]

read_level-suc :
    (inner : Inner) (l : ℕ) (s : Text) {rest : Text} {t : Tree}
    → behind_prefix l s ≡ none
    → Stops (suc l) rest
    → read_level inner l s ≡ some (t, rest)
    → read_level inner (suc l) s ≡ some (t, rest)
unfolding read_level
read_level-suc inner l s {rest} {t} bare stops e =
    rw (bare, e) (follow-Stops inner _ l t rest stops)

-- What a level reads, every higher level that stops there reads, where no prefix operator starts.
pub lift :
    (inner : Inner) (k l : ℕ) (s : Text) {rest : Text} {t : Tree}
    → ((m : ℕ) → k ≤ m → behind_prefix m s ≡ none)
    → k ≤ l
    → Stops l rest
    → read_level inner k s ≡ some (t, rest)
    → read_level inner l s ≡ some (t, rest)
lift inner zero zero s bare h stops e = e
lift inner (suc k) zero s bare h stops e = absurd (omega (arith, h))
lift inner k (suc l) s {rest} {t} bare h stops e = elim (suc_cases k l h) [
  | inl same ↦ rw (← same) e
  | inr below ↦
      read_level-suc inner l s (bare l below) stops
        (lift inner k l s bare below (Stops-le l (suc l) (omega arith) stops) e)
]
