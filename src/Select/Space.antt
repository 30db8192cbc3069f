-- ===== src/Select/Space.antt =====
-- Texts that differ only in how much white space stands where there is some.
use iron_query.Prelude.{
  ℕ, Text, ◌==◌, if◌then◌else◌, ◌≡◌, refl, sym, ◌∙◌, ap, Bool, ◌||◌, [], ◌∷◌, ◌++◌, append_assoc,
}

unfoldable pub is_space : ℕ → Bool
is_space c = c == b' ' || c == b'\n'

-- A byte behind other text; the flag is set behind white space.
unfoldable pub shown : Bool → ℕ → Text
unfolding is_space
shown gap c = if is_space c then (if gap then [] else b' ' ∷ []) else c ∷ []

-- A text with each run of white space made one space, and whether it ends in white space.
unfoldable pub squeezed : Bool → Text → Text
unfolding shown
squeezed gap [] = []
squeezed gap (c ∷ s) = shown gap c ++ squeezed (is_space c) s

unfoldable pub gap_after : Bool → Text → Bool
unfolding is_space
gap_after gap [] = gap
gap_after gap (c ∷ s) = gap_after (is_space c) s

-- Behind any text, the two show the same and end alike.
pub record SameLayout (a b : Text) : Type 0 where
  pub same : (gap : Bool) → squeezed gap a ≡ squeezed gap b
  pub ends : (gap : Bool) → gap_after gap a ≡ gap_after gap b

gap_after-append :
    (gap : Bool) (a b : Text) → gap_after gap (a ++ b) ≡ gap_after (gap_after gap a) b
unfolding gap_after
gap_after-append gap [] b = refl
gap_after-append gap (c ∷ a) b = gap_after-append (is_space c) a b

squeezed-append :
    (gap : Bool) (a b : Text)
    → squeezed gap (a ++ b) ≡ squeezed gap a ++ squeezed (gap_after gap a) b
unfolding squeezed gap_after
squeezed-append gap [] b = refl
squeezed-append gap (c ∷ a) b =
    ap (λ t. shown gap c ++ t) (squeezed-append (is_space c) a b) ∙ rw append_assoc

pub SameLayout-refl : (a : Text) → SameLayout a a
SameLayout-refl a = record { same = λ gap. refl; ends = λ gap. refl }

pub SameLayout-of_eq : {a b c d : Text} → a ≡ b → c ≡ d → SameLayout b d → SameLayout a c
SameLayout-of_eq p q h = rw (p, q) h

pub SameLayout-append :
    {a b c d : Text} → SameLayout a b → SameLayout c d → SameLayout (a ++ c) (b ++ d)
SameLayout-append {a} {b} {c} {d} h k = record {
  same = λ gap.
      squeezed-append gap a c
      ∙ rw (h.same gap, h.ends gap, k.same (gap_after gap b)) (sym (squeezed-append gap b d));
  ends = λ gap.
      gap_after-append gap a c
      ∙ rw (h.ends gap, k.ends (gap_after gap b)) (sym (gap_after-append gap b d));
}
