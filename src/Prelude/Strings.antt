-- ===== src/Prelude/Strings.antt =====
-- Text is the bytes of a std::string or std::string_view.
use Prim.Native.Nat.{ℕ}
use Prim.Native.Char.{code}
use Prim.Native.String.{String}
use mathlib.Core.Path.{◌≡◌, refl}
use mathlib.Core.Logic.{◌↔◌}
use mathlib.Core.Bool.{Bool, true, false, ◌&&◌, ◌||◌}
use mathlib.Core.List.{List, [], ◌∷◌, ◌++◌}
use native.Mathlib.Omega.{arith}
use iron_query.Prelude.Lists.{is_empty}
use iron_query.Prelude.Tests.{◌==◌, if◌then◌else◌}

abbrev pub Text : Type 0
Text = List ℕ

-- The bytes of a literal, which is ASCII everywhere in the program.
unfoldable pub lit : String → Text
lit String.[] = []
lit (String.◌∷◌ c s) = code c ∷ lit s

-- `operator==` of std::string.
unfoldable pub text_eq : Text → Text → Bool
text_eq [] [] = true
text_eq (x ∷ xs) (y ∷ ys) = x == y && text_eq xs ys
text_eq _ _ = false

pub text_eq_iff : (a b : Text) → (text_eq a b ≡ true) ↔ (a ≡ b)
unfolding text_eq
text_eq_iff (x ∷ a) (y ∷ b) = ground (arith, text_eq_iff a b)
text_eq_iff _ _ = ground arith

-- `find(c) != npos`.
unfoldable pub has_byte : ℕ → Text → Bool
has_byte c [] = false
has_byte c (x ∷ xs) = x == c || has_byte c xs

-- `find(pattern) == 0`.
unfoldable pub starts_with : Text → Text → Bool
starts_with [] s = true
starts_with (p ∷ ps) [] = false
starts_with (p ∷ ps) (c ∷ cs) = p == c && starts_with ps cs

-- `find(pattern) != npos`.
unfoldable pub has_text : Text → Text → Bool
unfolding starts_with
has_text p [] = starts_with p []
has_text p (c ∷ cs) = starts_with p (c ∷ cs) || has_text p cs

-- The parts of a text between the separators.
abbrev pub in_front : ℕ → List Text → List Text
in_front c [] = (c ∷ []) ∷ []
in_front c (p ∷ ps) = (c ∷ p) ∷ ps

unfoldable pub split : ℕ → Text → List Text
split sep [] = [] ∷ []
split sep (c ∷ cs) = if c == sep then [] ∷ split sep cs else in_front c (split sep cs)

-- The items with a separator between them.
abbrev pub following : Text → List Text → Text
following sep [] = []
following sep (item ∷ items) = sep ++ (item ++ following sep items)

abbrev pub intercalate : Text → List Text → Text
intercalate sep [] = []
intercalate sep (item ∷ items) = item ++ following sep items

pub is_empty-append_ne : (s t : Text) → is_empty t ≡ false → is_empty (s ++ t) ≡ false
is_empty-append_ne [] t h = h
is_empty-append_ne (c ∷ s) t h = refl

pub is_empty-append : (s t : Text) → is_empty s ≡ false → is_empty (s ++ t) ≡ false
is_empty-append [] t h = cc
is_empty-append (c ∷ s) t h = refl
