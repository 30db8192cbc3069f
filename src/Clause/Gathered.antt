-- ===== src/Clause/Gathered.antt =====
-- A clause that SetOnce of src/impl/render.hpp fills, and how a statement appends it.
use iron_query.Prelude.{
  refl, ℕ, suc, ◌+◌, ◌≤◌, arith, Text, is_empty, if◌then◌else◌, not, ◌≡◌, sym, ap, ◌∙◌, List, [],
  ◌∷◌, ◌++◌, append_assoc, append-nil,
}
use iron_query.Exception.{Result, ok, err}

-- What the calls of a chain give a clause.
abbrev pub gathered {ℓ} : {A : Type ℓ} → (A → Text) → List A → Text
gathered part [] = []
gathered part (call ∷ calls) = part call ++ gathered part calls

pub gathered-step {ℓ} :
    {A : Type ℓ} (part : A → Text) (call : A) (calls : List A) (a : Text) {b c : Text}
    → b ≡ a ++ part call
    → c ≡ b ++ gathered part calls
    → c ≡ a ++ gathered part (call ∷ calls)
gathered-step part call calls a hb hc =
    hc ∙ ap (λ s. s ++ gathered part calls) hb ∙ append_assoc a (part call) (gathered part calls)

-- The text of a table where it renders.
abbrev pub shown : Result Text → Text
shown (ok s) = s
shown (err e) = []

-- A clause behind its keyword, if there is one.
abbrev pub clause : Text → Text → Text
clause keyword [] = []
clause keyword (c ∷ s) = keyword ++ (c ∷ s)

pub clause-append :
    (before keyword s : Text)
    → (if not (is_empty s) then (before ++ keyword) ++ s else before) ≡ before ++ clause keyword s
clause-append before keyword [] = sym (append-nil before)
clause-append before keyword (c ∷ s) = append_assoc before keyword (c ∷ s)

-- Whether a clause holds a text: 0 or 1.
abbrev pub filled : Text → ℕ
filled [] = 0
filled (c ∷ s) = 1

pub filled_bound : (s : Text) → filled s ≤ 1
filled_bound [] = omega arith
filled_bound (c ∷ s) = omega arith

-- A clause that one more call sets is free.
pub filled-free : (s : Text) (n : ℕ) → filled s + suc n ≤ 1 → s ≡ []
filled-free [] n h = refl
filled-free (c ∷ s) n h = absurd (omega (arith, h))
