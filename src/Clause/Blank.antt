-- ===== src/Clause/Blank.antt =====
-- Texts without their spaces and newlines; IndentBlock of src/impl/render.cpp adds nothing else.
use iron_query.Prelude.{
  ℕ, zero, suc, Text, ◌==◌, replicate, if◌then◌else◌, ◌||◌, ◌≡◌, refl, sym, ap, ◌∙◌, Bool, true,
  false, Bool-cases, inl, inr, [], ◌∷◌, ◌++◌, append_assoc, append-nil,
}
use iron_query.Clause.{indent_block, indent_onto}

abbrev pub is_blank : ℕ → Bool
is_blank c = c == b' ' || c == b'\n'

unfoldable pub unspaced : Text → Text
unspaced [] = []
unspaced (c ∷ s) = if is_blank c then unspaced s else c ∷ unspaced s

pub unspaced-append : (s t : Text) → unspaced (s ++ t) ≡ unspaced s ++ unspaced t
unfolding unspaced
unspaced-append [] t = refl
unspaced-append (c ∷ s) t = elim (Bool-cases (is_blank c)) [
  | inl blank ↦ rw blank (unspaced-append s t)
  | inr black ↦ rw black (ap (λ x. c ∷ x) (unspaced-append s t))
]

unspaced-replicate : (n : ℕ) → unspaced (replicate n b' ') ≡ []
unfolding unspaced
unspaced-replicate zero = refl
unspaced-replicate (suc n) = unspaced-replicate n

unspaced-nil : unspaced [] ≡ []
unfolding unspaced
unspaced-nil = refl

unspaced-pushed :
    (newline : Bool) (prefix s : Text) (c : ℕ)
    → unspaced prefix ≡ []
    → unspaced (if newline then (s ++ c ∷ []) ++ prefix else s ++ c ∷ [])
      ≡ unspaced s ++ unspaced (c ∷ [])
unspaced-pushed true prefix s c h =
    unspaced-append (s ++ c ∷ []) prefix ∙ rw (h, append-nil) (unspaced-append s (c ∷ []))
unspaced-pushed false prefix s c h = unspaced-append s (c ∷ [])

unspaced-indent_onto :
    (prefix text s : Text)
    → unspaced prefix ≡ []
    → unspaced (indent_onto prefix text s) ≡ unspaced s ++ unspaced text
unfolding indent_onto
unspaced-indent_onto prefix [] s h =
    sym (append-nil (unspaced s)) ∙ ap (λ x. unspaced s ++ x) (sym unspaced-nil)
unspaced-indent_onto prefix (c ∷ text) s h =
    unspaced-indent_onto prefix text (if c == b'\n' then (s ++ c ∷ []) ++ prefix else s ++ c ∷ []) h
    ∙ ap (λ x. x ++ unspaced text) (unspaced-pushed (c == b'\n') prefix s c h)
    ∙ append_assoc (unspaced s) (unspaced (c ∷ [])) (unspaced text)
    ∙ ap (λ x. unspaced s ++ x) (sym (unspaced-append (c ∷ []) text))

pub unspaced-indent_block : (text : Text) (n : ℕ) → unspaced (indent_block text n) ≡ unspaced text
unfolding indent_block
unspaced-indent_block text n =
    unspaced-indent_onto (replicate n b' ') text (replicate n b' ') (unspaced-replicate n)
    ∙ ap (λ x. x ++ unspaced text) (unspaced-replicate n)
