-- ===== src/Select/Embedded.antt =====
-- A SelectExpr as a query that src/with.cpp embeds: its two renderings hold the same bytes but for
-- spaces and newlines.
use iron_query.Prelude.{
  Text, ◌≡◌, refl, sym, ap, ◌∙◌, Bool, true, false, Bool-cases, inl, inr, [], ◌∷◌, ◌++◌,
}
use iron_query.Exception.{Result, ok, err}
use iron_query.Clause.Blank.{is_blank, unspaced, unspaced-append}
use iron_query.With.Layout.{IsQuery}
use iron_query.Select.{SelectExpr, to_string, to_string_formatted, select_table}
use iron_query.Select.Space.{is_space, shown, squeezed, SameLayout}
use iron_query.Select.Layout.{LeadsWithText, SameOutcome, to_string_formatted-layout}

shown-alone :
    (gap : Bool) (c : _) (r : Text) → unspaced (shown gap c) ++ unspaced r ≡ unspaced (c ∷ r)
unfolding unspaced shown is_space
shown-alone true c r = elim (Bool-cases (is_blank c)) [
  | inl blank ↦ rw blank refl
  | inr black ↦ rw (black, black) refl
]
shown-alone false c r = elim (Bool-cases (is_blank c)) [
  | inl blank ↦ rw blank refl
  | inr black ↦ rw (black, black) refl
]

unspaced-shown :
    (gap : Bool) (c : _) (s t : Text)
    → unspaced s ≡ unspaced t
    → unspaced (shown gap c ++ s) ≡ unspaced (c ∷ t)
unspaced-shown gap c s t h =
    unspaced-append (shown gap c) s ∙ ap (λ x. unspaced (shown gap c) ++ x) h ∙ shown-alone gap c t

unspaced-squeezed : (gap : Bool) (s : Text) → unspaced (squeezed gap s) ≡ unspaced s
unfolding squeezed
unspaced-squeezed gap [] = refl
unspaced-squeezed gap (c ∷ s) =
    unspaced-shown gap c (squeezed (is_space c) s) s (unspaced-squeezed (is_space c) s)

SameLayout-unspaced : (s t : Text) → SameLayout s t → unspaced s ≡ unspaced t
SameLayout-unspaced s t layout =
    sym (unspaced-squeezed false s) ∙ ap unspaced (layout.same false) ∙ unspaced-squeezed false t

formatted-outcome :
    (s : Text) (outcome : Result Text)
    → SameOutcome (ok s) outcome
    → (t : Text) × (outcome ≡ ok t) × SameLayout s t
formatted-outcome s (ok t) h = (t, refl, h)
formatted-outcome s (err e) h = absurd h

-- A SELECT that renders, and whose lists start with terms that have texts, is a query that a CTE may
-- hold: it is bracketed for embedding, and its renderings agree but for spaces and newlines.
pub select_table-IsQuery :
    (q : SelectExpr) (s : Text) → LeadsWithText q → to_string q ≡ ok s → IsQuery (select_table q)
unfolding select_table
select_table-IsQuery q s leads h =
    let same : SameOutcome (ok s) (to_string_formatted q) =
      rw h at (to_string_formatted-layout q leads) in
    let (t, e, layout) = formatted-outcome s (to_string_formatted q) same in
    record {
      line = s;
      block = t;
      renders = h;
      renders_formatted = e;
      brackets = rw h refl;
      same = SameLayout-unspaced s t layout;
    }
