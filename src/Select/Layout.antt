-- ===== src/Select/Layout.antt =====
-- The two renderings of src/select_expr.cpp differ only in white space.
use iron_query.Prelude.{Text, ◌≡◌, refl, List, Option, none, some}
use iron_query.Exception.{Result, ok, err, ◌>>=◌}
use native.Mathlib.Omega.{arith}
use iron_query.Expr.{SelectItem}
use iron_query.Clause.{render_exprs, render_items, render_orders}
use iron_query.Clause.Csv.{from_first}
use iron_query.Select.Space.{SameLayout, SameLayout-refl, SameLayout-append}
use iron_query.Select.{
  SelectExpr, select_text, select_text_formatted, ensure_valid, to_string, to_string_formatted,
}
use iron_query.Select.Pieces.{
  append_if-layout, group_by_layout, order_by_layout, head-layout, from_words, where_words,
  having_words, limit_words, offset_words,
}

-- The first of the texts, if there is one, is not empty.
abbrev pub FirstShown {ℓ} : {A : Type ℓ} → (A → List Text) → Option A → Type 0
FirstShown rendered none = Unit
FirstShown rendered (some terms) = from_first (rendered terms) ≡ rendered terms

FirstShown-some {ℓ} :
    {A : Type ℓ} (rendered : A → List Text) (o : Option A) (terms : A)
    → FirstShown rendered o
    → o ≡ some terms
    → from_first (rendered terms) ≡ rendered terms
FirstShown-some rendered none terms h e = cc
FirstShown-some rendered (some t) terms h e = let same : t ≡ terms = cc in rw (← same) h

-- The first term of each list, if there is one, has a text.
pub record LeadsWithText (q : SelectExpr) : Type 0 where
  pub items : FirstShown render_items q.select_
  pub groups : FirstShown render_exprs q.group_by_
  pub orders : FirstShown render_orders q.order_by_

select_text-layout :
    (q : SelectExpr) (items : List SelectItem)
    → LeadsWithText q
    → q.select_ ≡ some items
    → SameLayout (select_text q items) (select_text_formatted q items)
unfolding select_text select_text_formatted
select_text-layout q items h e =
    append_if-layout q.offset_ _ _ _ _
      (append_if-layout q.limit_ _ _ _ _
        (append_if-layout q.order_by_ _ _ _ _
          (append_if-layout q.having_ _ _ _ _
            (append_if-layout q.group_by_ _ _ _ _
              (append_if-layout q.where_ _ _ _ _
                (SameLayout-append
                  (SameLayout-append
                    (head-layout q.distinct_ q.distinct_on_ (render_items items)
                      (FirstShown-some render_items q.select_ items h.items e))
                    from_words)
                  (SameLayout-refl q.from_))
                (λ c p. SameLayout-append where_words (SameLayout-refl _)))
              (λ es p.
                group_by_layout (render_exprs es)
                  (FirstShown-some render_exprs q.group_by_ es h.groups p)))
            (λ c p. SameLayout-append having_words (SameLayout-refl _)))
          (λ ts p.
            order_by_layout (render_orders ts)
              (FirstShown-some render_orders q.order_by_ ts h.orders p)))
        (λ n p. SameLayout-append limit_words (SameLayout-refl _)))
      (λ n p. SameLayout-append offset_words (SameLayout-refl _))

-- Two renderings agree: texts of the same layout, or the same exception.
abbrev pub SameOutcome : Result Text → Result Text → Type 0
SameOutcome (ok s) (ok t) = SameLayout s t
SameOutcome (err e) (err e') = e ≡ e'
SameOutcome _ _ = ⊥

ensure_valid-select :
    (q : SelectExpr) {items : List SelectItem} → ensure_valid q ≡ ok items → q.select_ ≡ some items
unfolding ensure_valid
ensure_valid-select q h = ground arith

-- ToStringFormatted throws what ToString throws, and else gives a text that differs from ToString's
-- only in the white space that stands between the same words, if the first term of every list has
-- a text.
pub to_string_formatted-layout :
    (q : SelectExpr) → LeadsWithText q → SameOutcome (to_string q) (to_string_formatted q)
unfolding to_string to_string_formatted
to_string_formatted-layout q h = go (ensure_valid q) refl
  where
    go :
        (valid : Result (List SelectItem))
        → ensure_valid q ≡ valid
        → SameOutcome
            (valid >>= λ items. ok (select_text q items))
            (valid >>= λ items. ok (select_text_formatted q items))
    go (ok items) e = select_text-layout q items h (ensure_valid-select q e)
    go (err x) e = refl
