-- ===== src/Query/Selects.antt =====
-- The calls of a SELECT's setters together (src/select_expr.cpp), and the text of the builder they
-- leave.
use iron_query.Prelude.{
  ℕ, Text, lit, map, is_empty-ne-nil, ◌≡◌, ◌≢◌, refl, ap, Bool, true, false, not, ◌&&◌, List, [],
  append_assoc, Option, none, some, ℤ,
}
use iron_query.Exception.{Result, ok}
use iron_query.Decimal
use iron_query.Expr
use iron_query.Expr.{Expr, Condition, SelectItem, condition_to_string, item_to_string}
use iron_query.OrderBy.{OrderByTerm}
use iron_query.Clause.{join_csv, render_exprs, render_items, render_orders, render_order, is_none}
use iron_query.Select
use iron_query.Select.{SelectExpr, append_if, head_text}
use iron_query.Syntax.Stops.{tree_text}
use iron_query.Syntax.Values.{Value, Predicate, build, build_condition, value_tree, predicate_tree}
use iron_query.Query.{
  Distinct, all_rows, distinct_rows, distinct_on, Item, Term, Body, where_mark, group_mark,
  having_mark, order_mark, limit_mark, offset_mark, csv, item_text, term_text, distinct_text,
  select_text,
}
use iron_query.Query.Parts.{ListFits}
use iron_query.Query.Fits.{MayFit, ItemFits, TermFits, DistinctFits, BodyFits}
use iron_query.Query.Terms.{Fits}
use iron_query.Query.Pieces.{
  Gives, build-Gives, build_condition-Gives, build_item-Gives, build_term-Gives, tree_text-shown,
  append-shown,
}
use iron_query.Query.Bodies.{
  held, fresh, Agree, append_if-part, MayGive, set_if-Agree, listed-Gives,
}
use iron_query.Query.Statements.{
  build_each, build_item, build_term, set_distinct, set_body, mapped, item_tree, term_tree,
  distinct_tree, body_tree,
}

module _ (fuel : ℕ) where
  pub values-Gives :
      (vs : List Value)
      → ListFits fuel (Fits fuel) (map value_tree vs)
      → Gives
          (build_each build vs)
          (λ es. join_csv (render_exprs es))
          (csv tree_text (map value_tree vs))
  unfolding render_exprs
  values-Gives vs h =
      listed-Gives build Expr.to_string value_tree tree_text (Fits fuel) fuel vs
        (λ v p. build-Gives v p.0) (λ t p. tree_text-shown t p.0) h

  items-Gives :
      (items : List (Item Value))
      → ListFits fuel (ItemFits fuel) (map item_tree items)
      → Gives
          (build_each build_item items)
          (λ is. join_csv (render_items is))
          (csv item_text (map item_tree items))
  unfolding render_items
  items-Gives items h =
      listed-Gives build_item item_to_string item_tree item_text (ItemFits fuel) fuel items
        (λ i p. build_item-Gives i p.0.0 p.1)
        (λ i p. append-shown (tree_text i.0) _ (tree_text-shown i.0 p.0.0)) h

  terms-Gives :
      (terms : List (Term Value))
      → ListFits fuel (TermFits fuel) (map term_tree terms)
      → Gives
          (build_each build_term terms)
          (λ ts. join_csv (render_orders ts))
          (csv term_text (map term_tree terms))
  unfolding render_orders
  terms-Gives terms h =
      listed-Gives build_term render_order term_tree term_text (TermFits fuel) fuel terms
        (λ t p. build_term-Gives t p.0)
        (λ t p. append-shown (tree_text t.0) _ (tree_text-shown t.0 p.0)) h

  set_distinct-Held :
      (dist : Distinct Value) (item : Text)
      → DistinctFits fuel (distinct_tree dist)
      → (d : Bool) × (on : Option (List Expr)) × (set_distinct dist (fresh item)
          ≡ ok (held item d on none none none none none none none))
        × ((d && not (is_none on)) ≡ false)
        × (head_text d on ≡ distinct_text (distinct_tree dist))
  unfolding set_distinct Select.distinct Select.distinct_on lit
  set_distinct-Held all_rows item h = (false, none, refl, refl, refl)
  set_distinct-Held distinct_rows item h = (true, none, refl, refl, refl)
  set_distinct-Held (distinct_on vs) item h =
      let (es, made, shown) = values-Gives vs h in
      (false, some es, rw made refl, refl, rw shown refl)

  module _ {A B T : Type 0} (make : A → Result B) (shown : B → Text) (tree : A → T)
      (text : T → Text) where
    mapped-Gives :
        (P : T → Type 0) (o : Option A)
        → ((a : A) → P (tree a) → Gives (make a) shown (text (tree a)))
        → MayFit P (mapped tree o)
        → MayGive make shown (λ a. text (tree a)) o
    mapped-Gives P none f h = tt
    mapped-Gives P (some a) f h = f a h

    Agree-mapped :
        (o : Option A) (ob : Option B)
        → Agree shown (λ a. text (tree a)) ob o
        → Agree shown text ob (mapped tree o)
    Agree-mapped none none h = tt
    Agree-mapped (some a) (some b) h = h
    Agree-mapped none (some b) h = h
    Agree-mapped (some a) none h = h

  given : (o : Option ℤ) → MayGive ok Decimal.to_string Decimal.to_string o
  given none = tt
  given (some n) = (n, refl, refl)

  to_string-held :
      (b : Body Value Predicate) (item : Text) (d : Bool) (on : Option (List Expr))
      (items : List SelectItem) (wh : Option Condition) (gr : Option (List Expr))
      (ha : Option Condition) (od : Option (List OrderByTerm)) (li os : Option ℤ)
      → item ≢ []
      → (d && not (is_none on)) ≡ false
      → head_text d on ≡ distinct_text (distinct_tree b.distinct)
      → join_csv (render_items items) ≡ csv item_text (map item_tree b.items)
      → Agree condition_to_string tree_text wh (mapped predicate_tree b.condition)
      → Agree
          (λ es. join_csv (render_exprs es))
          (csv tree_text)
          gr
          (mapped (map value_tree) b.groups)
      → Agree condition_to_string tree_text ha (mapped predicate_tree b.having)
      → Agree
          (λ ts. join_csv (render_orders ts))
          (csv term_text)
          od
          (mapped (map term_tree) b.orders)
      → Agree Decimal.to_string Decimal.to_string li b.limit
      → Agree Decimal.to_string Decimal.to_string os b.offset
      → Select.to_string (held item d on (some items) wh gr ha od li os)
        ≡ ok (select_text (body_tree b) item)
  unfolding Select.to_string Select.ensure_valid Select.select_text
  to_string-held b item d on items wh gr ha od li os ne apart head shown e1 e2 e3 e4 e5 e6 =
      rw
        (
          is_empty-ne-nil item ne,
          apart,
          head,
          shown,
          append_if-part where_mark condition_to_string tree_text wh
              (mapped predicate_tree b.condition) _ e1,
          append_if-part group_mark (λ es. join_csv (render_exprs es)) (csv tree_text) gr
              (mapped (map value_tree) b.groups) _ e2,
          append_if-part having_mark condition_to_string tree_text ha
              (mapped predicate_tree b.having) _ e3,
          append_if-part order_mark (λ ts. join_csv (render_orders ts)) (csv term_text) od
              (mapped (map term_tree) b.orders) _ e4,
          append_if-part limit_mark Decimal.to_string Decimal.to_string li b.limit _ e5,
          append_if-part offset_mark Decimal.to_string Decimal.to_string os b.offset _ e6,
        )
        (ap ok (simp append_assoc))

  pub set_body-text :
      (b : Body Value Predicate) (item : Text)
      → BodyFits fuel (body_tree b)
      → item ≢ []
      → (q : SelectExpr) × (set_body b (fresh item) ≡ ok q)
        × (Select.to_string q ≡ ok (select_text (body_tree b) item))
  unfolding set_body Select.select Select.where_clause Select.group_by Select.having Select.order_by
      Select.limit Select.offset
  set_body-text b item h ne =
      let (d, on, first, apart, head) = set_distinct-Held b.distinct item h.distinct in
      let (items, listed, items_shown) = items-Gives b.items h.items in
      let is = some items in
      let (wh, set_wh, e1) =
        set_if-Agree build_condition condition_to_string (λ p. tree_text (predicate_tree p))
          Select.where_clause (λ o. held item d on is o none none none none none) b.condition
          (λ c. refl)
          (mapped-Gives build_condition condition_to_string predicate_tree tree_text (Fits fuel)
            b.condition (λ p f. build_condition-Gives p f.0) h.condition) in
      let (gr, set_gr, e2) =
        set_if-Agree (build_each build) (λ es. join_csv (render_exprs es))
          (λ vs. csv tree_text (map value_tree vs)) Select.group_by
          (λ o. held item d on is wh o none none none none) b.groups (λ c. refl)
          (mapped-Gives (build_each build) (λ es. join_csv (render_exprs es)) (map value_tree)
            (csv tree_text) (ListFits fuel (Fits fuel)) b.groups values-Gives h.groups) in
      let (ha, set_ha, e3) =
        set_if-Agree build_condition condition_to_string (λ p. tree_text (predicate_tree p))
          Select.having (λ o. held item d on is wh gr o none none none) b.having (λ c. refl)
          (mapped-Gives build_condition condition_to_string predicate_tree tree_text (Fits fuel)
            b.having (λ p f. build_condition-Gives p f.0) h.having) in
      let (od, set_od, e4) =
        set_if-Agree (build_each build_term) (λ ts. join_csv (render_orders ts))
          (λ ts. csv term_text (map term_tree ts)) Select.order_by
          (λ o. held item d on is wh gr ha o none none) b.orders (λ c. refl)
          (mapped-Gives (build_each build_term) (λ ts. join_csv (render_orders ts)) (map term_tree)
            (csv term_text) (ListFits fuel (TermFits fuel)) b.orders terms-Gives h.orders) in
      let (li, set_li, e5) =
        set_if-Agree ok Decimal.to_string Decimal.to_string Select.limit
          (λ o. held item d on is wh gr ha od o none) b.limit (λ c. refl) (given b.limit) in
      let (os, set_os, e6) =
        set_if-Agree ok Decimal.to_string Decimal.to_string Select.offset
          (λ o. held item d on is wh gr ha od li o) b.offset (λ c. refl) (given b.offset) in
      (
        held item d on is wh gr ha od li os,
        rw (first, listed, set_wh, set_gr, set_ha, set_od, set_li, set_os) refl,
        to_string-held b item d on items wh gr ha od li os ne apart head items_shown
            (Agree-mapped build_condition condition_to_string predicate_tree tree_text b.condition
              wh e1)
            (Agree-mapped (build_each build) (λ es. join_csv (render_exprs es)) (map value_tree)
              (csv tree_text) b.groups gr e2)
            (Agree-mapped build_condition condition_to_string predicate_tree tree_text b.having ha
              e3)
            (Agree-mapped (build_each build_term) (λ ts. join_csv (render_orders ts))
              (map term_tree) (csv term_text) b.orders od e4)
            e5 e6,
      )
