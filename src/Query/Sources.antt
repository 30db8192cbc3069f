-- ===== src/Query/Sources.antt =====
-- The FROM items of a statement (src/table.cpp, src/virtual_table.cpp, src/join.cpp) and the whole
-- statement, with the texts that its virtual table gives.
use iron_query.Prelude.{
  map, List, ℕ, Text, lit, ◌≡◌, ◌≢◌, refl, sym, ap, ◌∙◌, [], ◌∷◌, ◌++◌, append_assoc, append-nil,
  is_empty-ne-nil, Option, none, some,
}
use iron_query.Exception.{>>=-eq-ok, ok, ◌>>=◌}
use iron_query.VirtualTable.{VirtualTable}
use iron_query.Table
use iron_query.Table.{from_raw, table, as_table}
use iron_query.Join
use iron_query.Join.{Join, JoinKind, is_natural, join, on, using, join_table, kind_text}
use iron_query.SetOp
use iron_query.SetOp.{set_op, set_op_table}
use iron_query.Select
use iron_query.Select.{SelectExpr, from, select_table}
use iron_query.Expr.{Expr, condition_to_string}
use iron_query.Syntax.Stops.{tree_text}
use iron_query.Syntax.Values.{value_tree, Value, Predicate, predicate_tree}
use iron_query.Clause.{join_csv, render_exprs}
use iron_query.Query.Parts.{ListFits}
use iron_query.Query.{
  csv, Qualifier, unqualified, on_condition, using_columns, Ref, Joined, Body, from_table,
  from_query, combined, aliased, ref_text, on_text, join_word, joined_text, select_text, query_text,
}
use iron_query.Query.Fits.{BodyFits, QueryFits}
use iron_query.Query.Tokens.{AliasOk}
use iron_query.Query.Terms.{Fits, OnFits, JoinFits}
use iron_query.Query.Pieces.{build_condition-Gives, tree_text-shown, append-shown, alias-valid}
use iron_query.Query.Selects.{values-Gives, set_body-text}
use iron_query.Query.Statements.{
  Statement, build_ref, qualified, build_source, set_body, build_query, mapped, qualifier_tree,
  joined_tree, body_tree, query_tree,
}

-- A virtual table as a FROM item of its own or beside a join.
record Placed (v : VirtualTable) (s : Text) : Type 0 where
  bracketed : v.to_string_bracketed ≡ ok s
  placed : v.to_string_as_from_item ≡ ok s

build_ref-Placed :
    (name : Text) (alias : Option Text)
    → AliasOk alias
    → (v : VirtualTable) × (build_ref (name, alias) ≡ ok v) × Placed v (ref_text (name, alias))
unfolding build_ref as_table table from_raw Table.to_string
build_ref-Placed name none h =
    let same = sym (append-nil name) in
    (table (from_raw name), refl, record { bracketed = ap ok same; placed = ap ok same })
build_ref-Placed name (some alias) h = (
  table (from_raw (name ++ lit " AS " ++ alias)),
  rw (alias-valid alias h) refl,
  record {
    bracketed = ap ok (append_assoc name (lit " AS ") alias);
    placed = ap ok (append_assoc name (lit " AS ") alias);
  },
)

aliased_query :
    (s alias : Text)
    → (b'(' ∷ (s ++ b')' ∷ [])) ++ lit " AS " ++ alias
      ≡ b'(' ∷ (s ++ (b')' ∷ (lit " AS " ++ alias)))
unfolding lit
aliased_query s alias = simp append_assoc

combined_queries :
    (q kind r : Text)
    → (b'(' ∷ (q ++ b')' ∷ [])) ++ lit " " ++ kind ++ lit " " ++ (b'(' ∷ (r ++ b')' ∷ []))
      ≡ b'(' ∷ (q ++ ((lit ") " ++ (kind ++ lit " (")) ++ (r ++ b')' ∷ [])))
unfolding lit
combined_queries q kind r = simp append_assoc

-- A join of two texts with what ON and USING hold.
abbrev joining : JoinKind → Text → Text → Text → Text → Join
joining kind a b condition columns = record {
  a_ = a;
  b_ = b;
  kind_ = kind_text kind;
  natural_ = is_natural kind;
  on_ = condition;
  using_ = columns;
}

module _ (fuel : ℕ) where
  -- A list with a text has an element.
  exprs-shown : (es : List Expr) (s : Text) → join_csv (render_exprs es) ≡ s → s ≢ [] → es ≢ []
  unfolding join_csv render_exprs
  exprs-shown [] s h ne e = ne (sym h)
  exprs-shown (x ∷ es) s h ne e = cc

  values-shown :
      (vs : List Value)
      → ListFits fuel (Fits fuel) (map value_tree vs)
      → csv tree_text (map value_tree vs) ≢ []
  values-shown [] h = absurd h
  values-shown (v ∷ vs) (h, few) =
      append-shown (tree_text (value_tree v)) _ (tree_text-shown (value_tree v) h.0.0)

  qualified-on_text :
      (q : Qualifier Value Predicate) (kind : JoinKind) (a b : Text)
      → OnFits fuel kind (qualifier_tree q)
      → (j : Join) × (qualified q (joining kind a b [] []) ≡ ok j)
        × (Join.to_string j ≡ a ++ (join_word kind ++ (b ++ on_text (qualifier_tree q))))
  unfolding qualified on using Join.to_string
  qualified-on_text unqualified kind a b h =
      (joining kind a b [] [], refl, simp (append_assoc, append-nil))
  qualified-on_text (on_condition p) kind a b (h, unnatural) =
      let (c, made, shown) = build_condition-Gives p h.0 in
      (
        joining kind a b (condition_to_string c) [],
        rw (made, unnatural) refl,
        rw
            (
              shown,
              is_empty-ne-nil (tree_text (predicate_tree p))
                  (tree_text-shown (predicate_tree p) h.0),
            )
            (simp append_assoc),
      )
  qualified-on_text (using_columns vs) kind a b (h, unnatural) =
      let (es, made, shown) = values-Gives fuel vs h in
      let ne = values-shown vs h in
      (
        joining kind a b [] (join_csv (render_exprs es)),
        rw (made, unnatural, is_empty-ne-nil es (exprs-shown es _ shown ne)) refl,
        rw (shown, is_empty-ne-nil (csv tree_text (map value_tree vs)) ne) (simp append_assoc),
      )

  build_source-Placed :
      (ref : Ref) (joined : Option (Joined Value Predicate))
      → AliasOk ref.1
      → JoinFits fuel (mapped joined_tree joined)
      → (v : VirtualTable) × (build_source ref joined ≡ ok v)
        × (v.to_string_as_from_item ≡ ok (ref_text ref ++ joined_text (mapped joined_tree joined)))
  unfolding build_source join join_table
  build_source-Placed (name, alias) none h fits =
      let (v, made, at) = build_ref-Placed name alias h in
      (v, made, at.placed ∙ ap ok (sym (append-nil (ref_text (name, alias)))))
  build_source-Placed (name, alias) (some (kind, (right, other), condition)) h (word, h2, fits) =
      let (v, made, at) = build_ref-Placed name alias h in
      let (w, made_w, at_w) = build_ref-Placed right other h2 in
      let (j, made_j, shown) =
        qualified-on_text condition kind (ref_text (name, alias)) (ref_text (right, other)) fits in
      (join_table j, rw (made, made_w, at.bracketed, at_w.bracketed, made_j) refl, ap ok shown)

  -- A query that is a table has the text in parentheses, too, and a formatted text.
  pub record Shows (v : VirtualTable) (s : Text) : Type 0 where
    pub text : v.to_string ≡ ok s
    pub bracketed : v.to_string_bracketed ≡ ok (b'(' ∷ (s ++ b')' ∷ []))
    pub formatted : (t : Text) × (v.to_string_formatted ≡ ok t)

  formatted-ok :
      (q : SelectExpr) {s : Text}
      → Select.to_string q ≡ ok s
      → (t : Text) × (Select.to_string_formatted q ≡ ok t)
  unfolding Select.to_string Select.to_string_formatted
  formatted-ok q h =
      let (items, valid, e) =
        >>=-eq-ok (Select.ensure_valid q) (λ items. ok (Select.select_text q items)) h in
      let t = Select.select_text_formatted q items in
      (t, ap (λ r. do items ← r; ok (Select.select_text_formatted q items)) valid)

  select-Shows :
      (b : Body Value Predicate) (source : VirtualTable) (item : Text)
      → BodyFits fuel (body_tree b)
      → item ≢ []
      → source.to_string_as_from_item ≡ ok item
      → (v : VirtualTable) × ((do q ← from source; q ← set_body b q; ok (select_table q)) ≡ ok v)
        × Shows v (select_text (body_tree b) item)
  unfolding from select_table
  select-Shows b source item h ne placed =
      let (q, made, shown) = set_body-text fuel b item h ne in
      (
        select_table q,
        rw (placed, made) refl,
        record { text = shown; bracketed = rw shown refl; formatted = formatted-ok q shown },
      )

  pub build_query-Shows :
      (s : Statement)
      → QueryFits fuel (query_tree s)
      → (v : VirtualTable) × (build_query s ≡ ok v) × Shows v (query_text (query_tree s))
  unfolding build_query query_text as_table table from_raw Table.to_string set_op set_op_table
      SetOp.to_string
  build_query-Shows (from_table (name, alias) joined b) (word, h, fits, body) =
      let (source, placed, e) = build_source-Placed (name, alias) joined h fits in
      let shown =
        append-shown (ref_text (name, alias)) (joined_text (mapped joined_tree joined))
          (append-shown name (aliased alias) word.shown) in
      let (v, made, at) = select-Shows b source _ body shown e in (v, rw placed made, at)
  build_query-Shows (from_query q alias b) (hq, h, body) =
      let (inner, made_q, within) = build_query-Shows q hq in
      let s = query_text (query_tree q) in
      let t = (b'(' ∷ (s ++ b')' ∷ [])) ++ lit " AS " ++ alias in
      let (v, made, at) =
        select-Shows b (table (from_raw t)) (b'(' ∷ (s ++ (b')' ∷ (lit " AS " ++ alias)))) body
          (λ k. cc) (ap ok (aliased_query s alias)) in
      (v, rw (made_q, alias-valid alias h, within.bracketed) made, at)
  build_query-Shows (combined kind q r) (hq, hr) =
      let (left, made_q, at_q) = build_query-Shows q hq in
      let (right, made_r, at_r) = build_query-Shows r hr in
      let a = query_text (query_tree q) in
      let c = query_text (query_tree r) in
      let e = combined_queries a (SetOp.kind_text kind) c in
      (
        set_op_table (record {
          a_ = b'(' ∷ (a ++ b')' ∷ []);
          b_ = b'(' ∷ (c ++ b')' ∷ []);
          kind_ = SetOp.kind_text kind;
        }),
        rw (made_q, made_r, at_q.bracketed, at_r.bracketed) refl,
        record {
          text = ap ok e;
          bracketed = ap (λ s. ok (b'(' ∷ (s ++ b')' ∷ []))) e;
          formatted = (_, refl);
        },
      )
