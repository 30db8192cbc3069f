-- ===== src/Syntax/Builds.antt =====
-- The calls of src/expr.cpp and src/condition.cpp, nested in any way, give an expression with the
-- text of their tree.
use iron_query.Prelude.{Text, has_byte, ◌≡◌, refl, ap, ◌∙◌, false, List, [], ◌∷◌}
use iron_query.Exception.{ok}
use iron_query.Identifier.{validate_identifier}
use iron_query.Precedence.{symbol}
use iron_query.Node.{make_leaf}
use iron_query.Node.Render.{render-make_leaf}
use iron_query.Expr
use iron_query.Expr.{Expr, Condition, expr, condition, from_raw, to_string, to_expr}
use iron_query.Expr.Literal
use iron_query.Expr.Call.{call, build_call_node}
use iron_query.Expr.Operators
use iron_query.Expr.Predicates
use iron_query.Syntax.{Op, sign, negation, Choice, Tree, name, literal, identifier, more}
use iron_query.Syntax.Stops.{tree_text, tree_level, quoted, Named, AllNamed}
use iron_query.Syntax.Nodes.{
  Renders, RendersList, infix_node, prefix_node, test_node, range_node, choice_node, index_node,
  operate-infix_node, compared-infix_node, matched-infix_node, examined-test_node,
  bounded-range_node, Renders-infix_node, Renders-prefix_node, Renders-test_node,
  Renders-range_node, Renders-choice_node, Renders-index_node, Renders-call_node, RendersList-nil,
  RendersList-more,
}
use iron_query.Syntax.Values.{
  Value, column, text_value, quoted_name, apply, member, subscript, function, opposite, complement,
  truth, Values, no_values, value_and, Predicate, compare, matching, test, between, one_of, both,
  either, neither, selected, build, build_list, build_condition, arithmetic_op, comparison_op,
  matching_op, value_tree, values_trees, predicate_tree,
}

leaf-Renders :
    (w : Text) (t : Tree)
    → w ≡ tree_text t
    → symbol ≡ tree_level t
    → Renders (from_raw w symbol).node_ t
unfolding from_raw
leaf-Renders w t e l = (render-make_leaf w symbol ∙ e, unfold make_leaf in l)

literal-leaf :
    (s : Text) → has_byte 0 s ≡ false → Literal.literal s ≡ ok (from_raw (quoted b'\'' s) symbol)
unfolding Literal.literal
literal-leaf s h = rw h refl

ident-leaf :
    (s : Text) → has_byte 0 s ≡ false → Literal.ident s ≡ ok (from_raw (quoted b'"' s) symbol)
unfolding Literal.ident
ident-leaf s h = rw h refl

call-node :
    (f : Text) (es : List Expr)
    → validate_identifier f ≡ ok tt
    → call f es ≡ ok (expr (build_call_node f [] es))
unfolding call
call-node f es h = rw h refl

selected-choice_node :
    (c : Choice) (x e : Expr) (es : List Expr)
    → selected c x (e ∷ es) ≡ ok (condition (choice_node c x.node_ (e ∷ es)))
unfolding selected Predicates.build_in_list_node
selected-choice_node Choice.among x e es = refl
selected-choice_node Choice.not_among x e es = refl

abbrev pub Builds : Value → Type 0
Builds v = (e : Expr) × (build v ≡ ok e) × Renders e.node_ (value_tree v)

abbrev BuildsList : Values → Type 0
BuildsList vs = (es : List Expr) × (build_list vs ≡ ok es) × RendersList es (values_trees vs)

abbrev pub BuildsCondition : Predicate → Type 0
BuildsCondition p =
    (c : Condition) × (build_condition p ≡ ok c) × Renders c.node_ (predicate_tree p)

mutual
  unfolding build Operators.dot_expr Operators.at_index Operators.minus Operators.negation
      Expr.and_also Expr.or_else Expr.negate to_expr

  pub builds : (v : Value) → Named (value_tree v) → Builds v
  builds (column w) h = (from_raw w symbol, refl, leaf-Renders w (name w) refl refl)
  builds (text_value s) h =
      (_, literal-leaf s h, leaf-Renders (quoted b'\'' s) (literal s) refl refl)
  builds (quoted_name s) h =
      (_, ident-leaf s h, leaf-Renders (quoted b'"' s) (identifier s) refl refl)
  builds (apply op a b) (ha, hb) =
      let (x, ex, rx) = builds a ha in
      let (y, ey, ry) = builds b hb in
      (
        expr (infix_node (arithmetic_op op) x.node_ y.node_),
        rw (ex, ey) (operate-infix_node op x y),
        Renders-infix_node (arithmetic_op op) x.node_ y.node_ (value_tree a) (value_tree b) rx ry,
      )
  builds (member a b) (ha, hb) =
      let (x, ex, rx) = builds a ha in
      let (y, ey, ry) = builds b hb in
      (
        expr (infix_node Op.member x.node_ y.node_),
        rw (ex, ey) refl,
        Renders-infix_node Op.member x.node_ y.node_ (value_tree a) (value_tree b) rx ry,
      )
  builds (subscript a b) (ha, hb) =
      let (x, ex, rx) = builds a ha in
      let (y, ey, ry) = builds b hb in
      (
        expr (index_node x.node_ y.node_),
        rw (ex, ey) refl,
        Renders-index_node x.node_ y.node_ (value_tree a) (value_tree b) rx ry,
      )
  builds (function f vs) (word, valid, all) =
      let (es, e, r) = builds_list vs all in
      (
        expr (build_call_node f [] es),
        rw e (call-node f es valid),
        Renders-call_node f es (values_trees vs) r,
      )
  builds (opposite a) h =
      let (x, ex, rx) = builds a h in
      (
        expr (prefix_node sign x.node_),
        rw ex refl,
        Renders-prefix_node sign x.node_ (value_tree a) rx,
      )
  builds (complement a) h =
      let (x, ex, rx) = builds a h in
      (
        expr (prefix_node negation x.node_),
        rw ex refl,
        Renders-prefix_node negation x.node_ (value_tree a) rx,
      )
  builds (truth p) h = let (c, e, r) = builds_condition p h in (expr c.node_, rw e refl, r)

  builds_list : (vs : Values) → AllNamed (values_trees vs) → BuildsList vs
  builds_list no_values h = ([], refl, RendersList-nil)
  builds_list (value_and v vs) (hv, hs) =
      let (e, ev, rv) = builds v hv in
      let (es, evs, rvs) = builds_list vs hs in
      (e ∷ es, rw (ev, evs) refl, RendersList-more e es (value_tree v) (values_trees vs) rv rvs)

  pub builds_condition : (p : Predicate) → Named (predicate_tree p) → BuildsCondition p
  builds_condition (compare op a b) (ha, hb) =
      let (x, ex, rx) = builds a ha in
      let (y, ey, ry) = builds b hb in
      (
        condition (infix_node (comparison_op op) x.node_ y.node_),
        rw (ex, ey) (ap ok (compared-infix_node op x y)),
        Renders-infix_node (comparison_op op) x.node_ y.node_ (value_tree a) (value_tree b) rx ry,
      )
  builds_condition (matching op a b) (ha, hb) =
      let (x, ex, rx) = builds a ha in
      let (y, ey, ry) = builds b hb in
      (
        condition (infix_node (matching_op op) x.node_ y.node_),
        rw (ex, ey) (ap ok (matched-infix_node op x y)),
        Renders-infix_node (matching_op op) x.node_ y.node_ (value_tree a) (value_tree b) rx ry,
      )
  builds_condition (test t a) h =
      let (x, ex, rx) = builds a h in
      (
        condition (test_node t x.node_),
        rw ex (ap ok (examined-test_node t x)),
        Renders-test_node t x.node_ (value_tree a) rx,
      )
  builds_condition (between r a b c) (ha, hb, hc) =
      let (x, ex, rx) = builds a ha in
      let (y, ey, ry) = builds b hb in
      let (z, ez, rz) = builds c hc in
      (
        condition (range_node r x.node_ y.node_ z.node_),
        rw (ex, ey, ez) (ap ok (bounded-range_node r x y z)),
        Renders-range_node r x.node_ y.node_ z.node_ (value_tree a) (value_tree b) (value_tree c) rx
            ry rz,
      )
  builds_condition (one_of c a v vs) (ha, one, (hv, hs)) =
      let (x, ex, rx) = builds a ha in
      let (e, ev, rv) = builds v hv in
      let (es, evs, rvs) = builds_list vs hs in
      (
        condition (choice_node c x.node_ (e ∷ es)),
        rw (ex, ev, evs) (selected-choice_node c x e es),
        Renders-choice_node c x.node_ (e ∷ es) (value_tree a)
            (more (value_tree v) (values_trees vs)) rx
            (RendersList-more e es (value_tree v) (values_trees vs) rv rvs),
      )
  builds_condition (both p q) (hp, hq) =
      let (c, ec, rc) = builds_condition p hp in
      let (d, ed, rd) = builds_condition q hq in
      (
        condition (infix_node Op.both c.node_ d.node_),
        rw (ec, ed) refl,
        Renders-infix_node Op.both c.node_ d.node_ (predicate_tree p) (predicate_tree q) rc rd,
      )
  builds_condition (either p q) (hp, hq) =
      let (c, ec, rc) = builds_condition p hp in
      let (d, ed, rd) = builds_condition q hq in
      (
        condition (infix_node Op.either c.node_ d.node_),
        rw (ec, ed) refl,
        Renders-infix_node Op.either c.node_ d.node_ (predicate_tree p) (predicate_tree q) rc rd,
      )
  builds_condition (neither p) h =
      let (c, ec, rc) = builds_condition p h in
      (
        condition (prefix_node negation c.node_),
        rw ec refl,
        Renders-prefix_node negation c.node_ (predicate_tree p) rc,
      )
