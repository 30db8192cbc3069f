-- ===== src/Syntax/Nodes.antt =====
-- The nodes that src/expr.cpp and src/condition.cpp make, and the trees of Syntax whose texts they
-- render.
use iron_query.Prelude.{
  Text, lit, ◌≡◌, refl, ◌∙◌, true, false, List, [], ◌∷◌, ◌++◌, append_assoc, append-nil,
}
use iron_query.Exception.{ok}
use iron_query.Identifier.{validate_operator_name}
use iron_query.Precedence.{symbol, index, between, is, extract}
use iron_query.Node.{Node, child, text, cons, nil, precedence, needs_parens, make_node, render}
use iron_query.Node.Render.{parts_text, render-make_node}
use iron_query.Expr.{Expr, expr, condition, word}
use iron_query.Expr.Call.{list_parts, build_call_node}
use iron_query.Expr.Operators.{binary_op}
use iron_query.Expr.Predicates
use iron_query.Syntax.{
  Op, level, op_text, Test, test_text, Range, range_text, Choice, choice_text, Tree, called,
  prefixed, Prefix, prefix_level, prefix_text, binary, tested, ranged, chosen, indexed, Trees,
  empty, more,
}
use iron_query.Syntax.Stops.{tree_level, tree_text, trees_text, others_text}
use iron_query.Syntax.Values.{
  Arithmetic, power, Comparison, lt, Matching, like, operate, compared, matched, examined, bounded,
  arithmetic_op, comparison_op, matching_op,
}

-- A node has the text and the level of a tree.
abbrev pub Renders : Node → Tree → Type 0
Renders n t = (render n ≡ tree_text t) × (precedence n ≡ tree_level t)

-- A list has the text of trees, at its start and behind an item.
abbrev pub RendersList : List Expr → Trees → Type 0
RendersList es ts =
    (parts_text (list_parts true es) ≡ trees_text ts)
    × (parts_text (list_parts false es) ≡ others_text ts)

abbrev pub infix_node : Op → Node → Node → Node
infix_node op x y =
    make_node (level op)
      (cons (child x (level op)) (cons (text (op_text op)) (cons (child y (level op)) nil)))

abbrev pub prefix_node : Prefix → Node → Node
prefix_node p x =
    make_node (prefix_level p) (cons (text (prefix_text p)) (cons (child x (prefix_level p)) nil))

abbrev pub test_node : Test → Node → Node
test_node t x = make_node is (cons (child x is) (cons (text (test_text t)) nil))

abbrev pub range_node : Range → Node → Node → Node → Node
range_node r x y z = make_node between (
    cons (child x between) (
      cons (text (range_text r))
        (cons (child y between) (cons (text (lit " AND ")) (cons (child z between) nil)))))

abbrev pub connector : Choice → Text
connector Choice.among = lit " IN "
connector Choice.not_among = lit " NOT IN "

abbrev pub choice_node : Choice → Node → List Expr → Node
choice_node c x es =
    make_node between
      (cons (child x between) (cons (text (connector c)) (cons (word "(") (list_parts true es))))

abbrev pub index_node : Node → Node → Node
index_node x y =
    make_node index
      (cons (child x index) (cons (word "[") (cons (child y extract) (cons (word "]") nil))))

pub operate-infix_node :
    (op : Arithmetic) (x y : Expr)
    → operate op x y ≡ ok (expr (infix_node (arithmetic_op op) x.node_ y.node_))
unfolding operate binary_op validate_operator_name lit
operate-infix_node power x y = refl
operate-infix_node _ x y = refl

pub compared-infix_node :
    (op : Comparison) (x y : Expr)
    → compared op x y ≡ condition (infix_node (comparison_op op) x.node_ y.node_)
unfolding compared Predicates.compare_op lit
compared-infix_node lt x y = refl
compared-infix_node _ x y = refl

pub matched-infix_node :
    (op : Matching) (x y : Expr)
    → matched op x y ≡ condition (infix_node (matching_op op) x.node_ y.node_)
unfolding matched
matched-infix_node like x y = refl
matched-infix_node _ x y = refl

pub examined-test_node : (t : Test) (x : Expr) → examined t x ≡ condition (test_node t x.node_)
unfolding examined
examined-test_node Test.null x = refl
examined-test_node _ x = refl

pub bounded-range_node :
    (r : Range) (x y z : Expr) → bounded r x y z ≡ condition (range_node r x.node_ y.node_ z.node_)
unfolding bounded
bounded-range_node Range.inside x y z = refl
bounded-range_node Range.outside x y z = refl

pub Renders-infix_node :
    (op : Op) (x y : Node) (a b : Tree)
    → Renders x a
    → Renders y b
    → Renders (infix_node op x y) (binary op a b)
Renders-infix_node op x y a b (tx, px) (ty, py) =
    (render-make_node (level op) _ ∙ rw (tx, px, ty, py, append-nil) refl, unfold make_node in refl)

pub Renders-prefix_node :
    (p : Prefix) (x : Node) (a : Tree) → Renders x a → Renders (prefix_node p x) (prefixed p a)
Renders-prefix_node p x a (tx, px) =
    (render-make_node (prefix_level p) _ ∙ rw (tx, px, append-nil) refl, unfold make_node in refl)

pub Renders-test_node :
    (t : Test) (x : Node) (a : Tree) → Renders x a → Renders (test_node t x) (tested t a)
Renders-test_node t x a (tx, px) =
    (render-make_node is _ ∙ rw (tx, px) refl, unfold make_node in refl)

pub Renders-range_node :
    (r : Range) (x y z : Node) (a b c : Tree)
    → Renders x a
    → Renders y b
    → Renders z c
    → Renders (range_node r x y z) (ranged r a b c)
Renders-range_node r x y z a b c (tx, px) (ty, py) (tz, pz) = (
  render-make_node between _ ∙ rw (tx, px, ty, py, tz, pz, append-nil) refl,
  unfold make_node in refl,
)

-- Nothing of these trees is put in parentheses in a list.
unlisted : (t : Tree) → needs_parens (tree_level t) extract ≡ false
unfolding needs_parens
unlisted (prefixed Prefix.sign t) = refl
unlisted (prefixed Prefix.negation t) = refl
unlisted (binary Op.member a b) = refl
unlisted (binary _ a b) = refl
unlisted _ = refl

connector-choice_text : (c : Choice) (s : Text) → connector c ++ b'(' ∷ s ≡ choice_text c ++ s
unfolding lit
connector-choice_text Choice.among s = refl
connector-choice_text Choice.not_among s = refl

pub Renders-choice_node :
    (c : Choice) (x : Node) (es : List Expr) (a : Tree) (ts : Trees)
    → Renders x a
    → RendersList es ts
    → Renders (choice_node c x es) (chosen c a ts)
unfolding lit
Renders-choice_node c x es a ts (tx, px) (all, others) = (
  render-make_node between _ ∙ rw (tx, px, all, connector-choice_text c (trees_text ts)) refl,
  unfold make_node in refl,
)

pub Renders-index_node :
    (x y : Node) (a i : Tree) → Renders x a → Renders y i → Renders (index_node x y) (indexed a i)
unfolding lit
Renders-index_node x y a i (tx, px) (ty, py) =
    (render-make_node index _ ∙ rw (tx, px, ty, py, unlisted i) refl, unfold make_node in refl)

pub Renders-call_node :
    (f : Text) (es : List Expr) (ts : Trees)
    → RendersList es ts
    → Renders (build_call_node f [] es) (called f ts)
unfolding build_call_node lit
Renders-call_node f es ts (all, others) =
    (render-make_node symbol _ ∙ rw all (simp append_assoc), unfold make_node in refl)

pub RendersList-nil : RendersList [] empty
unfolding list_parts lit
RendersList-nil = (refl, refl)

pub RendersList-more :
    (e : Expr) (es : List Expr) (t : Tree) (ts : Trees)
    → Renders e.node_ t
    → RendersList es ts
    → RendersList (e ∷ es) (more t ts)
unfolding list_parts lit
RendersList-more e es t ts (te, pe) (all, others) =
    (rw (te, pe, unlisted t, others) refl, rw (te, pe, unlisted t, others) refl)
