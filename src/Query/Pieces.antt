-- ===== src/Query/Pieces.antt =====
-- What the calls of Query.Statements give for the pieces of a statement, and the texts of the pieces.
use iron_query.Prelude.{
  ℕ, zero, suc, Text, lit, All, map, all_of, split, ◌==◌, ◌≡◌, ◌≢◌, refl, sym, ap, ◌∙◌, true, false,
  List, [], ◌∷◌, ◌++◌, append_assoc, append-nil, Option, none, some, arith,
}
use iron_query.Exception.{Result, ok}
use iron_query.Identifier.{is_word, is_alnum, is_alpha, validate_identifier}
use iron_query.Identifier.Dotted.{validate_identifier-eq}
use iron_query.Expr
use iron_query.Expr.{Expr, Condition, SelectItem, condition_to_string, item_to_string, select_item}
use iron_query.Expr.Operators.{as_item}
use iron_query.Expr.Literal.Quoting.{read_quoted}
use iron_query.Clause.{render_order, direction_text, nulls_text}
use iron_query.Clause.Csv.{from_first}
use iron_query.Syntax.{Tree}
use iron_query.Syntax.Grammar.{read_all, read_level, read_operand, span_word, behind_prefix, strip}
use iron_query.Syntax.Reader.{read_all-tree_text}
use iron_query.Syntax.Stops.{tree_text, Named, depth}
use iron_query.Syntax.Builds.{builds, builds_condition}
use iron_query.Syntax.Values.{Value, Predicate, build, build_condition, value_tree, predicate_tree}
use iron_query.Query.{Item, Term, item_text, term_text}
use iron_query.Query.Statements.{build_each, build_item, build_term, item_tree, term_tree}
use iron_query.Query.Tokens.{IsAlias, AliasOk}

-- A call that returns, with the text of what it returns.
abbrev pub Gives : {B : Type 0} → Result B → (B → Text) → Text → Type 0
Gives {B = B} call shown s = (b : B) × (call ≡ ok b) × (shown b ≡ s)

pub build-Gives :
    (v : Value) → Named (value_tree v) → Gives (build v) Expr.to_string (tree_text (value_tree v))
unfolding Expr.to_string
build-Gives v h = let (e, made, (shown, bound)) = builds v h in (e, made, shown)

pub build_condition-Gives :
    (p : Predicate)
    → Named (predicate_tree p)
    → Gives (build_condition p) condition_to_string (tree_text (predicate_tree p))
unfolding condition_to_string
build_condition-Gives p h = let (c, made, (shown, bound)) = builds_condition p h in (c, made, shown)

pub build_item-Gives :
    (i : Item Value)
    → Named (value_tree i.0)
    → AliasOk i.1
    → Gives (build_item i) item_to_string (item_text (item_tree i))
unfolding build_item select_item as_item item_to_string
build_item-Gives (v, none) h alias =
    let (e, made, shown) = build-Gives v h in
    (
      record { s_ = Expr.to_string e },
      rw made refl,
      shown ∙ sym (append-nil (tree_text (value_tree v))),
    )
build_item-Gives (v, some alias) h a =
    let (e, made, shown) = build-Gives v h in
    (
      record { s_ = Expr.to_string e ++ lit " AS " ++ alias },
      rw (made, a.plain) refl,
      rw shown (append_assoc (tree_text (value_tree v)) (lit " AS ") alias),
    )

pub build_term-Gives :
    (t : Term Value)
    → Named (value_tree t.0)
    → Gives (build_term t) render_order (term_text (term_tree t))
unfolding build_term render_order
build_term-Gives (v, d, n) h =
    let (e, made, shown) = build-Gives v h in
    (
      record { expr = e; direction = d; nulls_order = n },
      rw made refl,
      rw shown (append_assoc (tree_text (value_tree v)) (direction_text d) (nulls_text n)),
    )

module _ {A B : Type 0} (make : A → Result B) (shown : B → Text) (text : A → Text) where
  pub build_each-texts :
      (items : List A)
      → All (λ a. Gives (make a) shown (text a)) items
      → (bs : List B) × (build_each make items ≡ ok bs) × (map shown bs ≡ map text items)
  unfolding build_each
  build_each-texts [] h = ([], refl, refl)
  build_each-texts (a ∷ items) ((b, made, e), h) =
      let (bs, rest, same) = build_each-texts items h in
      (b ∷ bs, rw (made, rest) refl, rw (e, same) refl)

-- No expression is without a text.
nothing_read : (fuel : ℕ) → read_all fuel [] ≡ none
unfolding read_all read_level read_operand read_quoted behind_prefix strip lit span_word
nothing_read zero = refl
nothing_read (suc fuel) = refl

pub tree_text-shown : (t : Tree) → Named t → tree_text t ≢ []
tree_text-shown t h e =
    let whole = read_all-tree_text t (suc (depth t)) h (omega arith) in
    let empty = nothing_read (suc (depth t)) in
    conflict (ap (read_all (suc (depth t))) e) whole empty
  where
    conflict : {a b : Option (Tree × Text)} {c : Tree × Text} → a ≡ b → a ≡ some c → b ≡ none → ⊥
    conflict ab ac bn = cc

pub csv-shown : (s : Text) (items : List Text) → s ≢ [] → from_first (s ∷ items) ≡ s ∷ items
csv-shown [] items h = absurd (h refl)
csv-shown (c ∷ s) items h = refl

pub append-shown : (s t : Text) → s ≢ [] → s ++ t ≢ []
append-shown [] t h e = h refl
append-shown (c ∷ s) t h e = cc

-- A word has no dots.
split-word : (s : Text) → all_of is_word s ≡ true → split b'.' s ≡ s ∷ []
unfolding split is_word is_alnum is_alpha
split-word [] h = refl
split-word (c ∷ s) h =
    let other : (c == b'.') ≡ false = ground arith in
    let words : all_of is_word s ≡ true = ground arith in rw (other, split-word s words) refl

pub alias-valid : (w : Text) → IsAlias w → validate_identifier w ≡ ok tt
alias-valid w h = rw (validate_identifier-eq w, split-word w h.word.word, h.plain) refl
