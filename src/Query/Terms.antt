-- ===== src/Query/Terms.antt =====
-- The readers of Query on the items, terms and joins of a SELECT.
use iron_query.Prelude.{
  ℕ, arith, ◌<◌, Text, lit, ◌≡◌, refl, false, ◌++◌, append_assoc, Option, none, some,
}
use iron_query.Identifier.{is_word, is_alnum, is_alpha}
use iron_query.Join.{JoinKind, is_natural}
use iron_query.Clause.{direction_text, nulls_text}
use iron_query.Syntax.{Tree}
use iron_query.Syntax.Grammar.{strip}
use iron_query.Syntax.Reader.{read_all-Stops}
use iron_query.Syntax.Stops.{tree_text, IsWord, Named, depth, goes_on}
use iron_query.Query.{
  Item, Term, Qualifier, unqualified, on_condition, using_columns, closing, csv, Joined, aliased,
  item_text, term_text, ref_text, joined_text, join_word, on_text,
}
use iron_query.Query.Grammar.{read_tree, read_item, read_term, read_joined, behind_on}
use iron_query.Query.Marks.{
  strip-append, After, After-mark, After-using, After-Stops, After-as, After-kind, After-on,
}
use iron_query.Query.Parts.{IsRead, ListFits, read_csv-Fits}
use iron_query.Query.Tokens.{
  AliasOk, read_alias-aliased, aliased-Stops, order-Stops, read_direction-text, read_nulls-text,
  read_ref-ref_text, read_kind-join_word,
}

module _ (fuel : ℕ) where
  abbrev pub Fits : Tree → Type 0
  Fits t = Named t × (depth t < fuel)

  pub read_item-item_text :
      (item : Item Tree) (rest : Text)
      → Fits item.0
      → AliasOk item.1
      → After 0 rest
      → read_item fuel (item_text item ++ rest) ≡ some (item, rest)
  unfolding read_item
  read_item-item_text (t, alias) rest (h, d) ok after =
      let stops = After-Stops 0 rest after in
      rw
        (
          append_assoc (tree_text t) (aliased alias) rest,
          read_all-Stops t fuel (aliased alias ++ rest) h d (aliased-Stops alias rest stops),
          read_alias-aliased alias rest ok stops.leaf_ends (After-as 0 rest after),
        )
        refl

  pub read_term-term_text :
      (term : Term Tree) (rest : Text)
      → Fits term.0
      → After 0 rest
      → read_term fuel (term_text term ++ rest) ≡ some (term, rest)
  unfolding read_term
  read_term-term_text (t, d, n) rest (h, fits) after =
      let stops = order-Stops d n rest (After-Stops 0 rest after) in
      rw
        (
          append_assoc (tree_text t) (direction_text d ++ nulls_text n) rest,
          read_all-Stops t fuel ((direction_text d ++ nulls_text n) ++ rest) h fits stops,
          read_direction-text d n rest after,
          read_nulls-text n rest after,
        )
        refl

  pub read_tree-Fits : (t : Tree) → Fits t → IsRead (read_tree fuel) tree_text t
  read_tree-Fits t (h, d) rest after = read_all-Stops t fuel rest h d (After-Stops 0 rest after)

  -- A natural join has no condition and no columns.
  abbrev pub OnFits : JoinKind → Qualifier Tree Tree → Type 0
  OnFits kind unqualified = Unit
  OnFits kind (on_condition t) = Fits t × (is_natural kind ≡ false)
  OnFits kind (using_columns ts) = ListFits fuel Fits ts × (is_natural kind ≡ false)

  -- The tables and the condition of a join.
  abbrev pub JoinFits : Option (Joined Tree Tree) → Type 0
  JoinFits none = Unit
  JoinFits (some (kind, (name, alias), condition)) =
      IsWord name × AliasOk alias × OnFits kind condition

  on_text-ref :
      (condition : Qualifier Tree Tree) (rest : Text)
      → After 1 rest
      → (goes_on (on_text condition ++ rest) ≡ false)
        × (strip (lit " AS ") (on_text condition ++ rest) ≡ none)
  on_text-ref unqualified rest after = ((After-Stops 1 rest after).leaf_ends, After-as 1 rest after)
  on_text-ref (on_condition t) rest after =
      unfold strip lit is_word is_alnum is_alpha in (refl, refl)
  on_text-ref (using_columns ts) rest after =
      unfold strip lit is_word is_alnum is_alpha in (refl, refl)

  using_apart : (s : Text) → strip (lit " ON ") (lit " USING (" ++ s) ≡ none
  unfolding strip lit
  using_apart s = refl

  behind_on-on_text :
      (kind : JoinKind) (condition : Qualifier Tree Tree) (rest : Text)
      → OnFits kind condition
      → After 1 rest
      → behind_on fuel (on_text condition ++ rest) (strip (lit " ON ") (on_text condition ++ rest))
        ≡ some (condition, rest)
  behind_on-on_text kind unqualified rest h after =
      rw (After-on 1 rest after, After-using 1 rest after) refl
  behind_on-on_text kind (on_condition t) rest ((h, d), unnatural) after =
      rw
        (
          append_assoc (lit " ON ") (tree_text t) rest,
          strip-append (lit " ON ") (tree_text t ++ rest),
          read_all-Stops t fuel rest h d (After-Stops 1 rest after),
        )
        refl
  behind_on-on_text kind (using_columns ts) rest (h, unnatural) after =
      let behind = lit ")" ++ rest in
      rw
        (
          append_assoc (lit " USING (") (csv tree_text ts ++ lit ")") rest,
          append_assoc (csv tree_text ts) (lit ")") rest,
          using_apart (csv tree_text ts ++ behind),
          strip-append (lit " USING (") (csv tree_text ts ++ behind),
          read_csv-Fits fuel (read_tree fuel) tree_text Fits ts behind (λ a. read_tree-Fits a) h
              (After-mark 1 closing rest (omega arith)),
          strip-append (lit ")") rest,
        )
        refl

  pub read_joined-joined_text :
      (joined : Option (Joined Tree Tree)) (rest : Text)
      → JoinFits joined
      → After 1 rest
      → read_joined fuel (joined_text joined ++ rest) ≡ some (joined, rest)
  unfolding read_joined
  read_joined-joined_text none rest h after = rw (After-kind 1 rest after) refl
  read_joined-joined_text (some (kind, right, condition)) rest h after =
      let (apart, bare) = on_text-ref condition rest after in
      rw
        (
          append_assoc (join_word kind) (ref_text right ++ on_text condition) rest,
          append_assoc (ref_text right) (on_text condition) rest,
          read_kind-join_word kind ((ref_text right ++ (on_text condition ++ rest))),
          read_ref-ref_text right (on_text condition ++ rest) h.0 h.1 apart bare,
          behind_on-on_text kind condition rest h.2 after,
        )
        refl
