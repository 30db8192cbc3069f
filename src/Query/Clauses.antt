-- ===== src/Query/Clauses.antt =====
-- The readers of Query on DISTINCT, the items and the clauses of one SELECT.
use iron_query.Prelude.{
  ℕ, Text, lit, following, map, ◌≡◌, refl, List, [], ◌∷◌, ◌++◌, append_assoc, none, some, arith,
}
use iron_query.Decimal
use iron_query.Syntax.{Tree}
use iron_query.Syntax.Grammar.{strip}
use iron_query.Syntax.Stops.{tree_text}
use iron_query.Query.{
  Distinct, all_rows, distinct_rows, distinct_on, Item, Body, QueryTree, source, where_mark,
  group_mark, having_mark, order_mark, limit_mark, offset_mark, mark_text, part, csv, item_text,
  term_text, distinct_text, clauses_text, select_text, aliased,
}
use iron_query.Query.Grammar.{
  Reader, read_tree, read_csv, read_item, read_term, read_distinct, around, read_source,
  read_select,
}
use iron_query.Query.Marks.{strip-append, After, After-mark, After-le, After-part}
use iron_query.Query.Parts.{ListFits, read_csv-Fits, read_part-part}
use iron_query.Query.Fits.{ItemFits, TermFits, DistinctFits, BodyFits, MayBeRead-Fits}
use iron_query.Query.Leads.{tree-unselected}
use iron_query.Query.Tokens.{aliased-goes_on}
use iron_query.Query.Terms.{read_tree-Fits, Fits, read_item-item_text, read_term-term_text}
use iron_query.Query.Starts.{
  clauses-append, distinct_words, on_words, After-closed, following-goes_on, number, select-append,
}

module _ (fuel : ℕ) where
  -- The clauses behind the FROM item.
  around-clauses_text :
      (make : Body Tree Tree → QueryTree) (b : Body Tree Tree) (rest : Text)
      → BodyFits fuel b
      → After 8 rest
      → around fuel make b.distinct b.items (clauses_text b ++ rest) ≡ some (make b, rest)
  around-clauses_text make b rest h after =
      let offsets = part offset_mark Decimal.to_string b.offset ++ rest in
      let limits = part limit_mark Decimal.to_string b.limit ++ offsets in
      let orders = part order_mark (csv term_text) b.orders ++ limits in
      let havings = part having_mark tree_text b.having ++ orders in
      let groups = part group_mark (csv tree_text) b.groups ++ havings in
      let at_offset =
        After-part 7 offset_mark Decimal.to_string b.offset rest (omega arith) after in
      let at_limit =
        After-part 6 limit_mark Decimal.to_string b.limit offsets (omega arith) at_offset in
      let at_order =
        After-part 5 order_mark (csv term_text) b.orders limits (omega arith) at_limit in
      let at_having = After-part 4 having_mark tree_text b.having orders (omega arith) at_order in
      let at_group =
        After-part 3 group_mark (csv tree_text) b.groups havings (omega arith) at_having in
      rw
        (
          clauses-append b rest,
          read_part-part (read_tree fuel) tree_text where_mark b.condition groups
              (MayBeRead-Fits fuel (read_tree fuel) tree_text (Fits fuel) b.condition groups
                (λ t f. read_tree-Fits fuel t f groups (After-le 0 3 (omega arith) at_group))
                h.condition)
              at_group,
          read_part-part (read_csv (read_tree fuel) fuel) (csv tree_text) group_mark b.groups
              havings
              (MayBeRead-Fits fuel (read_csv (read_tree fuel) fuel) (csv tree_text)
                (ListFits fuel (Fits fuel)) b.groups havings
                (λ ts f.
                  read_csv-Fits fuel (read_tree fuel) tree_text (Fits fuel) ts havings
                    (read_tree-Fits fuel) f (After-le 1 4 (omega arith) at_having))
                h.groups)
              at_having,
          read_part-part (read_tree fuel) tree_text having_mark b.having orders
              (MayBeRead-Fits fuel (read_tree fuel) tree_text (Fits fuel) b.having orders
                (λ t f. read_tree-Fits fuel t f orders (After-le 0 5 (omega arith) at_order))
                h.having)
              at_order,
          read_part-part (read_csv (read_term fuel) fuel) (csv term_text) order_mark b.orders limits
              (MayBeRead-Fits fuel (read_csv (read_term fuel) fuel) (csv term_text)
                (ListFits fuel (TermFits fuel)) b.orders limits
                (λ ts f.
                  read_csv-Fits fuel (read_term fuel) term_text (TermFits fuel) ts limits
                    (λ t k s. read_term-term_text fuel t s k) f
                    (After-le 1 6 (omega arith) at_limit))
                h.orders)
              at_limit,
          number limit_mark b.limit offsets at_offset,
          number offset_mark b.offset rest after,
        )
        refl

  -- SELECT with its DISTINCT, in front of what starts with neither DISTINCT nor ON.
  read_distinct-text :
      (d : Distinct Tree) (s : Text)
      → DistinctFits fuel d
      → strip (lit "DISTINCT ") s ≡ none
      → strip (lit "ON (") s ≡ none
      → read_distinct fuel (distinct_text d ++ s) ≡ some (d, s)
  unfolding read_distinct
  read_distinct-text all_rows s h bare on = rw (strip-append (lit "SELECT ") s, bare) refl
  read_distinct-text distinct_rows s h bare on =
      rw
        (
          distinct_words s,
          strip-append (lit "SELECT ") (lit "DISTINCT " ++ s),
          strip-append (lit "DISTINCT ") s,
          on,
        )
        refl
  read_distinct-text (distinct_on ts) s h bare on =
      let behind = csv tree_text ts ++ (lit ") " ++ s) in
      rw
        (
          append_assoc (lit "SELECT DISTINCT ON (") (csv tree_text ts ++ lit ") ") s,
          append_assoc (csv tree_text ts) (lit ") ") s,
          on_words behind,
          strip-append (lit "SELECT ") (lit "DISTINCT " ++ (lit "ON (" ++ behind)),
          strip-append (lit "DISTINCT ") (lit "ON (" ++ behind),
          strip-append (lit "ON (") behind,
          read_csv-Fits fuel (read_tree fuel) tree_text (Fits fuel) ts (lit ") " ++ s)
              (read_tree-Fits fuel) h (After-closed 1 s (omega arith)),
          strip-append (lit ") ") s,
        )
        refl

  -- The items, in front of FROM.
  items_apart :
      (items : List (Item Tree)) (rest : Text)
      → ListFits fuel (ItemFits fuel) items
      → (strip (lit "DISTINCT ") (csv item_text items ++ (mark_text source ++ rest)) ≡ none)
        × (strip (lit "ON (") (csv item_text items ++ (mark_text source ++ rest)) ≡ none)
  items_apart [] rest h = absurd h
  items_apart ((t, alias) ∷ items) rest h =
      let others = following (lit ", ") (map item_text items) in
      let behind = others ++ (mark_text source ++ rest) in
      rw
        (
          append_assoc (tree_text t ++ aliased alias) others (mark_text source ++ rest),
          append_assoc (tree_text t) (aliased alias) behind,
        )
        (tree-unselected t (aliased alias ++ behind) h.0.0.0.0
          (aliased-goes_on alias behind (following-goes_on (map item_text items) rest)))

  -- A SELECT around a FROM item.
  pub read_select-text :
      (inner : Reader QueryTree) (b : Body Tree Tree) (item rest : Text)
      (make : Body Tree Tree → QueryTree)
      → BodyFits fuel b
      → After 8 rest
      → read_source fuel inner
          (item ++ (clauses_text b ++ rest))
          (strip (lit "(") (item ++ (clauses_text b ++ rest)))
        ≡ some (make, clauses_text b ++ rest)
      → read_select fuel inner (select_text b item ++ rest) ≡ some (make b, rest)
  read_select-text inner b item rest make h after e =
      let behind = item ++ (clauses_text b ++ rest) in
      let (distinct_apart, on_apart) = items_apart b.items behind h.items in
      rw
        (
          select-append b item rest,
          read_distinct-text b.distinct (csv item_text b.items ++ (mark_text source ++ behind))
              h.distinct distinct_apart on_apart,
          read_csv-Fits fuel (read_item fuel) item_text (ItemFits fuel) b.items
              (mark_text source ++ behind) (λ i f s k. read_item-item_text fuel i s f.0 f.1 k)
              h.items (After-mark 1 source behind (omega arith)),
          strip-append (mark_text source) behind,
          e,
        )
        (around-clauses_text make b rest h after)
