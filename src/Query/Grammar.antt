-- ===== src/Query/Grammar.antt =====
-- A reader of SELECT statements: the keywords in the order of SQL's grammar, and between them the
-- expressions as Syntax.Grammar reads them.
use iron_query.Prelude.{ℕ, zero, suc, Text, lit, List, [], ◌∷◌, Option, none, some, ℤ, pos, negsuc}
use iron_query.Decimal.RoundTrip.{value}
use iron_query.OrderBy.{SortDirection, ascending, descending, NullsOrder, default, first, last}
use iron_query.Join
use iron_query.Join.{JoinKind}
use iron_query.SetOp.{SetOpKind, union, union_all, intersect, except}
use iron_query.Syntax.{Tree}
use iron_query.Syntax.Grammar.{strip, span_word, read_all}
use iron_query.Query.{
  Distinct, all_rows, distinct_rows, distinct_on, Item, Term, Ref, Qualifier, unqualified,
  on_condition, using_columns, Joined, Body, from_table, from_query, combined, QueryTree, Mark,
  source, where_mark, group_mark, having_mark, order_mark, limit_mark, offset_mark, mark_text,
  join_word, between_text,
}

abbrev pub Reader : Type 0 → Type 0
Reader A = Text → Option (A × Text)

infixl 5 ◌>>=◌
abbrev pub ◌>>=◌ : {A B : Type 0} → Option A → (A → Option B) → Option B
none >>= f = none
some a >>= f = f a

module _ {A : Type 0} where
  abbrev pub more_of : Reader (List A) → A → Text → Option Text → Option (List A × Text)
  more_of items a rest none = some (a ∷ [], rest)
  more_of items a rest (some s) = do (others, s) ← items s; some (a ∷ others, s)

  -- Items with ", " between them, a unit of fuel for each.
  unfoldable pub read_csv : Reader A → ℕ → Reader (List A)
  unfolding strip
  read_csv one zero s = none
  read_csv one (suc fuel) s = do
    (a, rest) ← one s
    more_of (read_csv one fuel) a rest (strip (lit ", ") rest)

  abbrev pub behind_mark : Reader A → Text → Option Text → Option (Option A × Text)
  behind_mark one s none = some (none, s)
  behind_mark one s (some r) = do (a, r) ← one r; some (some a, r)

  -- A part that may be missing.
  unfoldable pub read_part : Mark → Reader A → Reader (Option A)
  unfolding strip
  read_part m one s = behind_mark one s (strip (mark_text m) s)

abbrev pub shown_word : Text × Text → Option (Text × Text)
shown_word ([], s) = none
shown_word (c ∷ w, s) = some (c ∷ w, s)

unfoldable pub read_word : Reader Text
unfolding span_word
read_word s = shown_word (span_word s)

abbrev pub behind_as : Text → Option Text → Option (Option Text × Text)
behind_as s none = some (none, s)
behind_as s (some r) = do (w, r) ← read_word r; some (some w, r)

-- AS and a name, if they are there.
unfoldable pub read_alias : Reader (Option Text)
unfolding strip read_word
read_alias s = behind_as s (strip (lit " AS ") s)

abbrev pub negated : ℕ → ℤ
negated zero = pos 0
negated (suc n) = negsuc n

abbrev pub signed_number : Text → Option Text → Option (ℤ × Text)
signed_number s none = do (w, s) ← read_word s; some (pos (value 0 w), s)
signed_number s (some r) = do (w, r) ← read_word r; some (negated (value 0 w), r)

unfoldable pub read_number : Reader ℤ
unfolding strip read_word
read_number s = signed_number s (strip (lit "-") s)

abbrev pub direction_of : Text → Option Text → SortDirection × Text
direction_of s none = (ascending, s)
direction_of s (some r) = (descending, r)

abbrev pub nulls_of : Text → Option Text → Option Text → NullsOrder × Text
nulls_of s (some r) _ = (first, r)
nulls_of s none (some r) = (last, r)
nulls_of s none none = (default, s)

unfoldable pub read_direction : Text → SortDirection × Text
unfolding strip
read_direction s = direction_of s (strip (lit " DESC") s)

unfoldable pub read_nulls : Text → NullsOrder × Text
unfolding strip
read_nulls s = nulls_of s (strip (lit " NULLS FIRST") s) (strip (lit " NULLS LAST") s)

unfoldable pub read_ref : Reader Ref
unfolding read_word read_alias
read_ref s = do (name, s) ← read_word s; (alias, s) ← read_alias s; some ((name, alias), s)

abbrev pub first_kind : List JoinKind → Text → Option (JoinKind × Text)
first_kind [] s = none
first_kind (k ∷ ks) s = elim (strip (join_word k) s) [
  | some r ↦ some (k, r)
  | none ↦ first_kind ks s
]

abbrev join_kinds : List JoinKind
join_kinds =
    Join.inner ∷ Join.cross ∷ Join.left_outer ∷ Join.right_outer ∷ Join.full_outer
    ∷ Join.natural_inner ∷ Join.natural_left_outer ∷ Join.natural_right_outer
    ∷ Join.natural_full_outer ∷ []

unfoldable pub read_kind : Reader JoinKind
unfolding strip
read_kind s = first_kind join_kinds s

abbrev pub first_set : List SetOpKind → Text → Option (SetOpKind × Text)
first_set [] s = none
first_set (k ∷ ks) s = elim (strip (between_text k) s) [
  | some r ↦ some (k, r)
  | none ↦ first_set ks s
]

unfoldable pub read_set : Reader SetOpKind
unfolding strip
read_set s = first_set (union ∷ union_all ∷ intersect ∷ except ∷ []) s

-- The fuel of expressions and lists.
module _ (fuel : ℕ) where
  abbrev pub read_tree : Reader Tree
  read_tree = read_all fuel

  unfoldable pub read_item : Reader (Item Tree)
  unfolding read_all read_alias
  read_item s = do (t, s) ← read_tree s; (alias, s) ← read_alias s; some ((t, alias), s)

  unfoldable pub read_term : Reader (Term Tree)
  unfolding read_all read_direction read_nulls
  read_term s = do
    (t, s) ← read_tree s
    let (direction, r) = read_direction s
    let (nulls, r') = read_nulls r
    some ((t, direction, nulls), r')

  abbrev pub behind_using : Text → Option Text → Option (Qualifier Tree Tree × Text)
  behind_using s none = some (unqualified, s)
  behind_using s (some r) = do
    (ts, r) ← read_csv read_tree fuel r
    r ← strip (lit ")") r
    some (using_columns ts, r)

  abbrev pub behind_on : Text → Option Text → Option (Qualifier Tree Tree × Text)
  behind_on s none = behind_using s (strip (lit " USING (") s)
  behind_on s (some r) = do (t, r) ← read_tree r; some (on_condition t, r)

  abbrev pub behind_kind :
      Text → Option (JoinKind × Text) → Option (Option (Joined Tree Tree) × Text)
  behind_kind s none = some (none, s)
  behind_kind s (some (kind, r)) = do
    (right, r) ← read_ref r
    (condition, r) ← behind_on r (strip (lit " ON ") r)
    some (some (kind, right, condition), r)

  unfoldable pub read_joined : Reader (Option (Joined Tree Tree))
  unfolding strip read_kind read_ref read_csv
  read_joined s = behind_kind s (read_kind s)

  abbrev pub behind_on_list : Option Text → Option (Distinct Tree × Text)
  behind_on_list none = none
  behind_on_list (some r) = do
    (ts, r) ← read_csv read_tree fuel r
    r ← strip (lit ") ") r
    some (distinct_on ts, r)

  abbrev pub behind_distinct : Text → Option Text → Option (Distinct Tree × Text)
  behind_distinct s none = some (distinct_rows, s)
  behind_distinct s (some r) = behind_on_list (some r)

  abbrev pub behind_select : Text → Option Text → Option (Distinct Tree × Text)
  behind_select s none = some (all_rows, s)
  behind_select s (some r) = behind_distinct r (strip (lit "ON (") r)

  -- SELECT, and DISTINCT with or without ON.
  unfoldable pub read_distinct : Reader (Distinct Tree)
  unfolding strip read_csv
  read_distinct s = do r ← strip (lit "SELECT ") s; behind_select r (strip (lit "DISTINCT ") r)

  -- The statement around a list and its FROM item.
  abbrev pub around :
      (Body Tree Tree → QueryTree) → Distinct Tree → List (Item Tree) → Reader QueryTree
  around make distinct items s = do
    (condition, s) ← read_part where_mark read_tree s
    (groups, s) ← read_part group_mark (read_csv read_tree fuel) s
    (having, s) ← read_part having_mark read_tree s
    (orders, s) ← read_part order_mark (read_csv read_term fuel) s
    (limit, s) ← read_part limit_mark read_number s
    (offset, s) ← read_part offset_mark read_number s
    some (
      make (record {
        distinct = distinct;
        items = items;
        condition = condition;
        groups = groups;
        having = having;
        orders = orders;
        limit = limit;
        offset = offset;
      }),
      s,
    )

  abbrev pub read_source :
      Reader QueryTree → Text → Option Text → Option ((Body Tree Tree → QueryTree) × Text)
  read_source inner s none = do
    (ref, s) ← read_ref s
    (joined, s) ← read_joined s
    some (from_table ref joined, s)
  read_source inner s (some r) = do
    (q, r) ← inner r
    r ← strip (lit ") AS ") r
    (alias, r) ← read_word r
    some (from_query q alias, r)

  abbrev pub read_select : Reader QueryTree → Reader QueryTree
  read_select inner s = do
    (distinct, s) ← read_distinct s
    (items, s) ← read_csv read_item fuel s
    s ← strip (mark_text source) s
    (make, s) ← read_source inner s (strip (lit "(") s)
    around make distinct items s

  abbrev pub read_combined : Reader QueryTree → Reader QueryTree
  read_combined inner s = do
    (q, s) ← inner s
    (kind, s) ← read_set s
    (r, s) ← inner s
    s ← strip (lit ")") s
    some (combined kind q r, s)

  abbrev pub read_either : Reader QueryTree → Text → Option Text → Option (QueryTree × Text)
  read_either inner s none = read_select inner s
  read_either inner s (some r) = read_combined inner r

  -- A unit of the other fuel for each query inside another.
  unfoldable pub read_query : ℕ → Reader QueryTree
  unfolding strip read_csv read_part read_distinct read_item read_term read_joined read_ref
      read_word read_number read_set
  read_query zero s = none
  read_query (suc nested) s = read_either (λ r. read_query nested r) s (strip (lit "(") s)
