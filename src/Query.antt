-- ===== src/Query.antt =====
-- The SELECT statements of src/select_expr.cpp, their FROM items and set operations (src/join.cpp,
-- src/set_op.cpp) as trees over expressions E and conditions P, and the texts of such trees.
pub mod Grammar
mod Marks
mod Parts
pub mod Tokens
mod Terms
mod Leads
pub mod Fits
mod Starts
mod Clauses
pub mod Reads
pub mod Statements
mod Pieces
mod Bodies
mod Selects
mod Sources
pub mod RoundTrip
pub mod Ctes
pub mod CteCalls
use iron_query.Prelude.{Text, lit, intercalate, map, List, [], ◌∷◌, ◌++◌, Option, none, some, ℤ}
use iron_query.Decimal
use iron_query.OrderBy.{SortDirection, NullsOrder}
use iron_query.Clause.{direction_text, nulls_text}
use iron_query.Join
use iron_query.Join.{JoinKind}
use iron_query.SetOp
use iron_query.SetOp.{SetOpKind}
use iron_query.Syntax.{Tree}
use iron_query.Syntax.Stops.{tree_text}

pub data Distinct (E : Type 0) : Type 0 where
  all_rows distinct_rows : Distinct E
  distinct_on : List E → Distinct E

-- A SELECT list's item with its alias, and a term of ORDER BY.
abbrev pub Item : Type 0 → Type 0
Item E = E × Option Text

abbrev pub Term : Type 0 → Type 0
Term E = E × SortDirection × NullsOrder

-- A table with its alias, and what it is joined to.
abbrev pub Ref : Type 0
Ref = Text × Option Text

pub data Qualifier (E P : Type 0) : Type 0 where
  unqualified : Qualifier E P
  on_condition : P → Qualifier E P
  using_columns : List E → Qualifier E P

abbrev pub Joined : Type 0 → Type 0 → Type 0
Joined E P = JoinKind × Ref × Qualifier E P

pub record Body (E P : Type 0) : Type 0 where
  pub distinct : Distinct E
  pub items : List (Item E)
  pub condition : Option P
  pub groups : Option (List E)
  pub having : Option P
  pub orders : Option (List (Term E))
  pub limit : Option ℤ
  pub offset : Option ℤ

pub data Query (E P : Type 0) : Type 0 where
  from_table : Ref → Option (Joined E P) → Body E P → Query E P
  from_query : Query E P → Text → Body E P → Query E P
  combined : SetOpKind → Query E P → Query E P → Query E P

abbrev pub QueryTree : Type 0
QueryTree = Query Tree Tree

-- What may follow a part of a SELECT: a comma, a keyword, or the parenthesis that closes it.
pub data Mark : Type 0 where
  comma source where_mark group_mark having_mark order_mark limit_mark offset_mark closing : Mark

abbrev pub mark_text : Mark → Text
mark_text comma = lit ", "
mark_text source = lit " FROM "
mark_text where_mark = lit " WHERE "
mark_text group_mark = lit " GROUP BY "
mark_text having_mark = lit " HAVING "
mark_text order_mark = lit " ORDER BY "
mark_text limit_mark = lit " LIMIT "
mark_text offset_mark = lit " OFFSET "
mark_text closing = lit ")"

-- A part behind its keyword, if there is one.
abbrev pub part {ℓ} : {A : Type ℓ} → Mark → (A → Text) → Option A → Text
part m shown none = []
part m shown (some a) = mark_text m ++ shown a

abbrev pub csv {ℓ} : {A : Type ℓ} → (A → Text) → List A → Text
csv shown items = intercalate (lit ", ") (map shown items)

abbrev pub aliased : Option Text → Text
aliased none = []
aliased (some alias) = lit " AS " ++ alias

abbrev pub item_text : Item Tree → Text
item_text (t, alias) = tree_text t ++ aliased alias

abbrev pub term_text : Term Tree → Text
term_text (t, direction, nulls) = tree_text t ++ (direction_text direction ++ nulls_text nulls)

abbrev pub ref_text : Ref → Text
ref_text (name, alias) = name ++ aliased alias

abbrev pub on_text : Qualifier Tree Tree → Text
on_text unqualified = []
on_text (on_condition t) = lit " ON " ++ tree_text t
on_text (using_columns ts) = lit " USING (" ++ (csv tree_text ts ++ lit ")")

abbrev pub join_word : JoinKind → Text
join_word kind = lit " " ++ (Join.kind_text kind ++ lit " JOIN ")

abbrev pub joined_text : Option (Joined Tree Tree) → Text
joined_text none = []
joined_text (some (kind, right, condition)) =
    join_word kind ++ (ref_text right ++ on_text condition)

abbrev pub distinct_text : Distinct Tree → Text
distinct_text all_rows = lit "SELECT "
distinct_text distinct_rows = lit "SELECT DISTINCT "
distinct_text (distinct_on ts) = lit "SELECT DISTINCT ON (" ++ (csv tree_text ts ++ lit ") ")

abbrev pub clauses_text : Body Tree Tree → Text
clauses_text b =
    part where_mark tree_text b.condition
    ++ (part group_mark (csv tree_text) b.groups
        ++ (part having_mark tree_text b.having
            ++ (part order_mark (csv term_text) b.orders
                ++ (part limit_mark Decimal.to_string b.limit
                    ++ part offset_mark Decimal.to_string b.offset))))

abbrev pub select_text : Body Tree Tree → Text → Text
select_text b item =
    distinct_text b.distinct
    ++ (csv item_text b.items ++ (mark_text source ++ (item ++ clauses_text b)))

-- What stands between two queries in parentheses.
abbrev pub between_text : SetOpKind → Text
between_text kind = lit ") " ++ (SetOp.kind_text kind ++ lit " (")

pub query_text : QueryTree → Text
query_text (from_table ref joined b) = select_text b (ref_text ref ++ joined_text joined)
query_text (from_query q alias b) =
    select_text b (b'(' ∷ (query_text q ++ (b')' ∷ (lit " AS " ++ alias))))
query_text (combined kind q r) =
    b'(' ∷ (query_text q ++ (between_text kind ++ (query_text r ++ b')' ∷ [])))
