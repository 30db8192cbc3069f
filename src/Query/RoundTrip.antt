-- ===== src/Query/RoundTrip.antt =====
-- What a reader of SELECT statements recovers from the text that src/select_expr.cpp, src/join.cpp and
-- src/set_op.cpp render.
use iron_query.Prelude.{ℕ, ◌<◌, Text, ◌≡◌, sym, ap, ◌∙◌, [], append-nil, some}
use iron_query.Exception.{ok}
use iron_query.VirtualTable.{VirtualTable}
use iron_query.Query.{query_text}
use iron_query.Query.Grammar.{read_query}
use iron_query.Query.Marks.{After-nil}
use iron_query.Query.Fits.{QueryFits}
use iron_query.Query.Reads.{nesting, reads_query}
use iron_query.Query.Sources.{build_query-Shows}
use iron_query.Query.Statements.{Statement, build_query, query_tree}

-- A statement built of one or more SELECTs, each from a table, a join or a query with an alias, with
-- set operations between them. Its tables and columns are words, which are not NOT, DISTINCT or ON, its
-- aliases and function names are identifiers, what it quotes holds no NUL byte, no list that it sets is
-- empty and no NATURAL join has ON or USING. The fuel is above the depths of its expressions and the
-- lengths of its lists. The calls that build it return a table, whose ToString returns a text; and a
-- reader that looks into more queries in parentheses than the statement nests recovers each part of the
-- statement from the text and leaves none of it unread.
pub read_query-build_query :
    (s : Statement) (fuel nested : ℕ)
    → QueryFits fuel (query_tree s)
    → nesting (query_tree s) < nested
    → (v : VirtualTable) × (build_query s ≡ ok v)
      × (text : Text) × (v.to_string ≡ ok text)
      × (read_query fuel nested text ≡ some (query_tree s, []))
read_query-build_query s fuel nested h d =
    let (v, made, at) = build_query-Shows fuel s h in
    let text = query_text (query_tree s) in
    let read = reads_query fuel (query_tree s) nested [] h d (After-nil 8) in
    (v, made, text, at.text, sym (ap (read_query fuel nested) (append-nil text)) ∙ read)
