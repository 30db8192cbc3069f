-- ===== src/Tests/Witness/Queries.antt =====
-- The theorem on whole SELECT statements at a concrete statement.
use iron_query.Prelude.{ℕ, ◌≢◌, lit, ◌≡◌, refl, [], ◌∷◌, none, some, pos, arith, Text}
use iron_query.Exception.{ok}
use iron_query.Identifier.{is_word, is_alnum, is_alpha, is_plain_identifier}
use iron_query.OrderBy
use iron_query.Join
use iron_query.SetOp
use iron_query.VirtualTable.{VirtualTable}
use iron_query.Syntax.Values.{Value, Predicate}
use iron_query.Syntax.Values
use iron_query.Query
use iron_query.Query.{Body, from_table, from_query, combined}
use iron_query.Query.Grammar.{read_query}
use iron_query.Query.Fits.{QueryFits}
use iron_query.Query.Tokens.{IsAlias}
use iron_query.Query.Statements.{Statement, build_query, query_tree}
use iron_query.Query.Ctes.{WithOf, WithFits, read_with}
use iron_query.Query.CteCalls.{build_with, with_tree, read_with-build_with}
use iron_query.Query.RoundTrip.{read_query-build_query}
use iron_query.Tests.Witness.Texts.{col, letter}

-- `SELECT DISTINCT ON (a) a + b AS z FROM t AS x LEFT OUTER JOIN u ON a = c WHERE a < b
-- ORDER BY a DESC NULLS LAST LIMIT 10`.
abbrev joined_rows : Statement
joined_rows =
    from_table (lit "t", some (lit "x"))
      (some (
        Join.left_outer,
        (lit "u", none),
        Query.on_condition (Values.compare Values.eq (col b'a') (col b'c')),
      ))
      (record {
        distinct = Query.distinct_on (col b'a' ∷ []);
        items = (Values.apply Values.add (col b'a') (col b'b'), some (lit "z")) ∷ [];
        condition = some (Values.compare Values.lt (col b'a') (col b'b'));
        groups = none;
        having = none;
        orders = some ((col b'a', OrderBy.descending, OrderBy.last) ∷ []);
        limit = some (pos 10);
        offset = none;
      })

-- `SELECT a, b FROM (`, the other, `) AS w GROUP BY a, b HAVING a > b OFFSET 2`.
abbrev grouped_rows : Statement
grouped_rows = from_query joined_rows (lit "w") (record {
  distinct = Query.all_rows;
  items = (col b'a', none) ∷ (col b'b', none) ∷ [];
  condition = none;
  groups = some (col b'a' ∷ col b'b' ∷ []);
  having = some (Values.compare Values.gt (col b'a') (col b'b'));
  orders = none;
  limit = none;
  offset = some (pos 2);
})

-- `SELECT a FROM t INNER JOIN u USING (a, b)`.
abbrev used_rows : Statement
used_rows =
    from_table (lit "t", none)
      (some (Join.inner, (lit "u", none), Query.using_columns (col b'a' ∷ col b'b' ∷ [])))
      (record {
        distinct = Query.all_rows;
        items = (col b'a', none) ∷ [];
        condition = none;
        groups = none;
        having = none;
        orders = none;
        limit = none;
        offset = none;
      })

abbrev united : Statement
united = combined SetOp.union_all used_rows grouped_rows

joined_rows-QueryFits : QueryFits 9 (query_tree joined_rows)
unfolding lit is_word is_alnum is_alpha is_plain_identifier
joined_rows-QueryFits =
    let a = letter 97 refl (λ e. omega (arith, e)) in
    let b = letter 98 refl (λ e. omega (arith, e)) in
    let c = letter 99 refl (λ e. omega (arith, e)) in
    let t = letter 116 refl (λ e. omega (arith, e)) in
    let u = letter 117 refl (λ e. omega (arith, e)) in
    let x : IsAlias (120 ∷ []) = record {
      word = letter 120 refl (λ e. omega (arith, e));
      plain = refl;
    } in
    let z : IsAlias (122 ∷ []) = record {
      word = letter 122 refl (λ e. omega (arith, e));
      plain = refl;
    } in
    (
      t,
      x,
      (u, tt, (((a, c), omega arith), refl)),
      record {
        distinct = (((a, omega arith), tt), omega arith);
        items = (((((a, b), omega arith), z), tt), omega arith);
        condition = ((a, b), omega arith);
        groups = tt;
        having = tt;
        orders = (((a, omega arith), tt), omega arith);
      },
    )

used_rows-QueryFits : QueryFits 9 (query_tree used_rows)
unfolding lit is_word is_alnum is_alpha is_plain_identifier
used_rows-QueryFits =
    let a = letter 97 refl (λ e. omega (arith, e)) in
    let b = letter 98 refl (λ e. omega (arith, e)) in
    let t = letter 116 refl (λ e. omega (arith, e)) in
    let u = letter 117 refl (λ e. omega (arith, e)) in
    (
      t,
      tt,
      (u, tt, ((((a, omega arith), ((b, omega arith), tt)), omega arith), refl)),
      record {
        distinct = tt;
        items = ((((a, omega arith), tt), tt), omega arith);
        condition = tt;
        groups = tt;
        having = tt;
        orders = tt;
      },
    )

united-QueryFits : QueryFits 9 (query_tree united)
unfolding lit is_word is_alnum is_alpha is_plain_identifier
united-QueryFits =
    let a = letter 97 refl (λ e. omega (arith, e)) in
    let b = letter 98 refl (λ e. omega (arith, e)) in
    let w : IsAlias (119 ∷ []) = record {
      word = letter 119 refl (λ e. omega (arith, e));
      plain = refl;
    } in
    (
      used_rows-QueryFits,
      (
        joined_rows-QueryFits,
        w,
        record {
          distinct = tt;
          items = ((((a, omega arith), tt), (((b, omega arith), tt), tt)), omega arith);
          condition = tt;
          groups = (((a, omega arith), ((b, omega arith), tt)), omega arith);
          having = ((a, b), omega arith);
          orders = tt;
        },
      ),
    )

read_query-build_query_example :
    (v : VirtualTable) × (build_query united ≡ ok v)
    × (text : Text) × (v.to_string ≡ ok text)
    × (read_query 9 3 text ≡ some (query_tree united, []))
read_query-build_query_example = read_query-build_query united 9 3 united-QueryFits (omega arith)

-- `WITH p AS (`, the first, `), q AS (`, the second, `) `, both united.
abbrev with_both : WithOf Statement
with_both = record {
  first = (lit "p", joined_rows);
  others = (lit "q", grouped_rows) ∷ [];
  main = united;
}

letters_apart : (a b : ℕ) → a ≢ b → (a ∷ []) ≢ (b ∷ [])
letters_apart a b h e = let same : a ≡ b = cc in h same

grouped_rows-QueryFits : QueryFits 9 (query_tree grouped_rows)
grouped_rows-QueryFits = united-QueryFits.1

with_both-WithFits : WithFits 9 3 (with_tree with_both)
unfolding lit is_word is_alnum is_alpha is_plain_identifier
with_both-WithFits =
    let p : IsAlias (112 ∷ []) = record {
      word = letter 112 refl (λ e. omega (arith, e));
      plain = refl;
    } in
    let q : IsAlias (113 ∷ []) = record {
      word = letter 113 refl (λ e. omega (arith, e));
      plain = refl;
    } in
    (
      ((p, joined_rows-QueryFits, omega arith), ((q, grouped_rows-QueryFits, omega arith), tt)),
      (tt, ((letters_apart 112 113 (λ e. omega (arith, e)), tt), tt)),
      omega arith,
      united-QueryFits,
      omega arith,
    )

read_with-build_with_example :
    (v : VirtualTable) × (build_with with_both ≡ ok v)
    × (text : Text) × (v.to_string ≡ ok text)
    × (read_with 9 3 text ≡ some (with_tree with_both, []))
read_with-build_with_example = read_with-build_with with_both 9 3 with_both-WithFits
