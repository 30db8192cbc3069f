-- ===== src/Query/Reads.antt =====
-- The reader of Query reads back the text of every statement.
use iron_query.Prelude.{
  false, ℕ, zero, suc, ◌+◌, ◌<◌, Text, lit, ◌≡◌, refl, ◌∷◌, ◌++◌, append_assoc, Option, some, arith,
}
use iron_query.Syntax.{Tree}
use iron_query.Syntax.Grammar.{strip}
use iron_query.Syntax.Stops.{IsWord, goes_on}
use iron_query.Query.{
  Ref, Joined, from_table, from_query, combined, QueryTree, closing, ref_text, joined_text,
  clauses_text, between_text, query_text,
}
use iron_query.Query.Grammar.{Reader, read_source, read_query}
use iron_query.Query.Marks.{strip-append, After, After-mark, After-le, After-Stops}
use iron_query.Query.Fits.{QueryFits}
use iron_query.Query.Tokens.{read_word-append, AliasOk, read_ref-ref_text}
use iron_query.Query.Terms.{JoinFits, read_joined-joined_text}
use iron_query.Query.Starts.{
  joined_apart, unparenthesized, source-append, After-as_closed, select_first, After-clauses_text,
  combined-append, read_set-between_text, After-between_text,
}
use iron_query.Query.Clauses.{read_select-text}

-- The queries inside one another.
abbrev pub nesting : QueryTree → ℕ
nesting (from_table ref joined b) = 0
nesting (from_query q alias b) = suc (nesting q)
nesting (combined kind q r) = suc (nesting q + nesting r)

module _ (fuel : ℕ) where
  read_source-table :
      (inner : Reader QueryTree) (ref : Ref) (joined : Option (Joined Tree Tree)) (rest : Text)
      → IsWord ref.0
      → AliasOk ref.1
      → JoinFits fuel joined
      → After 1 rest
      → read_source fuel inner
          ((ref_text ref ++ joined_text joined) ++ rest)
          (strip (lit "(") ((ref_text ref ++ joined_text joined) ++ rest))
        ≡ some (from_table ref joined, rest)
  read_source-table inner ref joined rest h ok fits after =
      let behind = joined_text joined ++ rest in
      let (apart, bare) = joined_apart joined rest after in
      rw
        (
          append_assoc (ref_text ref) (joined_text joined) rest,
          unparenthesized ref behind h,
          read_ref-ref_text ref behind h ok apart bare,
          read_joined-joined_text fuel joined rest fits after,
        )
        refl

  read_source-query :
      (inner : Reader QueryTree) (q : QueryTree) (alias rest : Text)
      → IsWord alias
      → goes_on rest ≡ false
      → ((s : Text) → After 8 s → inner (query_text q ++ s) ≡ some (q, s))
      → read_source fuel inner
          ((b'(' ∷ (query_text q ++ (b')' ∷ (lit " AS " ++ alias)))) ++ rest)
          (strip (lit "(") ((b'(' ∷ (query_text q ++ (b')' ∷ (lit " AS " ++ alias)))) ++ rest))
        ≡ some (from_query q alias, rest)
  read_source-query inner q alias rest h ends within =
      let behind = lit ") AS " ++ (alias ++ rest) in
      rw
        (
          source-append (query_text q) alias rest,
          strip-append (lit "(") (query_text q ++ behind),
          within behind (After-as_closed (alias ++ rest)),
          strip-append (lit ") AS ") (alias ++ rest),
          read_word-append alias rest h ends,
        )
        refl

  -- The text of every fit statement is read back, in front of the end or a closing parenthesis.
  pub reads_query :
      (q : QueryTree) (nested : ℕ) (rest : Text)
      → QueryFits fuel q
      → nesting q < nested
      → After 8 rest
      → read_query fuel nested (query_text q ++ rest) ≡ some (q, rest)
  unfolding read_query query_text
  reads_query q zero rest h d after = absurd (omega (arith, d))
  reads_query (from_table ref joined b) (suc nested) rest (h, ok, fits, body) d after =
      rw (select_first b (ref_text ref ++ joined_text joined) rest) (
        read_select-text fuel (λ r. read_query fuel nested r) b (ref_text ref ++ joined_text joined)
          rest (from_table ref joined) body after
          (read_source-table (λ r. read_query fuel nested r) ref joined (clauses_text b ++ rest) h
            ok fits (After-le 1 2 (omega arith) (After-clauses_text b rest after))))
  reads_query (from_query q alias b) (suc nested) rest (hq, h, body) d after =
      rw (select_first b (b'(' ∷ (query_text q ++ (b')' ∷ (lit " AS " ++ alias)))) rest) (
        read_select-text fuel (λ r. read_query fuel nested r) b
          (b'(' ∷ (query_text q ++ (b')' ∷ (lit " AS " ++ alias)))) rest (from_query q alias) body
          after
          (read_source-query (λ r. read_query fuel nested r) q alias (clauses_text b ++ rest) h.word
            (After-Stops 2 (clauses_text b ++ rest) (After-clauses_text b rest after)).leaf_ends
            (λ s k. reads_query q nested s hq (omega (arith, d)) k)))
  reads_query (combined kind q r) (suc nested) rest (hq, hr) d after =
      let second = query_text r ++ (lit ")" ++ rest) in
      rw
        (
          combined-append kind (query_text q) (query_text r) rest,
          strip-append (lit "(") (query_text q ++ (between_text kind ++ second)),
          reads_query q nested (between_text kind ++ second) hq (omega (arith, d))
              (After-between_text kind second),
          read_set-between_text kind second,
          reads_query r nested (lit ")" ++ rest) hr (omega (arith, d))
              (After-mark 8 closing rest (omega arith)),
          strip-append (lit ")") rest,
        )
        refl
