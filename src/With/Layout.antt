-- ===== src/With/Layout.antt =====
-- The two renderings of a WithQuery (src/with.cpp) differ only in spaces and newlines.
use iron_query.Prelude.{
  Text, lit, All, ◌≡◌, refl, sym, ap, ◌∙◌, List, [], ◌∷◌, ◌++◌, append_assoc, arith,
}
use iron_query.Exception.{ok, >>=-eq-ok}
use iron_query.VirtualTable.{VirtualTable}
use iron_query.Clause.{indent_block}
use iron_query.Clause.Blank.{unspaced, unspaced-append, unspaced-indent_block}
use iron_query.With.{
  WithQuery, WithBuilder, cte_text, cte_text_formatted, with_cte, add_with, main_query, to_string,
  to_string_formatted,
}
use iron_query.With.Names.{run}

-- A query whose two renderings differ in blanks alone, and which is bracketed for embedding.
pub record IsQuery (v : VirtualTable) : Type 0 where
  pub line : Text
  pub block : Text
  pub renders : v.to_string ≡ ok line
  pub renders_formatted : v.to_string_formatted ≡ ok block
  pub brackets : v.to_string_bracketed ≡ ok (b'(' ∷ (line ++ b')' ∷ []))
  pub same : unspaced line ≡ unspaced block

abbrev pub AreQueries : List (Text × VirtualTable) → Type 0
AreQueries ctes = All (λ (name, query). IsQuery query) ctes

-- What stands around the query of a CTE.
around_words :
    (line : Text)
    → unspaced (lit " AS ") ++ unspaced (b'(' ∷ (line ++ b')' ∷ []))
      ≡ unspaced (lit " AS (\n") ++ (unspaced line ++ unspaced (lit "\n)"))
unfolding unspaced lit
around_words line = ap (λ x. b'A' ∷ b'S' ∷ b'(' ∷ x) (unspaced-append line (b')' ∷ []))

cte_around :
    (name line block : Text)
    → unspaced line ≡ unspaced block
    → unspaced (cte_text name (b'(' ∷ (line ++ b')' ∷ [])))
      ≡ unspaced (cte_text_formatted name block)
cte_around name line block h =
    simp (unspaced-append, unspaced-indent_block)
      (append_assoc (unspaced name) (unspaced (lit " AS ")) _
        ∙ ap (λ x. unspaced name ++ x)
            (around_words line
              ∙ ap (λ x. unspaced (lit " AS (\n") ++ (x ++ unspaced (lit "\n)"))) h)
        ∙ simp append_assoc)

abbrev Same : WithBuilder → Type 0
Same b = unspaced b.ctes_ ≡ unspaced b.ctes_formatted_

with_cte-texts :
    (name : Text) (query : VirtualTable) {b : WithBuilder} {bracketed formatted : Text}
    → query.to_string_bracketed ≡ ok bracketed
    → query.to_string_formatted ≡ ok formatted
    → with_cte name query ≡ ok b
    → (b.ctes_ ≡ cte_text name bracketed) × (b.ctes_formatted_ ≡ cte_text_formatted name formatted)
unfolding with_cte
with_cte-texts name query brackets formatted h = ground arith

add_with-texts :
    (name : Text) (query : VirtualTable) (b : WithBuilder) {c : WithBuilder}
    {bracketed formatted : Text}
    → query.to_string_bracketed ≡ ok bracketed
    → query.to_string_formatted ≡ ok formatted
    → add_with name query b ≡ ok c
    → (c.ctes_ ≡ (b.ctes_ ++ lit ", ") ++ cte_text name bracketed)
      × (c.ctes_formatted_ ≡ (b.ctes_formatted_ ++ lit ",\n") ++ cte_text_formatted name formatted)
unfolding add_with
add_with-texts name query b brackets formatted h = ground arith

comma_same : unspaced (lit ", ") ≡ unspaced (lit ",\n")
unfolding unspaced lit
comma_same = refl

with_cte-Same :
    (name : Text) (query : VirtualTable) {b : WithBuilder}
    → IsQuery query
    → with_cte name query ≡ ok b
    → Same b
with_cte-Same name query v h =
    let (one, block) = with_cte-texts name query v.brackets v.renders_formatted h in
    rw (one, block) (cte_around name v.line v.block v.same)

-- A list of CTEs and one more.
joined :
    (a b c d : Text)
    → unspaced c ≡ unspaced d
    → unspaced a ≡ unspaced b
    → unspaced ((a ++ lit ", ") ++ c) ≡ unspaced ((b ++ lit ",\n") ++ d)
joined a b c d last first = simp unspaced-append (rw (first, last, comma_same) refl)

add_with-Same :
    (name : Text) (query : VirtualTable) (b : WithBuilder) {c : WithBuilder}
    → IsQuery query
    → Same b
    → add_with name query b ≡ ok c
    → Same c
add_with-Same name query b v s h =
    let (one, block) = add_with-texts name query b v.brackets v.renders_formatted h in
    ap unspaced one
    ∙ joined _ _ _ _ (cte_around name v.line v.block v.same) s
    ∙ sym (ap unspaced block)

run-Same :
    (ctes : List (Text × VirtualTable)) (b : WithBuilder) {c : WithBuilder}
    → AreQueries ctes
    → Same b
    → run ctes b ≡ ok c
    → Same c
unfolding run
run-Same [] b {c} v s h = let same : b ≡ c = cc in rw (← same) s
run-Same ((name, query) ∷ ctes) b (v, vs) s h =
    let (m, hm, hr) = >>=-eq-ok (add_with name query b) (run ctes) h in
    run-Same ctes m vs (add_with-Same name query b v s hm) hr

main-texts :
    (main : VirtualTable) (b : WithBuilder) {q : WithQuery} {line block : Text}
    → main.to_string ≡ ok line
    → main.to_string_formatted ≡ ok block
    → main_query main b ≡ ok q
    → (to_string q ≡ ((lit "WITH " ++ b.ctes_) ++ lit " ") ++ line)
      × (to_string_formatted q
          ≡ ((lit "WITH\n" ++ indent_block b.ctes_formatted_ 4) ++ lit "\n") ++ block)
unfolding main_query to_string to_string_formatted
main-texts main b one block h = ground arith

with_same : unspaced (lit "WITH ") ≡ unspaced (lit "WITH\n")
unfolding unspaced lit
with_same = refl

gap_same : unspaced (lit " ") ≡ unspaced (lit "\n")
unfolding unspaced lit
gap_same = refl

around :
    (a b c d : Text)
    → unspaced a ≡ unspaced b
    → unspaced c ≡ unspaced d
    → unspaced (((lit "WITH " ++ a) ++ lit " ") ++ c)
      ≡ unspaced (((lit "WITH\n" ++ indent_block b 4) ++ lit "\n") ++ d)
around a b c d ctes main =
    simp (unspaced-append, unspaced-indent_block) (rw (with_same, gap_same, ctes, main) refl)

-- If every CTE of a WITH query and its main query render, ToStringBracketed gives the one-line text of
-- each in parentheses (as it does not for a Table), and the two renderings of each hold the same bytes but
-- for spaces and newlines, then so do the two renderings of the WITH query.
pub with_cte-main_query-unspaced :
    (name : Text) (query : VirtualTable) (ctes : List (Text × VirtualTable)) (main : VirtualTable)
    {b c : WithBuilder} {q : WithQuery}
    → IsQuery query
    → AreQueries ctes
    → IsQuery main
    → with_cte name query ≡ ok b
    → run ctes b ≡ ok c
    → main_query main c ≡ ok q
    → unspaced (to_string q) ≡ unspaced (to_string_formatted q)
with_cte-main_query-unspaced name query ctes main {b} {c} v vs vm hb hr hq =
    let s = run-Same ctes b vs (with_cte-Same name query v hb) hr in
    let (one, block) = main-texts main c vm.renders vm.renders_formatted hq in
    ap unspaced one ∙ around _ _ _ _ s vm.same ∙ sym (ap unspaced block)
