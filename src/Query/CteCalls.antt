-- ===== src/Query/CteCalls.antt =====
-- The calls of src/with.cpp that put CTEs in front of a SELECT, and what a reader recovers from the text.
use iron_query.Prelude.{
  ℕ, Text, lit, All, map, intercalate, ◌≡◌, refl, ap, ◌∙◌, List, [], ◌∷◌, ◌++◌, append_assoc, some,
}
use iron_query.Exception.{Result, ok, ◌>>=◌}
use iron_query.VirtualTable.{VirtualTable}
use iron_query.With
use iron_query.With.{
  WithBuilder, WithQuery, has_name, with_cte, builder, add_with, main_query, with_table, cte_text,
  cte_text_formatted,
}
use iron_query.With.Names.{has_name-Fresh, run, shown, with_cte-run-names}
use iron_query.Query.{QueryTree, query_text}
use iron_query.Query.Tokens.{IsAlias}
use iron_query.Query.Pieces.{alias-valid}
use iron_query.Query.Sources.{Shows, build_query-Shows}
use iron_query.Query.Statements.{Statement, build_each, build_query, query_tree}
use iron_query.Query.Ctes.{
  WithOf, cte_shown, New, CteFits, WithFits, with_shown, read_with, read_with-shown,
}

unfoldable pub build_cte : Text × Statement → Result (Text × VirtualTable)
build_cte (name, s) = do v ← build_query s; ok (name, v)

unfoldable pub build_with : WithOf Statement → Result VirtualTable
unfolding build_each build_cte
build_with w = do
  (name, v) ← build_cte w.first
  vs ← build_each build_cte w.others
  b ← with_cte name v
  b ← run vs b
  m ← build_query w.main
  q ← main_query m b
  ok (with_table q)

abbrev pub cte_tree : Text × Statement → Text × QueryTree
cte_tree (name, s) = (name, query_tree s)

abbrev pub with_tree : WithOf Statement → WithOf QueryTree
with_tree w = record {
  first = cte_tree w.first;
  others = map cte_tree w.others;
  main = query_tree w.main;
}

module _ (fuel nested : ℕ) where
  abbrev Built : List (Text × Statement) → List (Text × VirtualTable) → Type 0
  Built [] [] = Unit
  Built ((name, s) ∷ cs) ((m, v) ∷ vs) =
      (m ≡ name) × Shows fuel v (query_text (query_tree s)) × Built cs vs
  Built _ _ = ⊥

  build_each-Built :
      (cs : List (Text × Statement))
      → All (CteFits fuel nested) (map cte_tree cs)
      → (vs : List (Text × VirtualTable)) × (build_each build_cte cs ≡ ok vs) × Built cs vs
  unfolding build_each build_cte
  build_each-Built [] h = ([], refl, tt)
  build_each-Built ((name, s) ∷ cs) ((alias, fits, d), h) =
      let (v, made, at) = build_query-Shows fuel s fits in
      let (vs, others, built) = build_each-Built cs h in
      ((name, v) ∷ vs, rw (made, others) refl, (refl, at, built))

  cte-shown :
      (name q : Text)
      → name ++ (lit " AS " ++ (b'(' ∷ (q ++ b')' ∷ []))) ≡ name ++ (lit " AS (" ++ (q ++ lit ")"))
  unfolding lit
  cte-shown name q = refl

  Built-shown :
      (cs : List (Text × Statement)) (vs : List (Text × VirtualTable))
      → Built cs vs
      → map shown vs ≡ map cte_shown (map cte_tree cs)
  Built-shown [] [] h = refl
  Built-shown ((name, s) ∷ cs) ((m, v) ∷ vs) (e, at, h) =
      rw (e, at.bracketed, cte-shown name (query_text (query_tree s)), Built-shown cs vs h) refl
  Built-shown [] (v ∷ vs) h = absurd h
  Built-shown (c ∷ cs) [] h = absurd h

  run-Built :
      (cs : List (Text × Statement)) (vs : List (Text × VirtualTable)) (b : WithBuilder)
      → Built cs vs
      → All (CteFits fuel nested) (map cte_tree cs)
      → New b.cte_names_ (map cte_tree cs)
      → (c : WithBuilder) × (run vs b ≡ ok c)
  unfolding run add_with
  run-Built [] [] b h fits new = (b, refl)
  run-Built ((name, s) ∷ cs) ((m, v) ∷ vs) b (e, at, h) ((alias, fit, d), fits) (fresh, new) =
      let (t, formatted) = at.formatted in
      let added : WithBuilder = record b {
        ctes_ =
            b.ctes_ ++ lit ", " ++ cte_text name (b'(' ∷ (query_text (query_tree s) ++ b')' ∷ []));
        ctes_formatted_ = b.ctes_formatted_ ++ lit ",\n" ++ cte_text_formatted name t;
        cte_names_ = b.cte_names_ ++ name ∷ [];
      } in
      let (c, others) = run-Built cs vs added h fits new in
      (
        c,
        rw
            (
              e,
              alias-valid name alias,
              (has_name-Fresh name b.cte_names_).1 fresh,
              at.bracketed,
              formatted,
            )
            others,
      )
  run-Built [] (v ∷ vs) b h fits new = absurd h
  run-Built (c ∷ cs) [] b h fits new = absurd h

  with_cte-built :
      (name : Text) (v : VirtualTable) (q : Text)
      → IsAlias name
      → Shows fuel v q
      → (b : WithBuilder) × (with_cte name v ≡ ok b) × (b.cte_names_ ≡ name ∷ [])
  unfolding with_cte builder
  with_cte-built name v q alias at =
      let (t, formatted) = at.formatted in
      (
        record {
          ctes_ = cte_text name (b'(' ∷ (q ++ b')' ∷ []));
          ctes_formatted_ = cte_text_formatted name t;
          cte_names_ = name ∷ [];
        },
        rw (alias-valid name alias, at.bracketed, formatted) refl,
        refl,
      )

with_text :
    (ctes_text main : Text) {shown_ctes : Text}
    → ctes_text ≡ shown_ctes
    → lit "WITH " ++ ctes_text ++ lit " " ++ main ≡ lit "WITH " ++ (shown_ctes ++ (lit " " ++ main))
with_text ctes_text main e = rw e (simp append_assoc)

-- A WITH clause of any number of CTEs in front of a statement, where the names of the CTEs are plain
-- identifiers, no two are equal, each CTE and the main query is such that read_query reads its text,
-- and the fuel is above the number of CTEs behind the first, too. The calls return a table, whose
-- ToString returns a text; and a reader that looks into more queries in parentheses than any of the
-- queries nests recovers each name, each CTE and the main query from the text and leaves none of it
-- unread.
pub read_with-build_with :
    (w : WithOf Statement) (fuel nested : ℕ)
    → WithFits fuel nested (with_tree w)
    → (v : VirtualTable) × (build_with w ≡ ok v)
      × (text : Text) × (v.to_string ≡ ok text)
      × (read_with fuel nested text ≡ some (with_tree w, []))
unfolding build_with build_cte main_query with_table With.to_string
read_with-build_with w fuel nested h =
    let (((alias, fits, d), others), (fresh, new), few, main, inside) = h in
    let name = w.first.0 in
    let (v, made, at) = build_query-Shows fuel w.first.1 fits in
    let (vs, listed, built) = build_each-Built fuel nested w.others others in
    let (b, first, names) = with_cte-built fuel nested name v _ alias at in
    let (c, rest) = run-Built fuel nested w.others vs b built others (rw names new) in
    let (m, made_m, at_m) = build_query-Shows fuel w.main main in
    let (t, formatted) = at_m.formatted in
    let (named, all_names, text) = with_cte-run-names name v vs first rest in
    let listed_text =
      Built-shown fuel nested (w.first ∷ w.others) ((name, v) ∷ vs) (refl, at, built) in
    let e = text ∙ ap (intercalate (lit ", ")) listed_text in
    (
      with_table (record {
        ctes_ = c.ctes_;
        main_ = query_text (query_tree w.main);
        ctes_formatted_ = c.ctes_formatted_;
        main_formatted_ = t;
      }),
      rw (made, listed, first, rest, made_m, at_m.text, formatted) refl,
      with_shown (with_tree w),
      ap ok (with_text c.ctes_ (query_text (query_tree w.main)) e),
      read_with-shown fuel nested (with_tree w) h,
    )
