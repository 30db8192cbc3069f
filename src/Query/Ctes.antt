-- ===== src/Query/Ctes.antt =====
-- A reader of WITH in front of a SELECT, as src/with.cpp renders it.
use iron_query.Prelude.{
  ℕ, ◌<◌, Text, lit, length, All, ◌≡◌, refl, sym, ap, ◌∙◌, List, [], ◌∷◌, ◌++◌, append_assoc,
  append-nil, Option, none, some, arith,
}
use iron_query.Identifier.{is_word, is_alnum, is_alpha}
use iron_query.With.Names.{Fresh}
use iron_query.Syntax.Grammar.{strip}
use iron_query.Query.{QueryTree, closing, csv, query_text}
use iron_query.Query.Grammar.{Reader, ◌>>=◌, read_word, read_csv, read_query}
use iron_query.Query.Marks.{strip-append, After-nil, After-mark}
use iron_query.Query.Parts.{read_csv-items}
use iron_query.Query.Tokens.{IsAlias, read_word-append}
use iron_query.Query.Fits.{QueryFits}
use iron_query.Query.Reads.{nesting, reads_query}

-- The CTEs' names and queries, the first CTE apart, and the main query.
pub record WithOf (Q : Type 0) : Type 0 where
  pub first : Text × Q
  pub others : List (Text × Q)
  pub main : Q

abbrev pub ctes : {Q : Type 0} → WithOf Q → List (Text × Q)
ctes w = w.first ∷ w.others

abbrev pub cte_shown : Text × QueryTree → Text
cte_shown (name, q) = name ++ (lit " AS (" ++ (query_text q ++ lit ")"))

abbrev pub with_shown : WithOf QueryTree → Text
with_shown w = lit "WITH " ++ (csv cte_shown (ctes w) ++ (lit " " ++ query_text w.main))

module _ (fuel nested : ℕ) where
  unfoldable pub read_cte : Reader (Text × QueryTree)
  read_cte s = do
    (name, s) ← read_word s
    s ← strip (lit " AS (") s
    (q, s) ← read_query fuel nested s
    s ← strip (lit ")") s
    some ((name, q), s)

  abbrev split_first : List (Text × QueryTree) → QueryTree → Text → Option (WithOf QueryTree × Text)
  split_first [] q s = none
  split_first (c ∷ cs) q s = some (record { first = c; others = cs; main = q }, s)

  unfoldable pub read_with : Reader (WithOf QueryTree)
  unfolding read_cte
  read_with s = do
    s ← strip (lit "WITH ") s
    (cs, s) ← read_csv read_cte fuel s
    s ← strip (lit " ") s
    (q, s) ← read_query fuel nested s
    split_first cs q s

-- Each name differs from those in front of it.
abbrev pub New : {Q : Type 0} → List Text → List (Text × Q) → Type 0
New names [] = Unit
New names ((name, q) ∷ cs) = Fresh name names × New (names ++ name ∷ []) cs

module _ (fuel nested : ℕ) where
  abbrev pub CteFits : Text × QueryTree → Type 0
  CteFits (name, q) = IsAlias name × QueryFits fuel q × (nesting q < nested)

  abbrev pub WithFits : WithOf QueryTree → Type 0
  WithFits w =
      All CteFits (ctes w)
      × New [] (ctes w)
      × (length w.others < fuel)
      × QueryFits fuel w.main
      × (nesting w.main < nested)

  cte-append :
      (name q rest : Text)
      → (name ++ (lit " AS (" ++ (q ++ lit ")"))) ++ rest
        ≡ name ++ (lit " AS (" ++ (q ++ (lit ")" ++ rest)))
  cte-append name q rest = simp append_assoc

  read_cte-shown :
      (c : Text × QueryTree) (rest : Text)
      → CteFits c
      → read_cte fuel nested (cte_shown c ++ rest) ≡ some (c, rest)
  unfolding read_cte
  read_cte-shown (name, q) rest (h, fits, d) =
      let behind = query_text q ++ (lit ")" ++ rest) in
      rw
        (
          cte-append name (query_text q) rest,
          read_word-append name (lit " AS (" ++ behind) h.word
              (unfold lit is_word is_alnum is_alpha in refl),
          strip-append (lit " AS (") behind,
          reads_query fuel q nested (lit ")" ++ rest) fits d
              (After-mark 8 closing rest (omega arith)),
          strip-append (lit ")") rest,
        )
        refl

  read_ctes :
      (cs : List (Text × QueryTree))
      → All CteFits cs
      → All (λ c. (s : Text) → Unit {0} → read_cte fuel nested (cte_shown c ++ s) ≡ some (c, s)) cs
  read_ctes [] h = tt
  read_ctes (c ∷ cs) (hc, h) = ((λ s u. read_cte-shown c s hc), read_ctes cs h)

  pub read_with-shown :
      (w : WithOf QueryTree) → WithFits w → read_with fuel nested (with_shown w) ≡ some (w, [])
  unfolding read_with
  read_with-shown w (h, new, d, main, inside) =
      let behind = lit " " ++ query_text w.main in
      let read = reads_query fuel w.main nested [] main inside (After-nil 8) in
      rw
        (
          strip-append (lit "WITH ") (csv cte_shown (ctes w) ++ behind),
          read_csv-items (read_cte fuel nested) cte_shown (λ s. Unit) w.first w.others fuel behind
              (λ s. tt) (read_ctes (ctes w) h) d tt (unfold strip lit in refl),
          strip-append (lit " ") (query_text w.main),
          sym (ap (read_query fuel nested) (append-nil (query_text w.main))) ∙ read,
        )
        refl
