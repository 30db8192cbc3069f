-- ===== src/Insert/Rows.antt =====
-- The text of an INSERT (src/insert_into.cpp) from its fields.
use iron_query.Prelude.{
  Text, lit, is_empty, following, intercalate, map, if◌then◌else◌, not, ◌≡◌, sym, ap, ◌∙◌, true,
  false, List, [], ◌∷◌, ◌++◌, append_assoc, append-nil, arith,
}
use iron_query.Exception.{ok, IsOk}
use iron_query.Clause.{join_csv}
use iron_query.Clause.Gathered.{clause, clause-append}
use iron_query.Insert.{InsertInto, rows_onto, to_string}

-- A row in parentheses.
abbrev pub tuple : List Text → Text
tuple row = b'(' ∷ (join_csv row ++ b')' ∷ [])

brackets :
    (s : Text) (row : List Text) → ((s ++ lit "(") ++ join_csv row) ++ lit ")" ≡ s ++ tuple row
unfolding lit
brackets s row = simp append_assoc

rows_onto-later :
    (rows : List (List Text)) (s : Text)
    → rows_onto true s rows ≡ s ++ following (lit ", ") (map tuple rows)
unfolding rows_onto
rows_onto-later [] s = sym (append-nil s)
rows_onto-later (row ∷ rows) s =
    rows_onto-later rows _ ∙ rw (brackets (s ++ lit ", ") row) (simp append_assoc)

rows_onto-first :
    (rows : List (List Text)) (s : Text)
    → rows_onto false s rows ≡ s ++ intercalate (lit ", ") (map tuple rows)
unfolding rows_onto
rows_onto-first [] s = sym (append-nil s)
rows_onto-first (row ∷ rows) s = rows_onto-later rows _ ∙ rw (brackets s row) (simp append_assoc)

abbrev when_set : Text → Text → Text → Text
when_set keyword part s = if not (is_empty part) then (s ++ keyword) ++ part else s

-- The text that the code collects.
abbrev collected : InsertInto → Text
collected q =
    let s =
      (((lit "INSERT INTO " ++ q.into_) ++ lit " (") ++ join_csv q.columns_) ++ lit ") VALUES " in
    when_set (lit " RETURNING ") q.returning_
      (when_set (lit " ") q.on_conflict_ (rows_onto false s q.rows_))

to_string-collected : (q : InsertInto) → IsOk (to_string q) → to_string q ≡ ok (collected q)
unfolding to_string
to_string-collected q h = ground arith

-- Where ToString gives a text, it is INSERT INTO, the table, the columns in parentheses, VALUES, every
-- row in order and in parentheses with a comma between two of them, and the ON CONFLICT clause and
-- RETURNING where they are set.
pub to_string-rows :
    (q : InsertInto)
    → IsOk (to_string q)
    → to_string q
      ≡ ok (
          lit "INSERT INTO "
          ++ (q.into_
              ++ (lit " ("
                  ++ (join_csv q.columns_
                      ++ (lit ") VALUES "
                          ++ (intercalate (lit ", ") (map tuple q.rows_)
                              ++ (clause (lit " ") q.on_conflict_
                                  ++ clause (lit " RETURNING ") q.returning_)))))))
to_string-rows q h =
    to_string-collected q h
    ∙ ap ok (
        clause-append _ (lit " RETURNING ") q.returning_
        ∙ rw
            (
              clause-append
                  (rows_onto false
                    ((((lit "INSERT INTO " ++ q.into_) ++ lit " (") ++ join_csv q.columns_)
                      ++ lit ") VALUES ")
                    q.rows_)
                  (lit " ") q.on_conflict_,
              rows_onto-first q.rows_ (
                  (((lit "INSERT INTO " ++ q.into_) ++ lit " (") ++ join_csv q.columns_)
                  ++ lit ") VALUES "),
            )
            (simp append_assoc))
