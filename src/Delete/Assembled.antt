-- ===== src/Delete/Assembled.antt =====
-- The text of a DELETE (src/delete_from.cpp) from the calls that gave its clauses.
use iron_query.Prelude.{Text, lit, ◌≡◌, refl, ◌∙◌, List, [], ◌∷◌, ◌++◌, append_assoc}
use iron_query.Exception.{IsOk-eq, Result, ok, err, logic_error}
use iron_query.Clause.Gathered.{gathered, clause, clause-append}
use iron_query.Table
use iron_query.Table.{Table}
use iron_query.Delete.{DeleteFrom, delete_from, to_string}
use iron_query.Delete.Calls.{Call, run, using_of, where_of, returning_of, run-Became}
use iron_query.Delete.Total.{Once, Renders, run-delete_from_total}

-- The statement from its table and its clauses.
abbrev pub statement : Text → Text → Result Text
statement [] clauses = err (logic_error (lit "FROM clause is not set"))
statement (c ∷ table) clauses = ok (lit "DELETE FROM " ++ ((c ∷ table) ++ clauses))

to_string-statement :
    (table u w g : Text)
    → to_string (record { from_ = table; using_ = u; where_ = w; returning_ = g })
      ≡ statement table
          (clause (lit " USING ") u ++ (clause (lit " WHERE ") w ++ clause (lit " RETURNING ") g))
unfolding to_string
to_string-statement [] u w g = refl
to_string-statement (c ∷ table) u w g =
    rw
      (
        clause-append _ (lit " USING ") u,
        clause-append _ (lit " WHERE ") w,
        clause-append _ (lit " RETURNING ") g,
      )
      (simp append_assoc)

delete_from-run :
    (tbl : Table) (calls : List Call) {q : DeleteFrom}
    → run calls (delete_from tbl) ≡ ok q
    → (q.from_ ≡ Table.to_string tbl)
      × (q.using_ ≡ gathered using_of calls)
      × (q.where_ ≡ gathered where_of calls)
      × (q.returning_ ≡ gathered returning_of calls)
unfolding delete_from
delete_from-run tbl calls h = run-Became calls (delete_from tbl) h

to_string-run :
    (tbl : Table) (calls : List Call) {q : DeleteFrom}
    → run calls (delete_from tbl) ≡ ok q
    → to_string q
      ≡ statement (Table.to_string tbl) (
          clause (lit " USING ") (gathered using_of calls)
          ++ (clause (lit " WHERE ") (gathered where_of calls)
              ++ clause (lit " RETURNING ") (gathered returning_of calls)))
to_string-run tbl calls {q} h =
    let (f, u, w, g) = delete_from-run tbl calls h in
    to_string-statement q.from_ q.using_ q.where_ q.returning_ ∙ rw (f, u, w, g) refl

-- A chain of Using, Where and Returning calls on a DELETE, in whatever order, returns if it calls none
-- of them twice and its USING items may stand there. ToString then throws where the table has no text,
-- and else gives DELETE FROM, the table, and USING, WHERE and RETURNING, in that order, in front of
-- what the calls gave each of them; a clause with no text is left out.
pub to_string-run-delete_from :
    (tbl : Table) (calls : List Call)
    → Once 0 0 0 calls
    → Renders calls
    → (q : DeleteFrom) × (run calls (delete_from tbl) ≡ ok q)
      × (to_string q
          ≡ statement (Table.to_string tbl) (
              clause (lit " USING ") (gathered using_of calls)
              ++ (clause (lit " WHERE ") (gathered where_of calls)
                  ++ clause (lit " RETURNING ") (gathered returning_of calls))))
to_string-run-delete_from tbl calls once h =
    let (q, e) = IsOk-eq _ (run-delete_from_total tbl calls once h) in
    (q, e, to_string-run tbl calls e)
