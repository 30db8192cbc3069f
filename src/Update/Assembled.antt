-- ===== src/Update/Assembled.antt =====
-- The text of an UPDATE (src/update.cpp) from the calls that gave its clauses.
use iron_query.Prelude.{
  Text, lit, is_empty-ne-nil, intercalate, All, ◌≡◌, ◌≢◌, refl, ◌∙◌, List, [], ◌∷◌, ◌++◌,
  append_assoc,
}
use iron_query.Exception.{Result, ok, err, logic_error, IsOk-eq}
use iron_query.Table
use iron_query.Table.{Table}
use iron_query.Update.{Update, update, to_string}
use iron_query.Clause.Gathered.{gathered, clause, clause-append}
use iron_query.Update.Total.{Once, Renders, run-update_total}
use iron_query.Update.Calls.{
  Call, set, from, where_clause, returning, run, assignments, from_of, where_of, returning_of, onto,
  run-Became, assignment_ne,
}

to_string-clauses :
    (q : Update)
    → q.set_ ≢ []
    → to_string q
      ≡ ok (
          ((((lit "UPDATE " ++ q.table_) ++ lit " SET ") ++ q.set_)
            ++ clause (lit " FROM ") q.from_)
          ++ clause (lit " WHERE ") q.where_
          ++ clause (lit " RETURNING ") q.returning_)
unfolding to_string
to_string-clauses q h =
    rw
      (
        is_empty-ne-nil q.set_ h,
        clause-append _ (lit " FROM ") q.from_,
        clause-append _ (lit " WHERE ") q.where_,
        clause-append _ (lit " RETURNING ") q.returning_,
      )
      refl

-- The statement from its assignments and its clauses.
abbrev pub statement : Text → List Text → Text → Result Text
statement table [] clauses = err (logic_error (lit "SET clause is not set"))
statement table (a ∷ items) clauses =
    ok
      (lit "UPDATE " ++ (table ++ (lit " SET " ++ (intercalate (lit ", ") (a ∷ items) ++ clauses))))

to_string-statement :
    (q : Update) (items : List Text)
    → q.set_ ≡ onto [] items
    → All (λ item. item ≢ []) items
    → to_string q
      ≡ statement q.table_ items (
          clause (lit " FROM ") q.from_
          ++ (clause (lit " WHERE ") q.where_ ++ clause (lit " RETURNING ") q.returning_))
to_string-statement q [] e ne = unfold to_string in rw e refl
to_string-statement q ([] ∷ items) e (ne, rest) = absurd (ne refl)
to_string-statement q ((c ∷ a) ∷ items) e ne =
    to_string-clauses q (λ empty. cc (e, empty)) ∙ rw e (simp append_assoc)

assignments_shown : (calls : List Call) → All (λ item. item ≢ []) (assignments calls)
assignments_shown [] = tt
assignments_shown (set column value ∷ calls) = (assignment_ne column value, assignments_shown calls)
assignments_shown (from _ ∷ calls) = assignments_shown calls
assignments_shown (where_clause _ ∷ calls) = assignments_shown calls
assignments_shown (returning _ ∷ calls) = assignments_shown calls

update-run :
    (tbl : Table) (calls : List Call) {q : Update}
    → run calls (update tbl) ≡ ok q
    → (q.table_ ≡ Table.to_string tbl)
      × (q.set_ ≡ onto [] (assignments calls))
      × (q.from_ ≡ gathered from_of calls)
      × (q.where_ ≡ gathered where_of calls)
      × (q.returning_ ≡ gathered returning_of calls)
unfolding update
update-run tbl calls h = run-Became calls (update tbl) h

to_string-run :
    (tbl : Table) (calls : List Call) {q : Update}
    → run calls (update tbl) ≡ ok q
    → to_string q
      ≡ statement (Table.to_string tbl) (assignments calls) (
          clause (lit " FROM ") (gathered from_of calls)
          ++ (clause (lit " WHERE ") (gathered where_of calls)
              ++ clause (lit " RETURNING ") (gathered returning_of calls)))
to_string-run tbl calls {q} h =
    let (table, s, f, w, g) = update-run tbl calls h in
    to_string-statement q (assignments calls) s (assignments_shown calls) ∙ rw (table, f, w, g) refl

-- A chain of Set, From, Where and Returning calls on an UPDATE, in whatever order, returns if it calls
-- none of the last three twice and its FROM items may stand there. ToString then throws where no Set
-- was called, and else gives UPDATE, the table, SET, the assignments in the order of the calls with a
-- comma between them, and FROM, WHERE and RETURNING, in that order, in front of what the calls gave
-- each of them; a clause with no text is left out.
pub to_string-run-update :
    (tbl : Table) (calls : List Call)
    → Once 0 0 0 calls
    → Renders calls
    → (q : Update) × (run calls (update tbl) ≡ ok q)
      × (to_string q
          ≡ statement (Table.to_string tbl) (assignments calls) (
              clause (lit " FROM ") (gathered from_of calls)
              ++ (clause (lit " WHERE ") (gathered where_of calls)
                  ++ clause (lit " RETURNING ") (gathered returning_of calls))))
to_string-run-update tbl calls once h =
    let (q, e) = IsOk-eq _ (run-update_total tbl calls once h) in (q, e, to_string-run tbl calls e)
