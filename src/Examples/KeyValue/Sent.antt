-- ===== src/Examples/KeyValue/Sent.antt =====
-- The query that the handler of examples/userver/src/main.cpp sends, and its answer.
use iron_query.Prelude.{
  Text, lit, is_empty, if◌then◌else◌, ◌≡◌, refl, sym, ap, ◌∙◌, append_assoc, append-nil, List, [],
  ◌∷◌, ◌++◌, Option, none, some, ℤ,
}
use iron_query.Decimal
use iron_query.Node.{make_leaf, make_node, render, append_part, needs_parens}
use iron_query.Expr
use iron_query.Expr.{select_item, from_raw, condition_to_string, item_to_string}
use iron_query.Expr.Predicates.{eq, compare_op}
use iron_query.Clause.{join_csv, render_items}
use iron_query.Table
use iron_query.Table.{column_expr, table}
use iron_query.Select
use iron_query.Userver.{select_builder}
use iron_query.Examples.{key_value_table, key_column, value_column}
use iron_query.Examples.KeyValue.Stoi.{Parsed, number, no_number, out_of_range, stoi}
use iron_query.Examples.KeyValue.{
  bad_number, number_range, Attempt, done, failed, Traffic, attempt, proceed, Framework, Request,
  select_all, add_where, add_limit, respond, execute, fetch, get_values,
}

-- The limit that an argument asks for; none if it is missing.
abbrev as_limit : Parsed → Attempt (Option ℤ)
as_limit (number n) = done (some n)
as_limit no_number = failed bad_number
as_limit out_of_range = failed number_range

abbrev pub wanted : Text → Attempt (Option ℤ)
wanted limit_arg = if is_empty limit_arg then done none else as_limit (stoi limit_arg)

abbrev limit_text : Option ℤ → Text
limit_text none = []
limit_text (some n) = lit " LIMIT " ++ Decimal.to_string n

-- The text, which has a placeholder exactly if a key is given, and the values bound to it.
abbrev pub sql : Text → Option ℤ → Text
sql key limit =
    (lit "SELECT key, value FROM key_value_table"
      ++ (if is_empty key then [] else lit " WHERE key = $1"))
    ++ limit_text limit

abbrev pub bound : Text → List Text
bound key = if is_empty key then [] else key ∷ []

module _ {W M Q N L : Type 0} (userver : Framework W M Q N L) where
  -- A line for each row, in order.
  abbrev pub answer : List (Text × Text) → Text
  answer [] = []
  answer ((key, value) ∷ rows) = userver.pair_line key value ++ answer rows

  abbrev pub answered : Attempt (List (Text × Text)) → Attempt Text
  answered (done rows) = done (answer rows)
  answered (failed f) = failed f

  abbrev pub query_of : Text → Option ℤ → Q
  query_of key limit =
      userver.storages.query (sql key limit) (userver.name "iron_query_userver_select_values")
        userver.storages.full

  -- The queries that are sent behind what was sent before, what is on the other side then, and the
  -- answer or exception.
  abbrev pub exchange : Text → Attempt (Option ℤ) → Traffic W Q → Traffic W Q × Attempt Text
  exchange key (failed f) t = (t, failed f)
  exchange key (done limit) t =
      let (world, result) = userver.execute (query_of key limit) (bound key) t.world in
      (
        record { world = world; queries = t.queries ++ (query_of key limit, bound key) ∷ [] },
        answered result,
      )

  respond-answer :
      (s : Text) (rows : List (Text × Text)) → respond userver s rows ≡ s ++ answer rows
  unfolding respond
  respond-answer s [] = sym (append-nil s)
  respond-answer s ((key, value) ∷ rows) =
      respond-answer (s ++ userver.pair_line key value) rows
      ∙ append_assoc s (userver.pair_line key value) (answer rows)

  proceed-answered :
      (t : Traffic W Q) (rows : Attempt (List (Text × Text)))
      → proceed (λ r. attempt (done (respond userver [] r))) (t, rows) ≡ (t, answered rows)
  proceed-answered t (done rows) = ap (λ s. (t, done s)) (respond-answer [] rows)
  proceed-answered t (failed f) = refl

  abbrev fetched :
      Text → Attempt (Option ℤ) → Traffic W Q → Traffic W Q × Attempt (List (Text × Text))
  fetched key (failed f) t = (t, failed f)
  fetched key (done limit) t = execute userver (query_of key limit) (bound key) t

  -- The limit as std::stoi reads it.
  fetch-parsed :
      (key limit_arg : Text) (parsed : Parsed) (t : Traffic W Q)
      → stoi limit_arg ≡ parsed
      → fetch userver key limit_arg t ≡ fetched key (wanted limit_arg) t
  unfolding fetch select_all add_where add_limit key_value_table key_column value_column Select.from
      Select.select Select.where_clause Select.limit Select.to_string Select.ensure_valid
      Select.select_text column_expr select_item from_raw make_leaf make_node render append_part
      needs_parens Expr.to_string condition_to_string eq compare_op join_csv render_items
      item_to_string Table.to_string Table.from_raw lit table
  fetch-parsed [] [] parsed t e = refl
  fetch-parsed (c ∷ key) [] parsed t e = refl
  fetch-parsed [] (d ∷ limit_arg) (number n) t e = rw e refl
  fetch-parsed [] (d ∷ limit_arg) no_number t e = rw e refl
  fetch-parsed [] (d ∷ limit_arg) out_of_range t e = rw e refl
  fetch-parsed (c ∷ key) (d ∷ limit_arg) (number n) t e = rw e refl
  fetch-parsed (c ∷ key) (d ∷ limit_arg) no_number t e = rw e refl
  fetch-parsed (c ∷ key) (d ∷ limit_arg) out_of_range t e = rw e refl

  fetched-exchange :
      (key : Text) (limit : Attempt (Option ℤ)) (t : Traffic W Q)
      → proceed (λ r. attempt (done (respond userver [] r))) (fetched key limit t)
        ≡ exchange key limit t
  fetched-exchange key (failed f) t = refl
  fetched-exchange key (done limit) t = proceed-answered _ _

  -- GetValues reads the limit first, if there is one, and sends nothing where std::stoi throws; else it
  -- sends one query and no other, whose text holds of the request no more than the number of the
  -- limit, with the key bound to $1 exactly if it is not empty; iron_query throws nothing, what the
  -- driver throws is thrown on, and the answer has a line for each row, in order.
  pub get_values-sent :
      (request : Request M) (t : Traffic W Q)
      → get_values userver request t ≡ exchange (request.arg "key") (wanted (request.arg "limit")) t
  unfolding get_values
  get_values-sent request t =
      let key = request.arg "key" in
      let limit_arg = request.arg "limit" in
      ap (proceed (λ r. attempt (done (respond userver [] r))))
        (fetch-parsed key limit_arg (stoi limit_arg) t refl)
      ∙ fetched-exchange key (wanted limit_arg) t
