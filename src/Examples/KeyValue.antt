-- ===== src/Examples/KeyValue.antt =====
-- examples/userver/src/main.cpp: the handler KeyValue. The userver framework, its database driver and
-- fmt are the parameters.
pub mod Stoi
pub mod Sent
use iron_query.Prelude.{
  Text, lit, String, is_empty, not, if◌then◌else◌, Bool, List, [], ◌∷◌, ◌++◌, Option, none, some,
}
use iron_query.Exception
use iron_query.Exception.{Error}
use iron_query.Expr.{select_item}
use iron_query.Expr.Predicates.{eq}
use iron_query.Table.{column_expr, placeholder, table}
use iron_query.Select
use iron_query.Select.{SelectExpr}
use iron_query.Userver.{QueryClass, to_query, select_builder}
use iron_query.Examples.{key_value_table, key_column, value_column}
use iron_query.Examples.KeyValue.Stoi.{Parsed, number, no_number, out_of_range, stoi}

-- What a handler may throw: an exception of iron_query, of std::stoi, of the driver, a ClientError.
pub data Failure : Type 0 where
  library : Error → Failure
  bad_number : Failure
  number_range : Failure
  database : Text → Failure
  client_error : Text → Failure

pub data Attempt (A : Type 0) : Type 0 where
  done : A → Attempt A
  failed : Failure → Attempt A

-- What is on the other side of the driver is W. The queries that were sent to it so far, in order,
-- each with the values that were bound.
pub record Traffic (W Q : Type 0) : Type 0 where
  pub world : W
  pub queries : List (Q × List Text)

-- What was sent stays sent behind an exception.
abbrev pub Action : Type 0 → Type 0 → Type 0 → Type 0
Action W Q A = Traffic W Q → Traffic W Q × Attempt A

module _ {W Q : Type 0} where
  abbrev pub attempt : {A : Type 0} → Attempt A → Action W Q A
  attempt a t = (t, a)

  abbrev pub proceed :
      {A B : Type 0} → (A → Action W Q B) → Traffic W Q × Attempt A → Traffic W Q × Attempt B
  proceed next (t, done a) = next a t
  proceed next (t, failed f) = (t, failed f)

  infixl 5 ◌>>=◌
  abbrev pub ◌>>=◌ : {A B : Type 0} → Action W Q A → (A → Action W Q B) → Action W Q B
  ◌>>=◌ first next t = proceed next (first t)

-- A call of iron_query.
abbrev pub call : {A : Type 0} → Exception.Result A → Attempt A
call (Exception.ok a) = done a
call (Exception.err e) = failed (library e)

-- The framework: M is its methods, Q its queries, N their names, L their log modes.
pub record Framework (W M Q N L : Type 0) : Type 0 where
  pub storages : QueryClass Q N L
  pub name : String → N
  pub is_get : M → Bool
  -- `fmt::format("Unsupported method {}", method)` and `fmt::format("{}={}\n", key, value)`.
  pub unsupported : M → Text
  pub pair_line : Text → Text → Text
  -- `Execute` on a slave, with the values that are bound; the rows, or an exception.
  pub execute : Q → List Text → W → W × Attempt (List (Text × Text))

pub record Request (M : Type 0) : Type 0 where
  pub method : M
  -- `GetArg`, which is empty for an argument that is missing.
  pub arg : String → Text

unfoldable pub select_all : Exception.Result SelectExpr
select_all = Exception.◌>>=◌ (Select.from (table key_value_table)) (
    Select.select
      (select_item (column_expr key_column) ∷ select_item (column_expr value_column) ∷ []))

unfoldable pub add_where : Text → SelectExpr → Attempt SelectExpr
add_where key select =
    if not (is_empty key)
    then call (Select.where_clause (eq (column_expr key_column) (placeholder "$1")) select)
    else done select

-- `Limit(std::stoi(limit_arg))`.
abbrev pub limit_to : Parsed → SelectExpr → Attempt SelectExpr
limit_to (number n) select = call (Select.limit n select)
limit_to no_number select = failed bad_number
limit_to out_of_range select = failed number_range

unfoldable pub add_limit : Text → SelectExpr → Attempt SelectExpr
unfolding stoi
add_limit limit_arg select =
    if not (is_empty limit_arg) then limit_to (stoi limit_arg) select else done select

module _ {W M Q N L : Type 0} (userver : Framework W M Q N L) where
  unfoldable pub respond : Text → List (Text × Text) → Text
  respond response [] = response
  respond response ((row_key, row_value) ∷ rows) =
      respond (response ++ userver.pair_line row_key row_value) rows

  -- `pg_cluster_->Execute`, which is written down.
  abbrev pub execute : Q → List Text → Action W Q (List (Text × Text))
  execute query values t =
      let (world, result) = userver.execute query values t.world in
      (record { world = world; queries = t.queries ++ (query, values) ∷ [] }, result)

  -- GetValues up to the result of the query.
  unfoldable pub fetch : Text → Text → Action W Q (List (Text × Text))
  unfolding select_all add_where add_limit
  fetch key limit_arg = do
    select ← attempt (call select_all)
    select ← attempt (add_where key select)
    select ← attempt (add_limit limit_arg select)
    query ←
        attempt (
          call (to_query userver.storages select (userver.name "iron_query_userver_select_values")))
    if is_empty key then execute query [] else execute query (key ∷ [])

  unfoldable pub get_values : Request M → Action W Q Text
  unfolding fetch respond
  get_values request = do
    result ← fetch (request.arg "key") (request.arg "limit")
    attempt (done (respond [] result))

  -- HandleRequest; the content type that it sets first does not depend on the request.
  unfoldable pub handle_request : Request M → Action W Q Text
  unfolding get_values
  handle_request request =
      if userver.is_get request.method
      then get_values request
      else attempt (failed (client_error (userver.unsupported request.method)))
