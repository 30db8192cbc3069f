-- ===== src/Examples/Libpq.antt =====
-- examples/libpq/src/main.cpp: the program over libpq, whose functions are the parameter.
pub mod Driver
pub mod Statements
pub mod Resources
pub mod Rows
use iron_query.Prelude.{ℕ, suc, zero, Text, lit, ltb, not, if◌then◌else◌, List, [], ◌∷◌, ◌++◌, ◌+◌}
use iron_query.Examples.Libpq.Driver.{
  Libpq, Machine, Action, pure, halt, exited, looping, attempt, write_out, write_error, connectdb,
  connection_ok, connection_message, exec, result_ok, result_message, row_count, value_at, clear,
  finish, ◌>>=◌, ◌>>◌,
}
use iron_query.Examples.Libpq.Statements.{insert_sql, select_sql}

-- `argc > 1 ? argv[1] : ""`, of the arguments behind the program's name.
abbrev pub conninfo_of : List Text → Text
conninfo_of [] = []
conninfo_of (conninfo ∷ args) = conninfo

-- The program before its first call.
abbrev pub start : {W C R : Type 0} → W → Machine W C R
start world = record { world = world; calls = []; out = []; errors = [] }

module _ {W C R : Type 0} (pq : Libpq W C R) where
  -- ExecParams; `std::exit(EXIT_FAILURE)` ends the program.
  unfoldable pub exec_params : C → Text → List Text → Action W C R R
  exec_params conn sql params = do
    result ← exec pq conn sql params
    fine ← result_ok pq result
    if fine then pure result else do
      message ← result_message pq result
      write_error (lit "query failed: " ++ message ++ lit "\n")
      clear pq result
      finish pq conn
      halt (exited 1)

  -- The loop over the rows, a unit of fuel for each test of its condition.
  unfoldable pub print_rows : ℕ → R → ℕ → Action W C R (Unit {0})
  print_rows zero result row = halt looping
  print_rows (suc fuel) result row = do
    count ← row_count pq result
    let rest = print_rows fuel result (row + 1)
    if ltb row count
        then (do
          key ← value_at pq result row 0
          value ← value_at pq result row 1
          write_out (key ++ lit "=" ++ value ++ lit "\n")
          rest)
        else pure tt

  -- The end of main: the rows are printed, on one unit of fuel more than there are.
  unfoldable pub print_and_finish : C → R → Action W C R ℕ
  unfolding print_rows
  print_and_finish conn select_result = do
    print_rows (pq.ntuples select_result + 1) select_result 0
    clear pq select_result
    finish pq conn
    pure 0

  -- The second statement.
  unfoldable pub select_and_print : C → Action W C R ℕ
  unfolding exec_params print_and_finish select_sql
  select_and_print conn = do
    select ← attempt select_sql
    select_result ← exec_params conn select (lit "greeting" ∷ [])
    print_and_finish conn select_result

  unfoldable pub main : List Text → Action W C R ℕ
  unfolding exec_params select_and_print insert_sql
  main args = do
    conn ← connectdb pq (conninfo_of args)
    fine ← connection_ok pq conn
    if not fine
        then (do
          message ← connection_message pq conn
          write_error (lit "connection failed: " ++ message ++ lit "\n")
          finish pq conn
          pure 1)
        else (do
          insert ← attempt insert_sql
          insert_result ← exec_params conn insert (lit "greeting" ∷ lit "hello, libpq" ∷ [])
          clear pq insert_result
          select_and_print conn)
