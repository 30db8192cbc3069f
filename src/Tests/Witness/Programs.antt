-- ===== src/Tests/Witness/Programs.antt =====
-- The theorems on the programs of examples/ at concrete drivers.
use iron_query.Prelude.{
  ℕ, ◌+◌, Text, lit, length, ◌==◌, if◌then◌else◌, Bool, true, List, [], ◌∷◌, ◌++◌, ◌≡◌, refl, arith,
}
use iron_query.Decimal
use iron_query.Examples.Libpq.{print_rows, main, start}
use iron_query.Examples.Libpq.Driver.{Libpq, Call, going}
use iron_query.Examples.Libpq.Resources.{unopened, over, Steps, Ended, main-Steps}
use iron_query.Examples.Libpq.Rows.{lines, seen, print_rows-lines, main-report}
use iron_query.Examples.KeyValue.{done, Traffic, Framework, Request, get_values}
use iron_query.Examples.KeyValue.Sent.{wanted, exchange, get_values-sent}
use iron_query.Examples.KeyValue.Stoi.{stoi}

-- A server that takes every statement; what one value is bound to has two rows.
abbrev server : Libpq (Unit {0}) (Unit {0}) Bool
server = record {
  connectdb = λ conninfo w. (tt, tt);
  status_ok = λ c w. true;
  error_message = λ c w. [];
  exec_params = λ c sql params w. (tt, length params == 1);
  result_ok = λ r. true;
  result_error_message = λ r. [];
  ntuples = λ r. if r then 2 else 0;
  getvalue = λ r row column. if column == 0 then lit "k" else lit "v";
  clear = λ r w. w;
  finish = λ c w. w;
}

main-Steps_example :
    let (m, outcome) = main server [] (start tt) in Steps unopened m.calls over × Ended outcome
main-Steps_example = main-Steps server [] tt

main-report_example : seen server (main server [] (start tt)) ≡ (going 0, lit "k=v\nk=v\n", [])
unfolding lit
main-report_example = main-report server [] tt

print_rows-lines_example :
    (calls : List (Call (Unit {0}) Bool)) × (print_rows server 3 true 0 (start tt)
      ≡ (record (start tt) { calls = calls; out = lines server true 0 2 }, going tt))
print_rows-lines_example = print_rows-lines server true 3 0 2 (start tt) refl (omega arith)

-- A database that counts the queries, and answers one with its text and the number of values bound.
abbrev userver : Framework ℕ Bool Text Text Bool
userver = record {
  storages = record { query = λ s name mode. s; full = true };
  name = lit;
  is_get = λ m. m;
  unsupported = λ m. [];
  pair_line = λ key value. key ++ lit "=" ++ value ++ lit "\n";
  execute = λ q values n. (n + 1, done (if length values == 1 then (q, lit "v") ∷ [] else []));
}

abbrev request : Request Bool
request = record {
  method = true;
  arg = λ name. if length (lit name) == 3 then lit "k" else lit "10";
}

abbrev unused : Traffic ℕ Text
unused = record { world = 0; queries = [] }

get_values-sent_example :
    get_values userver request unused ≡ exchange userver (lit "k") (wanted (lit "10")) unused
unfolding lit
get_values-sent_example = get_values-sent userver request unused

abbrev sent_text : Text
sent_text = lit "SELECT key, value FROM key_value_table WHERE key = $1 LIMIT 10"

get_values-text : get_values userver request unused ≡ (
  record { world = 1; queries = (sent_text, lit "k" ∷ []) ∷ [] },
  done (sent_text ++ lit "=v\n"),
)
unfolding lit stoi Decimal.to_string
get_values-text = get_values-sent userver request unused
