-- ===== src/Examples/Libpq/Rows.antt =====
-- What the program of examples/libpq/src/main.cpp prints, and its exit status.
use iron_query.Prelude.{
  ℕ, zero, suc, ◌+◌, ◌<◌, Text, lit, ltb, if◌then◌else◌, ◌≡◌, refl, true, false, Bool-cases, inl,
  inr, List, [], ◌∷◌, ◌++◌, append_assoc, append-nil, arith,
}
use iron_query.Examples.Libpq.Driver.{
  Libpq, Call, inspected, Machine, Outcome, going, halted, exited,
}
use iron_query.Examples.Libpq.{
  conninfo_of, exec_params, print_rows, print_and_finish, select_and_print, main, start,
}
use iron_query.Examples.Libpq.Statements.{insert_sql-text, select_sql-text}

module _ {W C R : Type 0} (pq : Libpq W C R) where
  abbrev line : R → ℕ → Text
  line r row = pq.getvalue r row 0 ++ lit "=" ++ pq.getvalue r row 1 ++ lit "\n"

  -- The lines of so many rows from a row on.
  abbrev pub lines : R → ℕ → ℕ → Text
  lines r row zero = []
  lines r row (suc count) = line r row ++ lines r (row + 1) count

  -- From any row on, the loop ends once it has printed each row that is left, in order, on any fuel
  -- above their number; it changes nothing but the output and the calls that are written down.
  pub print_rows-lines :
      (r : R) (fuel row count : ℕ) (m : Machine W C R)
      → pq.ntuples r ≡ row + count
      → count < fuel
      → (calls : List (Call C R)) × (print_rows pq fuel r row m
          ≡ (record m { calls = calls; out = m.out ++ lines r row count }, going tt))
  unfolding print_rows
  print_rows-lines r zero row count m e less = absurd (omega (arith, less))
  print_rows-lines r (suc fuel) row zero m e less =
      let over : ltb row (pq.ntuples r) ≡ false = ground (arith, e) in
      (m.calls ++ inspected r ∷ [], rw (over, append-nil m.out) refl)
  print_rows-lines r (suc fuel) row (suc count) m e less =
      let more : ltb row (pq.ntuples r) ≡ true = ground (arith, e) in
      let (calls, rest) =
        print_rows-lines r fuel (row + 1) count
          (record m {
            calls = ((m.calls ++ inspected r ∷ []) ++ inspected r ∷ []) ++ inspected r ∷ [];
            out = m.out ++ line r row;
          })
          (omega (arith, e)) (omega (arith, less)) in
      (calls, rw (more, ← append_assoc m.out (line r row) (lines r (row + 1) count)) rest)

  abbrev Report : Type 0
  Report = Outcome ℕ × Text × Text

  -- How the program ended, and what it wrote.
  abbrev pub seen : Machine W C R × Outcome ℕ → Report
  seen (m, outcome) = (outcome, m.out, m.errors)

  abbrev insert_text : Text
  insert_text = lit "INSERT INTO key_value_table (key, value) VALUES ($1, $2)"

  abbrev select_text : Text
  select_text = lit "SELECT key, value FROM key_value_table WHERE key = $1"

  -- A refused statement, and the two statements in turn.
  abbrev refused : R → Text → Text → Report
  refused r out errors = (
    halted (exited 1),
    out,
    errors ++ (lit "query failed: " ++ pq.result_error_message r ++ lit "\n"),
  )

  abbrev select_report : C → W → Text → Text → Report
  select_report c w out errors =
      let (w', r) = pq.exec_params c select_text (lit "greeting" ∷ []) w in
      if pq.result_ok r
      then (going 0, out ++ lines r 0 (pq.ntuples r), errors)
      else refused r out errors

  abbrev insert_report : C → W → Text → Text → Report
  insert_report c w out errors =
      let (w', r) = pq.exec_params c insert_text (lit "greeting" ∷ lit "hello, libpq" ∷ []) w in
      if pq.result_ok r then select_report c (pq.clear r w') out errors else refused r out errors

  abbrev pub report : List Text → W → Report
  report args w =
      let (w', c) = pq.connectdb (conninfo_of args) w in
      if pq.status_ok c w'
      then insert_report c w' [] []
      else (going 1, [], lit "connection failed: " ++ pq.error_message c w' ++ lit "\n")

  print_and_finish-seen :
      (c : C) (r : R) (m : Machine W C R)
      → seen (print_and_finish pq c r m) ≡ (going 0, m.out ++ lines r 0 (pq.ntuples r), m.errors)
  unfolding print_and_finish
  print_and_finish-seen c r m =
      let (calls, e) =
        print_rows-lines r (pq.ntuples r + 1) 0 (pq.ntuples r) m (omega arith) (omega arith) in
      rw e refl

  select_and_print-seen :
      (c : C) (m : Machine W C R)
      → seen (select_and_print pq c m) ≡ select_report c m.world m.out m.errors
  unfolding select_and_print exec_params
  select_and_print-seen c m =
      let (w, r) = pq.exec_params c select_text (lit "greeting" ∷ []) m.world in
      elim (Bool-cases (pq.result_ok r)) [
        | inl fine ↦ rw (select_sql-text, fine) (print_and_finish-seen c r _)
        | inr failed ↦ rw (select_sql-text, failed) refl
      ]

  -- Whatever libpq answers, the program connects with the text of its argument; on a connection that
  -- is not up, and on either statement refused, it prints libpq's message to the error output and its
  -- status is 1; else it has sent the INSERT with its two values and then the SELECT with the key,
  -- prints a line for each row of the SELECT's result, in order, and its status is 0.
  pub main-report :
      (args : List Text) (world : W) → seen (main pq args (start world)) ≡ report args world
  unfolding main exec_params
  main-report args world =
      let (w, c) = pq.connectdb (conninfo_of args) world in
      let (w', r) = pq.exec_params c insert_text (lit "greeting" ∷ lit "hello, libpq" ∷ []) w in
      elim (Bool-cases (pq.status_ok c w)) [
        | inr down ↦ rw down refl
        | inl up ↦ elim (Bool-cases (pq.result_ok r)) [
          | inl fine ↦ rw (up, insert_sql-text, fine) (select_and_print-seen c _)
          | inr failed ↦ rw (up, insert_sql-text, failed) refl
        ]
      ]
