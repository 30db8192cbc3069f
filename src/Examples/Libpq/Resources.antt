-- ===== src/Examples/Libpq/Resources.antt =====
-- What the program of examples/libpq/src/main.cpp holds between two calls of libpq.
use iron_query.Prelude.{
  ℕ, suc, zero, ◌+◌, ◌<◌, ◌≤◌, Text, ltb, inl, inr, Bool-cases, List, [], ◌∷◌, ◌++◌, arith,
}
use iron_query.Examples.Libpq.Driver
use iron_query.Examples.Libpq.Driver.{
  Libpq, Call, connected, asked, executed, inspected, cleared, finished, Machine, Outcome, going,
  halted, Halt, looping, uncaught, exited, Action, pure, ◌>>◌, proceed,
}
use iron_query.Examples.Libpq.{
  exec_params, conninfo_of, print_rows, print_and_finish, select_and_print, main, start,
}
use iron_query.Examples.Libpq.Statements.{insert_sql-text, select_sql-text}

-- No connection yet, an open connection, with it a result that is not cleared, or the connection
-- finished, which no call opens again.
pub data Held (C R : Type 0) : Type 0 where
  unopened over : Held C R
  connection : C → Held C R
  result : C → R → Held C R

pub data Step {C R : Type 0} : Held C R → Call C R → Held C R → Type 0 where
  connect : {c : C} → Step unopened (connected c) (connection c)
  ask : {c : C} → Step (connection c) (asked c) (connection c)
  execute :
      {c : C} {sql : Text} {params : List Text} {r : R}
      → Step (connection c) (executed c sql params r) (result c r)
  inspect : {c : C} {r : R} → Step (result c r) (inspected r) (result c r)
  clear : {c : C} {r : R} → Step (result c r) (cleared r) (connection c)
  finish : {c : C} → Step (connection c) (finished c) over

pub data Steps {C R : Type 0} (s : Held C R) : List (Call C R) → Held C R → Type 0 where
  here : Steps s [] s
  next :
      {calls : List (Call C R)} {t u : Held C R} {call : Call C R}
      → Steps s calls t
      → Step t call u
      → Steps s (calls ++ call ∷ []) u

-- `main` returned, or `std::exit` was called.
abbrev pub Ended : Outcome ℕ → Type 0
Ended (going n) = Unit
Ended (halted (exited n)) = Unit
Ended (halted h) = ⊥

module _ {W C R : Type 0} where
  -- What is held when an action is over: a program that ends in the middle has finished its connection, and does
  -- not end for want of fuel or by an exception.
  abbrev Leaves : {A : Type 0} → (A → Held C R) → Machine W C R × Outcome A → Type 0
  Leaves t (m, going a) = Steps unopened m.calls (t a)
  Leaves t (m, halted (exited n)) = Steps unopened m.calls over
  Leaves t (m, halted h) = ⊥

  abbrev Holds : {A : Type 0} → Held C R → Action W C R A → (A → Held C R) → Type 0
  Holds s action t = (m : Machine W C R) → Steps unopened m.calls s → Leaves t (action m)

  Leaves-Ended :
      (x : Machine W C R × Outcome ℕ)
      → Leaves (λ _. over) x
      → Steps unopened x.0.calls over × Ended x.1
  Leaves-Ended (m, going n) l = (l, tt)
  Leaves-Ended (m, halted (exited n)) l = (l, tt)
  Leaves-Ended (m, halted (uncaught e)) l = absurd l
  Leaves-Ended (m, halted looping) l = absurd l

  Leaves-proceed :
      {A B : Type 0} (t : A → Held C R) (u : B → Held C R) (then : A → Action W C R B)
      (x : Machine W C R × Outcome A)
      → ((a : A) → Holds (t a) (then a) u)
      → Leaves t x
      → Leaves u (proceed then x)
  Leaves-proceed t u then (m, going a) h l = h a m l
  Leaves-proceed t u then (m, halted (exited n)) h l = l
  Leaves-proceed t u then (m, halted (uncaught e)) h l = absurd l
  Leaves-proceed t u then (m, halted looping) h l = absurd l

  module _ (pq : Libpq W C R) where
    exec_params-Holds :
        (c : C) (sql : Text) (params : List Text)
        → Holds (connection c) (exec_params pq c sql params) (λ r. result c r)
    unfolding exec_params
    exec_params-Holds c sql params m h =
        let r = (pq.exec_params c sql params m.world).1 in
        let seen = next (next h execute) inspect in
        elim (Bool-cases (pq.result_ok r)) [
          | inl fine ↦ rw fine seen
          | inr failed ↦ rw failed (next (next (next seen inspect) clear) finish)
        ]

    print_rows-Holds :
        (c : C) (r : R) (fuel row : ℕ)
        → row ≤ pq.ntuples r
        → pq.ntuples r < row + fuel
        → Holds (result c r) (print_rows pq fuel r row) (λ _. result c r)
    unfolding print_rows
    print_rows-Holds c r zero row within less m h = absurd (omega (arith, within, less))
    print_rows-Holds c r (suc fuel) row within less m h =
        elim (Bool-cases (ltb row (pq.ntuples r))) [
          | inl more ↦ rw more (
              print_rows-Holds c r fuel (row + 1) (ground (arith, more)) (omega (arith, less)) _
                (next (next (next h inspect) inspect) inspect))
          | inr past ↦ rw past (next h inspect)
        ]

    print_and_finish-Holds :
        (c : C) (r : R) → Holds (result c r) (print_and_finish pq c r) (λ _. over)
    unfolding print_and_finish
    print_and_finish-Holds c r m h =
        Leaves-proceed (λ _. result c r) (λ _. over)
          (λ _. Driver.clear pq r >> (Driver.finish pq c >> pure 0))
          (print_rows pq (pq.ntuples r + 1) r 0 m) (λ _ m' h'. next (next h' clear) finish)
          (print_rows-Holds c r (pq.ntuples r + 1) 0 (omega arith) (omega arith) m h)

    select_and_print-Holds : (c : C) → Holds (connection c) (select_and_print pq c) (λ _. over)
    unfolding select_and_print
    select_and_print-Holds c m h = rw select_sql-text (
        Leaves-proceed (λ r. result c r) (λ _. over) (print_and_finish pq c)
          (exec_params pq c _ _ m) (λ r. print_and_finish-Holds c r) (exec_params-Holds c _ _ m h))

    main-Holds : (args : List Text) → Holds unopened (main pq args) (λ _. over)
    unfolding main
    main-Holds args m h =
        let (w, c) = pq.connectdb (conninfo_of args) m.world in
        let open_once = next (next h connect) ask in
        elim (Bool-cases (pq.status_ok c w)) [
          | inl fine ↦
              rw (fine, insert_sql-text)
                (Leaves-proceed (λ r. result c r) (λ _. over)
                  (λ r. Driver.clear pq r >> select_and_print pq c) (exec_params pq c _ _ _)
                  (λ r m1 h1. select_and_print-Holds c _ (next h1 clear))
                  (exec_params-Holds c _ _ _ open_once))
          | inr failed ↦ rw failed (next (next open_once ask) finish)
        ]

    -- Whatever libpq answers, the program opens one connection and no other, asks it and executes on
    -- it while no result is open, reads a result and clears it once before the next statement,
    -- finishes the connection once on every path, after which it calls libpq no more, and ends with
    -- neither a connection nor a result left; it ends with an exit status, not by an exception nor
    -- for want of fuel.
    pub main-Steps :
        (args : List Text) (world : W)
        → let (m, outcome) = main pq args (start world) in
          Steps unopened m.calls over × Ended outcome
    main-Steps args world =
        Leaves-Ended (main pq args (start world)) (main-Holds args (start world) here)
