-- ===== src/Examples/Libpq/Driver.antt =====
-- The calls of libpq that examples/libpq/src/main.cpp makes, each written down in the order they are
-- made, and what the program does besides.
use iron_query.Prelude.{ℕ, Text, Bool, List, [], ◌∷◌, ◌++◌}
use iron_query.Exception
use iron_query.Exception.{Error}

-- libpq: what is on the other side of a connection is W, a PGconn is C, a PGresult is R.
pub record Libpq (W C R : Type 0) : Type 0 where
  pub connectdb : Text → W → W × C
  pub status_ok : C → W → Bool
  pub error_message : C → W → Text
  pub exec_params : C → Text → List Text → W → W × R
  -- PGRES_TUPLES_OK or PGRES_COMMAND_OK.
  pub result_ok : R → Bool
  pub result_error_message : R → Text
  pub ntuples : R → ℕ
  pub getvalue : R → ℕ → ℕ → Text
  pub clear : R → W → W
  pub finish : C → W → W

pub data Call (C R : Type 0) : Type 0 where
  connected : C → Call C R
  asked : C → Call C R
  executed : C → Text → List Text → R → Call C R
  inspected : R → Call C R
  cleared : R → Call C R
  finished : C → Call C R

pub record Machine (W C R : Type 0) : Type 0 where
  pub world : W
  pub calls : List (Call C R)
  pub out : Text
  pub errors : Text

-- How the program ends in the middle: exit, an exception that nothing catches, no fuel.
pub data Halt : Type 0 where
  exited : ℕ → Halt
  uncaught : Error → Halt
  looping : Halt

pub data Outcome (A : Type 0) : Type 0 where
  going : A → Outcome A
  halted : Halt → Outcome A

abbrev pub Action : Type 0 → Type 0 → Type 0 → Type 0 → Type 0
Action W C R A = Machine W C R → Machine W C R × Outcome A

module _ {W C R : Type 0} where
  abbrev pub pure : {A : Type 0} → A → Action W C R A
  pure a m = (m, going a)

  abbrev pub halt : {A : Type 0} → Halt → Action W C R A
  halt h m = (m, halted h)

  infixl 5 ◌>>=◌ ◌>>◌
  abbrev pub proceed :
      {A B : Type 0} → (A → Action W C R B) → Machine W C R × Outcome A → Machine W C R × Outcome B
  proceed next (m, going a) = next a m
  proceed next (m, halted h) = (m, halted h)

  abbrev pub ◌>>=◌ : {A B : Type 0} → Action W C R A → (A → Action W C R B) → Action W C R B
  ◌>>=◌ first next m = proceed next (first m)

  abbrev pub ◌>>◌ : {A B : Type 0} → Action W C R A → Action W C R B → Action W C R B
  first >> next = first >>= λ _. next

  -- An exception ends the program, since main catches none.
  abbrev pub attempt : {A : Type 0} → Exception.Result A → Action W C R A
  attempt (Exception.ok a) = pure a
  attempt (Exception.err e) = halt (uncaught e)

  abbrev pub write_out : Text → Action W C R (Unit {0})
  write_out s m = (record m { out = m.out ++ s }, going tt)

  abbrev pub write_error : Text → Action W C R (Unit {0})
  write_error s m = (record m { errors = m.errors ++ s }, going tt)

  abbrev called : Machine W C R → Call C R → Machine W C R
  called m c = record m { calls = m.calls ++ c ∷ [] }

  module _ (pq : Libpq W C R) where
    abbrev pub connectdb : Text → Action W C R C
    connectdb conninfo m =
        let (w, conn) = pq.connectdb conninfo m.world in
        (called (record m { world = w }) (connected conn), going conn)

    abbrev pub connection_ok : C → Action W C R Bool
    connection_ok conn m = (called m (asked conn), going (pq.status_ok conn m.world))

    abbrev pub connection_message : C → Action W C R Text
    connection_message conn m = (called m (asked conn), going (pq.error_message conn m.world))

    abbrev pub exec : C → Text → List Text → Action W C R R
    exec conn sql params m =
        let (w, result) = pq.exec_params conn sql params m.world in
        (called (record m { world = w }) (executed conn sql params result), going result)

    abbrev pub result_ok : R → Action W C R Bool
    result_ok result m = (called m (inspected result), going (pq.result_ok result))

    abbrev pub result_message : R → Action W C R Text
    result_message result m = (called m (inspected result), going (pq.result_error_message result))

    abbrev pub row_count : R → Action W C R ℕ
    row_count result m = (called m (inspected result), going (pq.ntuples result))

    abbrev pub value_at : R → ℕ → ℕ → Action W C R Text
    value_at result row column m =
        (called m (inspected result), going (pq.getvalue result row column))

    abbrev pub clear : R → Action W C R (Unit {0})
    clear result m =
        (called (record m { world = pq.clear result m.world }) (cleared result), going tt)

    abbrev pub finish : C → Action W C R (Unit {0})
    finish conn m = (called (record m { world = pq.finish conn m.world }) (finished conn), going tt)
