-- ===== src/Writer/Examples.antt =====
-- The writer of app/services/prediction_writer.py on concrete queues: a database kept in memory
-- that refuses the row 13, runs, and each theorem at an input.
use fast_api_project.Prelude.{
  ℕ, ◌+◌, ◌≡◌, refl, Bool, true, not, List, [], ◌∷◌, ◌++◌, length, all, ◌==◌, if◌then◌else◌, arith,
}
use fast_api_project.Database.{Session, done, integrity, failed}
use fast_api_project.Writer.{Writer, init, enqueue, start, next_batch, retry, flush, drain}
use fast_api_project.Writer.Accounting.{counted, Agrees, flush-counted, flush-Agrees}
use fast_api_project.Writer.Schedule.{
  System, boot, offer, take_batch, land, stop, Reach, here, next, starting, offering, taking,
  Balanced, stop-counted, Reach-Balanced,
}

-- the committed rows, and those of the open transaction
abbrev Memory : Type 0
Memory = List ℕ × List ℕ

abbrev lucky : ℕ → Bool
lucky row = not (row == 13)

abbrev memory : Session ℕ Memory
memory = record {
  execute_insert = λ rows s. if all lucky rows then done tt (s.0, rows) else integrity (s.0, []);
  commit = λ s. done tt (s.0 ++ s.1, []);
  rollback = λ s. done tt (s.0, []);
}

-- a database that cannot be reached
abbrev down : Session ℕ Memory
down = record {
  execute_insert = λ rows s. failed s;
  commit = λ s. failed s;
  rollback = λ s. failed s;
}

program : Unit {0}
unfolding flush retry drain stop enqueue start take_batch next_batch boot offer land
program = tt

abbrev empty : Writer ℕ
empty = init 2 3

flush-runs :
    ((flush memory (7 ∷ 13 ∷ 9 ∷ []) empty ([], [])).1.0 ≡ 7 ∷ 9 ∷ [])
    × ((flush memory (7 ∷ 13 ∷ 9 ∷ []) empty ([], [])).0.dropped ≡ 1)
    × ((flush down (7 ∷ 8 ∷ []) empty ([], [])).0.dropped ≡ 2)
unfolding program init
flush-runs = (refl, refl, refl)

enqueue-sheds : (enqueue 4 (enqueue 3 (enqueue 2 (enqueue 1 empty)))).shed ≡ 1
unfolding program init
enqueue-sheds = refl

flush-counted_example : counted (flush memory (7 ∷ 13 ∷ []) empty ([], [])).0 ≡ counted empty + 2
flush-counted_example = flush-counted memory (7 ∷ 13 ∷ []) empty ([], [])

empty-Agrees : Agrees empty
unfolding init
empty-Agrees = omega arith

flush-Agrees_example : Agrees (flush memory (7 ∷ 13 ∷ []) empty ([], [])).0
flush-Agrees_example = flush-Agrees memory (7 ∷ 13 ∷ []) empty ([], []) empty-Agrees

-- three rows are offered, and two of them are in flight when the shutdown comes
abbrev started : System ℕ Memory
started = let σ = boot 2 3 ([], []) in record σ { writer = start σ.writer }

abbrev offered : System ℕ Memory
offered = offer 3 (offer 2 (offer 1 started))

abbrev flying : System ℕ Memory
flying = take_batch 1 (2 ∷ 3 ∷ []) offered

flying-Reach : Reach memory (boot 2 3 ([], [])) flying
unfolding program
flying-Reach =
    next
      (next
        (next (next (next here (starting (boot 2 3 ([], [])))) (offering 1 started))
          (offering 2 (offer 1 started)))
        (offering 3 (offer 2 (offer 1 started))))
      (taking 1 (2 ∷ 3 ∷ []) offered refl refl refl)

Reach-Balanced_example : Balanced memory flying
Reach-Balanced_example = Reach-Balanced memory 2 3 ([], []) flying-Reach

flying-runs : (flying.writer.task ≡ true) × (length flying.in_flight ≡ 2)
unfolding program
flying-runs = (refl, refl)

stop-counted_example :
    ((stop memory ([], []) flying).writer.queue ≡ [])
    × ((stop memory ([], []) flying).offered
        ≡ counted (stop memory ([], []) flying).writer
          + length flying.uncounted
          + length flying.in_flight)
stop-counted_example = stop-counted memory ([], []) flying flying-runs.0 Reach-Balanced_example
