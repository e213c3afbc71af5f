-- ===== src/Writer/Schedule.antt =====
-- The life of the writer of app/services/prediction_writer.py as steps: requests enqueue rows,
-- the consumer takes a batch and later lands it, and shutdown cancels the consumer and drains.
-- Between `take` and `land` the consumer awaits the database, and requests may enqueue.
-- `offered` and `uncounted` are bookkeeping of the model: the rows offered to `enqueue`, and the
-- batches whose flush was cancelled.
use fast_api_project.Prelude.{
  ℕ, ◌+◌, ◌≡◌, ap, true, false, List, [], ◌∷◌, ◌++◌, length, length-append, inl, inr, Bool-cases,
  if◌then◌else◌, arith,
}
use fast_api_project.Database.{Session}
use fast_api_project.Writer.{Writer, init, drop_rows, enqueue, start, next_batch, flush, drain}
use fast_api_project.Writer.Batches.{next_batch-IsCut}
use fast_api_project.Writer.Accounting.{counted, flush-counted, flush-queue}

pub record System (Row S : Type 0) : Type 0 where
  pub writer : Writer Row
  pub database : S
  pub in_flight : List Row
  pub offered : ℕ
  pub uncounted : List Row

module _ {Row S : Type 0} where
  unfoldable pub boot : ℕ → ℕ → S → System Row S
  unfolding init
  boot batch_size max_queue s = record {
    writer = init batch_size max_queue;
    database = s;
    in_flight = [];
    offered = 0;
    uncounted = [];
  }

  unfoldable pub offer : Row → System Row S → System Row S
  offer row σ = record σ { writer = enqueue row σ.writer; offered = σ.offered + 1 }

  -- The part of a round of `_run` before its flush: one `get`, then the `get_nowait` calls.
  unfoldable pub take_batch : Row → List Row → System Row S → System Row S
  take_batch first rest σ =
      let cut = next_batch σ.writer.batch_size first rest in
      record σ { writer = record (σ.writer) { queue = cut.1 }; in_flight = cut.0 }

module _ {Row S : Type 0} (db : Session Row S) where
  unfoldable pub land : System Row S → System Row S
  land σ =
      let flushed = flush db σ.in_flight σ.writer σ.database in
      record σ { writer = flushed.0; database = flushed.1; in_flight = [] }

  -- `stop`: the cancellation is raised where the consumer waits. It is no `Exception`, so a
  -- flush that it meets counts nothing, and its batch is gone. `after` is the database as the
  -- cancelled flush left it. Then `_drain`.
  unfoldable pub stop : S → System Row S → System Row S
  unfolding drain
  stop after σ =
      let drained = drain db (record (σ.writer) { task = false }) after in
      if σ.writer.task
      then record σ {
        writer = drained.0;
        database = drained.1;
        in_flight = [];
        uncounted = σ.uncounted ++ σ.in_flight;
      }
      else σ

  pub data Step : System Row S → System Row S → Type 0 where
    starting : (σ : System Row S) → Step σ (record σ { writer = start σ.writer })
    offering : (row : Row) (σ : System Row S) → Step σ (offer row σ)
    taking :
        (first : Row) (rest : List Row) (σ : System Row S)
        → σ.writer.task ≡ true
        → σ.in_flight ≡ []
        → σ.writer.queue ≡ first ∷ rest
        → Step σ (take_batch first rest σ)
    landing : (σ : System Row S) → σ.writer.task ≡ true → Step σ (land σ)
    stopping : (after : S) (σ : System Row S) → Step σ (stop after σ)

  pub data Reach (σ : System Row S) : System Row S → Type 0 where
    here : Reach σ σ
    next : {τ υ : System Row S} → Reach σ τ → Step τ υ → Reach σ υ

  -- every row offered is counted, queued, in flight, or lost to a cancelled flush
  abbrev pub Balanced : System Row S → Type 0
  Balanced σ =
      σ.offered ≡ counted σ.writer + length σ.writer.queue + length σ.in_flight + length σ.uncounted

  offer-Balanced : (row : Row) (σ : System Row S) → Balanced σ → Balanced (offer row σ)
  unfolding offer enqueue drop_rows
  offer-Balanced row σ h = ground (arith, length-append σ.writer.queue (row ∷ []))

  take_batch-Balanced :
      (first : Row) (rest : List Row) (σ : System Row S)
      → σ.in_flight ≡ []
      → σ.writer.queue ≡ first ∷ rest
      → Balanced σ
      → Balanced (take_batch first rest σ)
  unfolding take_batch
  take_batch-Balanced first rest σ idle queued h =
      let cut = next_batch σ.writer.batch_size first rest in
      let (whole, _, _, _) = next_batch-IsCut σ.writer.batch_size first rest in
      ground (
        arith,
        length-append cut.0 cut.1,
        ap (λ (l : List Row). length l) whole,
        ap (λ (l : List Row). length l) idle,
        ap (λ (l : List Row). length l) queued,
      )

  land-Balanced : (σ : System Row S) → Balanced σ → Balanced (land σ)
  unfolding land
  land-Balanced σ h = ground (
    arith,
    flush-counted db σ.in_flight σ.writer σ.database,
    ap (λ (l : List Row). length l) (flush-queue db σ.in_flight σ.writer σ.database),
  )

  -- A shutdown of a running writer whose rows balance leaves an empty queue, and each row ever
  -- offered is counted as written or dropped, but for the batches of flushes that were cancelled:
  -- earlier ones, and the one in flight now.
  pub stop-counted :
      (after : S) (σ : System Row S)
      → σ.writer.task ≡ true
      → Balanced σ
      → ((stop after σ).writer.queue ≡ [])
        × ((stop after σ).offered
            ≡ counted (stop after σ).writer + length σ.uncounted + length σ.in_flight)
  unfolding stop drain
  stop-counted after σ running h =
      let w = record (σ.writer) { task = false; queue = [] } in
      rw running (
        flush-queue db σ.writer.queue w after,
        omega (arith, flush-counted db σ.writer.queue w after),
      )

  stop-Balanced : (after : S) (σ : System Row S) → Balanced σ → Balanced (stop after σ)
  unfolding stop drain
  stop-Balanced after σ h = elim (Bool-cases σ.writer.task) [
    | inl running ↦
        let w = record (σ.writer) { task = false; queue = [] } in
        rw running (
          ground (
            arith,
            ap (λ (l : List Row). length l) (flush-queue db σ.writer.queue w after),
            flush-counted db σ.writer.queue w after,
            length-append σ.uncounted σ.in_flight,
          ))
    | inr idle ↦ rw idle h
  ]

  Step-Balanced : {σ τ : System Row S} → Step σ τ → Balanced σ → Balanced τ
  unfolding start
  Step-Balanced (starting σ) h = ground arith
  Step-Balanced (offering row σ) h = offer-Balanced row σ h
  Step-Balanced (taking first rest σ _ idle queued) h =
      take_batch-Balanced first rest σ idle queued h
  Step-Balanced (landing σ _) h = land-Balanced σ h
  Step-Balanced (stopping after σ) h = stop-Balanced after σ h

  -- In every interleaving of requests, consumer rounds, starts and shutdowns, each row ever
  -- offered is counted as written or dropped, waits in the queue, is in flight, or was in flight
  -- when a shutdown cancelled its flush.
  pub Reach-Balanced :
      (batch_size max_queue : ℕ) (s : S) {σ : System Row S}
      → Reach (boot batch_size max_queue s) σ
      → Balanced σ
  unfolding boot init
  Reach-Balanced batch_size max_queue s here = omega arith
  Reach-Balanced batch_size max_queue s (next r st) =
      Step-Balanced st (Reach-Balanced batch_size max_queue s r)
