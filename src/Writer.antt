-- ===== src/Writer.antt =====
-- app/services/prediction_writer.py: the bounded queue of prediction rows, the consumer that
-- drains it in batches, and the counters of what was written and what was lost.
-- `Row` is the row to insert; the Prometheus counters are fields of the state.
pub mod Batches
pub mod Accounting
pub mod Rows
pub mod Schedule
mod Examples
use fast_api_project.Prelude.{
  ℕ, zero, suc, ◌+◌, ◌-◌, ◌%◌, Bool, true, false, not, List, [], ◌∷◌, ◌++◌, length, ltb, leb, ◌==◌,
  if◌then◌else◌, ◌&&◌,
}
use fast_api_project.Database.{Attempt, done, integrity, failed, then_do, Session}

-- The label of `prediction_log_rows_dropped_total`.
pub data Reason : Type 0 where
  queue_full rejected write_failed : Reason

pub record Metrics : Type 0 where
  pub rows_written : ℕ
  pub rows_queue_full : ℕ
  pub rows_rejected : ℕ
  pub rows_write_failed : ℕ
  pub queue_depth : ℕ

pub record Writer (Row : Type 0) : Type 0 where
  pub queue : List Row
  pub task : Bool
  pub batch_size : ℕ
  pub max_queue : ℕ
  pub dropped : ℕ
  pub written : ℕ
  pub shed : ℕ
  pub metrics : Metrics
  -- what "queue full" warnings have reported, newest first
  pub warnings : List ℕ

abbrev pub no_metrics : Metrics
no_metrics = record {
  rows_written = 0;
  rows_queue_full = 0;
  rows_rejected = 0;
  rows_write_failed = 0;
  queue_depth = 0;
}

-- `ROWS_DROPPED.labels(reason=reason).inc(count)`
abbrev pub count_dropped : ℕ → Reason → Metrics → Metrics
count_dropped n Reason.queue_full m = record m { rows_queue_full = m.rows_queue_full + n }
count_dropped n Reason.rejected m = record m { rows_rejected = m.rows_rejected + n }
count_dropped n Reason.write_failed m = record m { rows_write_failed = m.rows_write_failed + n }

-- `PredictionRepository.log_many`
unfoldable pub log_many : {Row S : Type 0} → Session Row S → List Row → S → Attempt S ℕ
log_many db [] s = done 0 s
log_many db (r ∷ rows) s =
    then_do (db.execute_insert (r ∷ rows) s)
      λ _ s'. then_do (db.commit s') λ _ s''. done (length (r ∷ rows)) s''

-- The loop of `_flush_row_by_row`: the counts so far, whether an exception other than
-- `IntegrityError` ended it, and the database.
pub record Retry (S : Type 0) : Type 0 where
  pub landed : ℕ
  pub refused : ℕ
  pub aborted : Bool
  pub after : S

module _ {Row : Type 0} where
  unfoldable pub init : ℕ → ℕ → Writer Row
  init batch_size max_queue = record {
    queue = [];
    task = false;
    batch_size = batch_size;
    max_queue = max_queue;
    dropped = 0;
    written = 0;
    shed = 0;
    metrics = no_metrics;
    warnings = [];
  }

  -- `_wrote`
  unfoldable pub wrote : ℕ → Writer Row → Writer Row
  wrote n w = record w {
    written = w.written + n;
    metrics = record (w.metrics) { rows_written = w.metrics.rows_written + n };
  }

  -- `_drop`
  unfoldable pub drop_rows : ℕ → Reason → Writer Row → Writer Row
  drop_rows n reason w = record w {
    dropped = w.dropped + n;
    metrics = count_dropped n reason w.metrics;
  }

  abbrev pub set_depth : Writer Row → Writer Row
  set_depth w = record w { metrics = record (w.metrics) { queue_depth = length w.queue } }

  -- `asyncio.Queue.full`: a queue with `maxsize` 0 has no bound
  unfoldable pub full : Writer Row → Bool
  full w = not (w.max_queue == 0) && leb w.max_queue (length w.queue)

  shed_row : Writer Row → Writer Row
  unfolding drop_rows
  shed_row w =
      let w' = drop_rows 1 Reason.queue_full w in
      let n = w.shed + 1 in
      record w' { shed = n; warnings = if n % 1000 == 1 then n ∷ w.warnings else w.warnings }

  unfoldable pub enqueue : Row → Writer Row → Writer Row
  unfolding full shed_row
  enqueue row w =
      if full w then shed_row w else set_depth (record w { queue = w.queue ++ row ∷ [] })

  unfoldable pub start : Writer Row → Writer Row
  start w = if w.task then w else record w { task = true }

  -- The inner loop of `_run`: `get_nowait` until the batch is full or the queue empty.
  unfoldable pub fill : ℕ → List Row → List Row → List Row × List Row
  fill size batch [] = (batch, [])
  fill size batch (row ∷ queue) =
      let more = fill size (batch ++ row ∷ []) queue in
      if ltb (length batch) size then more else (batch, row ∷ queue)

  -- One round of `_run` up to its flush, once `get` has a row to return.
  unfoldable pub next_batch : ℕ → Row → List Row → List Row × List Row
  unfolding fill
  next_batch size first queue = fill size (first ∷ []) queue

module _ {Row S : Type 0} (db : Session Row S) where
  unfoldable pub retry : List Row → ℕ → ℕ → S → Retry S
  unfolding log_many
  retry [] landed refused s = record {
    landed = landed;
    refused = refused;
    aborted = false;
    after = s;
  }
  retry (row ∷ rows) landed refused s = elim (log_many db (row ∷ []) s) [
    | done _ s' ↦ retry rows (landed + 1) refused s'
    | integrity s' ↦ elim (db.rollback s') [
      | done _ s'' ↦ retry rows landed (refused + 1) s''
      | integrity s'' ↦ record { landed = landed; refused = refused; aborted = true; after = s'' }
      | failed s'' ↦ record { landed = landed; refused = refused; aborted = true; after = s'' }
    ]
    | failed s' ↦ record { landed = landed; refused = refused; aborted = true; after = s' }
  ]

  -- What follows the loop.
  unfoldable pub count_retry : ℕ → Retry S → Writer Row → Writer Row
  unfolding wrote drop_rows
  count_retry size r w =
      let w1 =
        if r.aborted then drop_rows (size - r.landed - r.refused) Reason.write_failed w else w in
      let w2 = wrote r.landed w1 in
      if r.refused == 0 then w2 else drop_rows r.refused Reason.rejected w2

  unfoldable pub flush_row_by_row : List Row → Writer Row → S → Writer Row × S
  unfolding count_retry
  flush_row_by_row batch w s =
      let r = retry batch 0 0 s in (count_retry (length batch) r w, r.after)

  unfoldable pub flush : List Row → Writer Row → S → Writer Row × S
  unfolding flush_row_by_row
  flush [] w s = (w, s)
  flush (r ∷ rows) w s = elim (log_many db (r ∷ rows) s) [
    | done _ s' ↦ (set_depth (wrote (length (r ∷ rows)) w), s')
    | integrity s' ↦
        let retried = flush_row_by_row (r ∷ rows) w s' in (set_depth retried.0, retried.1)
    | failed s' ↦ (set_depth (drop_rows (length (r ∷ rows)) Reason.write_failed w), s')
  ]

  -- `_drain`, and so `flush_now`: the whole queue in one batch.
  unfoldable pub drain : Writer Row → S → Writer Row × S
  unfolding flush
  drain w s = flush w.queue (record w { queue = [] }) s
