-- ===== src/Writer/Accounting.antt =====
-- The accounting of app/services/prediction_writer.py: the counts of a flush, and the attributes
-- against the Prometheus counters.
use fast_api_project.Prelude.{ℕ, ◌+◌, ◌≤◌, ◌≡◌, refl, false, List, [], ◌∷◌, length, arith, inl, inr}
use fast_api_project.Database.{Session, Attempt-cases}
use fast_api_project.Writer.{
  Writer, Retry, log_many, wrote, drop_rows, enqueue, retry, flush_row_by_row, flush,
}

-- the rows that the counters of a writer account for
abbrev pub counted : {Row : Type 0} → Writer Row → ℕ
counted w = w.written + w.dropped

-- `dropped` is the sum of the three labels, and `written` the Prometheus counter.
pub record Agrees {Row : Type 0} (w : Writer Row) : Type 0 where
  pub writes : w.metrics.rows_written ≡ w.written
  pub drops :
      w.metrics.rows_queue_full + w.metrics.rows_rejected + w.metrics.rows_write_failed ≡ w.dropped
  pub sheds : w.metrics.rows_queue_full ≡ w.shed

-- the counts that the loop leaves are within the batch, and fill it unless it was aborted
abbrev Counts : {S : Type 0} → ℕ → Retry S → Type 0
Counts size r = (r.landed + r.refused ≤ size) × (r.aborted ≡ false → r.landed + r.refused ≡ size)

pub enqueue-Agrees : {Row : Type 0} (row : Row) (w : Writer Row) → Agrees w → Agrees (enqueue row w)
unfolding enqueue drop_rows
enqueue-Agrees row w h = ground arith

module _ {Row S : Type 0} (db : Session Row S) where
  retry-Counts :
      (rows : List Row) (landed refused : ℕ) (s : S)
      → Counts (landed + refused + length rows) (retry db rows landed refused s)
  unfolding retry
  retry-Counts [] landed refused s = ground arith
  retry-Counts (row ∷ rows) landed refused s = elim (Attempt-cases (log_many db (row ∷ []) s)) [
    | inl (_, s', e) ↦ rw (e, retry) (ground (arith, retry-Counts rows (landed + 1) refused s'))
    | inr (inr (s', e)) ↦ rw (e, retry) (ground arith)
    | inr (inl (s', e)) ↦ elim (Attempt-cases (db.rollback s')) [
      | inl (_, s'', e') ↦
          rw (e, retry, e') (ground (arith, retry-Counts rows landed (refused + 1) s''))
      | inr (inl (s'', e')) ↦ rw (e, retry, e') (ground arith)
      | inr (inr (s'', e')) ↦ rw (e, retry, e') (ground arith)
    ]
  ]

  flush_row_by_row-counted :
      (batch : List Row) (w : Writer Row) (s : S)
      → counted (flush_row_by_row db batch w s).0 ≡ counted w + length batch
  unfolding flush_row_by_row wrote drop_rows
  flush_row_by_row-counted batch w s = ground (arith, retry-Counts batch 0 0 s)

  flush_row_by_row-Agrees :
      (batch : List Row) (w : Writer Row) (s : S)
      → Agrees w
      → Agrees (flush_row_by_row db batch w s).0
  unfolding flush_row_by_row wrote drop_rows
  flush_row_by_row-Agrees batch w s h = ground arith

  -- Whatever the database answers, a flush adds the size of its batch to the rows that are
  -- written or dropped: no row of the batch goes uncounted, and none is counted twice.
  pub flush-counted :
      (batch : List Row) (w : Writer Row) (s : S)
      → counted (flush db batch w s).0 ≡ counted w + length batch
  unfolding flush wrote drop_rows
  flush-counted [] w s = omega arith
  flush-counted (r ∷ rows) w s = elim (Attempt-cases (log_many db (r ∷ rows) s)) [
    | inl (_, s', e) ↦ rw (e, flush) (omega arith)
    | inr (inl (s', e)) ↦ rw (e, flush) (flush_row_by_row-counted (r ∷ rows) w s')
    | inr (inr (s', e)) ↦ rw (e, flush) (omega arith)
  ]

  -- A flush keeps the counters in agreement: whatever the database answers, the Prometheus counters
  -- of written rows and, over all reasons, of dropped rows equal the writer's own counts, and the
  -- rows dropped for a full queue those that were shed.
  pub flush-Agrees :
      (batch : List Row) (w : Writer Row) (s : S) → Agrees w → Agrees (flush db batch w s).0
  unfolding flush wrote drop_rows
  flush-Agrees [] w s h = h
  flush-Agrees (r ∷ rows) w s h = elim (Attempt-cases (log_many db (r ∷ rows) s)) [
    | inl (_, s', e) ↦ rw (e, flush) (ground arith)
    | inr (inl (s', e)) ↦
        let k = flush_row_by_row-Agrees (r ∷ rows) w s' h in rw (e, flush) (ground arith)
    | inr (inr (s', e)) ↦ rw (e, flush) (ground arith)
  ]

  flush_row_by_row-queue :
      (batch : List Row) (w : Writer Row) (s : S)
      → (flush_row_by_row db batch w s).0.queue ≡ w.queue
  unfolding flush_row_by_row wrote drop_rows
  flush_row_by_row-queue batch w s = ground arith

  -- a flush leaves the queue alone
  pub flush-queue :
      (batch : List Row) (w : Writer Row) (s : S) → (flush db batch w s).0.queue ≡ w.queue
  unfolding flush wrote drop_rows
  flush-queue [] w s = refl
  flush-queue (r ∷ rows) w s = elim (Attempt-cases (log_many db (r ∷ rows) s)) [
    | inl (_, s', e) ↦ rw (e, flush)
    | inr (inl (s', e)) ↦ rw (e, flush) (flush_row_by_row-queue (r ∷ rows) w s')
    | inr (inr (s', e)) ↦ rw (e, flush)
  ]
