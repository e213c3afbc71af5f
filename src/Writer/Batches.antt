-- ===== src/Writer/Batches.antt =====
-- The batches that the consumer of app/services/prediction_writer.py takes from the queue.
use fast_api_project.Prelude.{
  ℕ, ◌≤◌, ◌<◌, ◌≡◌, refl, ◌∙◌, List, [], ◌∷◌, ◌++◌, length, ltb, append_assoc, length-append, arith,
  inl, inr, Bool-cases, max,
}
use fast_api_project.Writer.{fill, next_batch}

module _ {Row : Type 0} (size : ℕ) where
  -- what a batch and the rest of the queue are, for the rows taken so far and the queue
  pub record IsCut (batch queue : List Row) (cut : List Row × List Row) : Type 0 where
    pub whole : cut.0 ++ cut.1 ≡ batch ++ queue
    pub bounded : length cut.0 ≤ max size (length batch)
    pub greedy : length cut.0 < size → cut.1 ≡ []
    pub kept : length batch ≤ length cut.0

  fill-IsCut : (batch queue : List Row) → IsCut batch queue (fill size batch queue)
  unfolding fill
  fill-IsCut batch [] = record {
    whole = refl;
    bounded = omega arith;
    greedy = λ _. refl;
    kept = omega arith;
  }
  fill-IsCut batch (row ∷ queue) = elim (Bool-cases (ltb (length batch) size)) [
    | inl room ↦
        let c = fill-IsCut (batch ++ row ∷ []) queue in
        let n = length-append batch (row ∷ []) in
        rw room (record {
          whole = c.whole ∙ append_assoc batch (row ∷ []) queue;
          bounded = ground (arith, c.bounded, n, room);
          greedy = c.greedy;
          kept = omega (arith, c.kept, n);
        })
    | inr done ↦ rw done (record {
      whole = refl;
      bounded = omega arith;
      greedy = λ h. absurd (ground (arith, done, h));
      kept = omega arith;
    })
  ]

  -- A round of the consumer splits the queue in two without losing, repeating or reordering a row:
  -- the batch is never empty, never larger than the batch size where that is positive, and smaller
  -- than it only if the queue is left empty.
  pub next_batch-IsCut :
      (first : Row) (queue : List Row)
      → (let cut = next_batch size first queue in
          (cut.0 ++ cut.1 ≡ first ∷ queue)
          × (length cut.0 ≤ max size 1)
          × (1 ≤ length cut.0)
          × (length cut.0 < size → cut.1 ≡ []))
  unfolding next_batch
  next_batch-IsCut first queue =
      let c = fill-IsCut (first ∷ []) queue in (c.whole, c.bounded, c.kept, c.greedy)
