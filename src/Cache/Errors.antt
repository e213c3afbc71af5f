-- ===== src/Cache/Errors.antt =====
-- The failure log of app/cache/redis_cache.py: every failure is counted, and few are written.
use fast_api_project.Prelude.{
  ℕ, ◌+◌, ◌≤◌, ◌≡◌, refl, true, Option, none, some, List, [], ◌∷◌, if◌then◌else◌, arith, inl, inr,
  Bool-cases,
}
use fast_api_project.Cache.{
  Operation, same_operation, ErrorLog, error_log_interval, due, record_redis_error,
}

same_operation_eq : (a b : Operation) → same_operation a b ≡ true → a ≡ b
unfolding same_operation
same_operation_eq a b h = ground arith

-- the lines written for one operation, newest first
unfoldable pub lines_of : Operation → List (Operation × ℕ) → List ℕ
lines_of op [] = []
lines_of op ((o, t) ∷ rest) =
    let more = lines_of op rest in if same_operation op o then t ∷ more else more

-- consecutive times, newest first, lie an interval apart
abbrev pub Spaced : List ℕ → Type 0
Spaced [] = Unit
Spaced (t ∷ []) = Unit
Spaced (t ∷ u ∷ rest) = (u + error_log_interval ≤ t) × Spaced (u ∷ rest)

abbrev pub newest : List ℕ → Option ℕ
newest [] = none
newest (t ∷ rest) = some t

-- what the dictionary of the code and the lines written have to do with one another
pub record IsThrottled (log : ErrorLog) : Type 0 where
  pub recorded : (op : Operation) → log.last_logged op ≡ newest (lines_of op log.lines)
  pub spaced : (op : Operation) → Spaced (lines_of op log.lines)

Spaced-cons :
    (last : Option ℕ) (ts : List ℕ) (now : ℕ)
    → last ≡ newest ts
    → due last now ≡ true
    → Spaced ts
    → Spaced (now ∷ ts)
unfolding due
Spaced-cons last [] now e d h = tt
Spaced-cons last (t ∷ ts) now e d h = ground arith

-- one failure, at the operation `o`
logged_at :
    (o op : Operation) (now : ℕ) (log : ErrorLog)
    → IsThrottled log
    → ((record_redis_error op now log).last_logged o
        ≡ newest (lines_of o (record_redis_error op now log).lines))
      × Spaced (lines_of o (record_redis_error op now log).lines)
unfolding record_redis_error lines_of
logged_at o op now log h = elim (Bool-cases (due (log.last_logged op) now)) [
  | inr quiet ↦ rw quiet (h.recorded o, h.spaced o)
  | inl line ↦ elim (Bool-cases (same_operation o op)) [
    | inr other ↦ rw (line, other) (h.recorded o, h.spaced o)
    | inl same ↦
        let e : o ≡ op = same_operation_eq o op same in
        let d : due (log.last_logged o) now ≡ true = rw e line in
        rw (line, same) (refl, Spaced-cons _ _ now (h.recorded o) d (h.spaced o))
  ]
]

-- A failure, recorded at any time, keeps the log throttled: `_last_error_logged` is the time of the
-- newest line of each operation, and no two lines of one operation lie less than the interval apart.
pub record_redis_error-IsThrottled :
    (op : Operation) (now : ℕ) (log : ErrorLog)
    → IsThrottled log
    → IsThrottled (record_redis_error op now log)
record_redis_error-IsThrottled op now log h = record {
  recorded = λ o. (logged_at o op now log h).0;
  spaced = λ o. (logged_at o op now log h).1;
}
