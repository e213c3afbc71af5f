-- ===== src/Logs/Correlated.antt =====
-- What the log promises: a response carries the id of its log line, and a record keeps its own id.
use fast_api_project.Prelude.{
  ℕ, zero, suc, String, Bool, false, ◌||◌, Option, none, some, List, [], ◌∷◌, map, str_eq, eq_iff,
  ◌≡◌, refl, ap, ◌∙◌, inl, inr, Bool-cases, Option-cases, if◌then◌else◌, ◌≤◌, arith,
}
use fast_api_project.Exceptions.{Result}
use fast_api_project.Drift.Scores.{assign}
use fast_api_project.Cache.{prefix}
use fast_api_project.Schemas.{text_length}
use fast_api_project.Logs.Access.{
  Message, Scope, Context, wrap, status_after, access_line, header_of, request_id_header,
  correlation_of,
}
use fast_api_project.Logs.{
  LogRecord, id_or, filter_record, add_extras, add_exception, format_record, Logging, configured,
  configure_logging,
}

-- What one http request under the id shows, where the application behaves as `ran`.
unfoldable pub IsCorrelated :
    (id : String)
    → Scope
    → (before : Context) → (ran : List Message × Result (Unit {0}))
    → ((List Message × Result (Unit {0})) × Context)
    → Type 0
IsCorrelated id scope before ran ((sent, outcome), after) =
    (sent ≡ map (wrap id) ran.0)
    × (outcome ≡ ran.1)
    × (after.request_id ≡ before.request_id)
    × (after.lines ≡ access_line scope (status_after 500 ran.0) id ∷ before.lines)

abbrev pub correlated_id : Scope → (uuid_hex : String) → String
correlated_id scope uuid_hex =
    correlation_of (header_of request_id_header scope.headers none) uuid_hex

prefix-length : (n : ℕ) (t : String) → text_length (prefix n t) ≤ n
unfolding prefix text_length
prefix-length zero t = omega arith
prefix-length (suc n) String.[] = omega arith
prefix-length (suc n) (String.◌∷◌ c t) = omega (arith, prefix-length n t)

-- An id is at most 64 characters long, whatever header comes in and however long the generated text is.
correlation_of-bounded :
    (header : Option String) (uuid_hex : String) → text_length (correlation_of header uuid_hex) ≤ 64
unfolding correlation_of
correlation_of-bounded none uuid_hex = omega (arith, prefix-length 16 uuid_hex)
correlation_of-bounded (some incoming) uuid_hex =
    ground (arith, prefix-length 16 uuid_hex, prefix-length 64 incoming)

-- `d.get(key)`
unfoldable pub lookup : String → List (String × String) → Option String
lookup key [] = none
lookup key ((k, v) ∷ d) = if str_eq k key then some v else lookup key d

lookup-assign-other :
    (name key value : String) (d : List (String × String))
    → str_eq key name ≡ false
    → lookup name (assign key value d) ≡ lookup name d
unfolding lookup assign
lookup-assign-other name key value [] h = rw h
lookup-assign-other name key value ((k, v) ∷ d) h = elim (Bool-cases (str_eq k key)) [
  | inl same ↦
      let unlike : str_eq k name ≡ false = rw ((eq_iff k key).0 same) h in rw (same, unlike)
  | inr other ↦ rw other (
      ap (λ found. if str_eq k name then some v else found)
        (lookup-assign-other name key value d h))
]

lookup-add_extras :
    (standard : String → Bool) (extras payload : List (String × String))
    → lookup "request_id" (add_extras standard extras payload) ≡ lookup "request_id" payload
unfolding add_extras
lookup-add_extras standard [] payload = refl
lookup-add_extras standard ((key, value) ∷ extras) payload =
    elim (Bool-cases (standard key || str_eq key "request_id")) [
      | inl skipped ↦ rw skipped (lookup-add_extras standard extras payload)
      | inr added ↦
          let unlike : str_eq key "request_id" ≡ false = ground (arith, added) in
          rw added (
            lookup-add_extras standard extras (assign key value payload)
            ∙ lookup-assign-other "request_id" key value payload unlike)
    ]

lookup-add_exception :
    (exception : Option String) (payload : List (String × String))
    → lookup "request_id" (add_exception exception payload) ≡ lookup "request_id" payload
lookup-add_exception none payload = refl
lookup-add_exception (some text) payload =
    lookup-assign-other "request_id" "exception" text payload refl

-- Whatever extras and exception a record carries, its JSON has the id it came with, and that of the
-- request where it came with none.
pub format_record-request_id :
    (standard : String → Bool) (current : String) (r : LogRecord)
    → lookup "request_id" (format_record standard (filter_record current r))
      ≡ some (id_or r.request_id current)
unfolding lookup format_record filter_record
format_record-request_id standard current r =
    lookup-add_exception r.exception _ ∙ lookup-add_extras standard r.extras _

-- Once logging is configured, configuring it again changes nothing, until it is shut down.
pub configure_logging-once :
    (level again : ℕ) (fmt other : String) (l : Logging)
    → configure_logging again other (configure_logging level fmt l) ≡ configure_logging level fmt l
unfolding configure_logging
configure_logging-once level again fmt other l = elim (Option-cases l.listener) [
  | inl fresh ↦ rw (fresh, configured)
  | inr (f, running) ↦ rw (running, configured)
]
