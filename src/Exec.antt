-- ===== src/Exec.antt =====
-- Handlers as actions: they read and change a state, and return or raise. What a database call
-- raises becomes an exception of the handler.
use fast_api_project.Exceptions.{Result, ok, raise, integrity_error, unhandled}
use fast_api_project.Database.{Attempt, done, integrity, failed}

abbrev pub M : Type 0 → Type 0 → Type 0
M S A = S → Result A × S

abbrev pub resume : {S A B : Type 0} → Result A × S → (A → M S B) → Result B × S
resume (ok a, s) f = f a s
resume (raise e, s) f = (raise e, s)

infixl 5 ◌>>=◌ ◌>>◌
abbrev pub ◌>>=◌ : {S A B : Type 0} → M S A → (A → M S B) → M S B
◌>>=◌ m f s = resume (m s) f

abbrev pub ◌>>◌ : {S B : Type 0} → M S (Unit {0}) → M S B → M S B
m >> k = m >>= λ _. k

abbrev pub pure : {S A : Type 0} → A → M S A
pure a s = (ok a, s)

abbrev pub lift : {S A : Type 0} → Result A → M S A
lift r s = (r, s)

-- an exception that the database raises and the code does not catch
abbrev pub uncaught : {S A : Type 0} → Attempt S A → Result A × S
uncaught (done a s) = (ok a, s)
uncaught (integrity s) = (raise integrity_error, s)
uncaught (failed s) = (raise (unhandled "database"), s)

abbrev pub query : {S A : Type 0} → (S → Attempt S A) → M S A
query call s = uncaught (call s)
