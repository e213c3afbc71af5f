-- ===== src/Routes/History/Own.antt =====
-- What `prediction_history` of app/api/routes_predict.py shows, and to whom.
use fast_api_project.Prelude.{ℕ, ◌/◌, ◌≤◌, ◌≡◌, refl, ◌∙◌, ap, String, Option, List, length, All}
use mathlib.Core.Path.{subst}
use fast_api_project.Exceptions.{Result, ok, raise}
use fast_api_project.Tokens.{Principal, get_current_principal}
use fast_api_project.RateLimit.{Request}
use fast_api_project.Repository.{Prediction, Engine, IsSql}
use fast_api_project.Repository.History.{IsAsked, IsPage, IsPage-IsAsked, history-IsPage}
use fast_api_project.Exec.{lift}
use fast_api_project.Routes.World.{World, Guard, limited, resume-cases, same_after}
use fast_api_project.Routes.History.{PredictionHistory, page_of, prediction_history}

module _ {S R Row N : Type 0} (g : Guard R) (engine : Engine N S) (table : S → List (Prediction N))
    (law : IsSql engine table) where
  -- a page shows rows of the caller that were asked for, and an error no row; the table stays
  abbrev pub IsOwn :
      Option String
      → Option String
      → Option ℕ
      → (limit offset now : ℕ) → World S R Row
      → Result (PredictionHistory N) × World S R Row
      → Type 0
  IsOwn credentials company year limit offset now w (ok page, w') =
      (principal : Principal) × (rows : List (Prediction N)) × (get_current_principal g.jwt
          g.settings credentials (now / 1000)
        ≡ ok principal)
      × (page ≡ page_of rows)
      × IsPage principal.id company year limit offset (table w.database) rows
      × All (IsAsked principal.id company year) rows
      × (length rows ≤ limit)
      × (table w'.database ≡ table w.database)
  IsOwn credentials company year limit offset now w (raise e, w') =
      table w'.database ≡ table w.database

  -- On a database that answers: what is shown is a page, cut out by offset and limit, of an arrangement,
  -- newest first, of all the predictions of the token's user that are of the brand and the year asked
  -- for, so it lists no others and at most as many as the limit; without a valid token there is an
  -- error; and no row changes either way.
  pub prediction_history-IsOwn :
      (request : Request) (credentials company : Option String) (year : Option ℕ)
      (limit offset now : ℕ) (w : World S R Row)
      → IsOwn credentials company year limit offset now w
          (prediction_history g engine request credentials company year limit offset now w)
  unfolding prediction_history
  prediction_history-IsOwn request credentials company year limit offset now w =
      let P = IsOwn credentials company year limit offset now w in
      resume-cases P (limited g request now w) _
        (λ _ w1 e1.
          let k1 = same_after w (refl, refl, refl) e1 in
          resume-cases P (lift (get_current_principal g.jwt g.settings credentials (now / 1000)) w1)
            _
            (λ principal w2 e2.
              let k2 = same_after w k1 e2 in
              let (rows, (s, selected, t), page) =
                history-IsPage principal.id company year engine table limit offset w2.database
                  law in
              let same = ap table k2.1 in
              let (asked, few) =
                IsPage-IsAsked principal.id company year limit offset (table w2.database) rows
                  page in
              rw selected (
                principal,
                rows,
                ap (λ o. o.0) e2,
                refl,
                subst (λ l. IsPage principal.id company year limit offset l rows) same page,
                asked,
                few,
                t ∙ same,
              ))
            (λ e w2 e2. ap table (same_after w k1 e2).1))
        (λ e w1 e1. ap table (same_after w (refl, refl, refl) e1).1)
