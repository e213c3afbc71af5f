-- ===== src/Scripts/Examples.antt =====
-- A small load test on whole numbers, with a generator that counts.
use fast_api_project.Prelude.{
  ℕ, Bool, ◌+◌, ◌-◌, ◌%◌, ◌≤◌, ◌<◌, ◌≡◌, refl, inl, inr, true, none, str_eq, if◌then◌else◌, some,
  [], ◌∷◌, leb, arith,
}
use native.Mathlib.Nat.{mod-lt}
use fast_api_project.Floats.{IsOrdered}
use fast_api_project.Routes.Stub.{whole}
use fast_api_project.Scripts.{Rng, IsDocumented}
use fast_api_project.Scripts.LoadTest.{response, percentile, sorted, insert_sorted}
use fast_api_project.Scripts.LoadTest.Session.{Client, Config, run}
use fast_api_project.Scripts.LoadTest.Served.{IsServing, AllServed, run-AllServed}
use fast_api_project.Schemas.{one_of}
use fast_api_project.Drift.Scores.{Reference, num, text, cell, assign}
use fast_api_project.Scripts.Demo.Sample.{
  Draws, cast, sample_categorical, sample_numeric, number_at, clamp, sample_in_distribution,
}

abbrev pub counting : Rng ℕ ℕ
counting = record {
  below = λ n s. (s % n, s + 1);
  between = λ a b s. (a + s % (b + 1 - a), s + 1);
  uniform = λ a b s. (a + s % (b + 1 - a), s + 1);
}

span : (a b s : ℕ) → a ≤ b → s % (b + 1 - a) < b + 1 - a
span a b s h = mod-lt s {m = b + 1 - a} (omega arith)

whole-IsOrdered : IsOrdered whole
whole-IsOrdered = record { le_total = λ a b. ground arith; le_trans = λ a b c h k. ground arith }

pub counting-IsDocumented : IsDocumented whole counting
counting-IsDocumented = record {
  ordered = whole-IsOrdered;
  below_lt = λ n s h. mod-lt s {m = n} h;
  between_ge = λ a b s h. omega arith;
  between_le = λ a b s h. omega (arith, span a b s h);
  uniform_ge = λ a b s h. ground arith;
  uniform_le = λ a b s h. ground (arith, span a b s h);
  round_ge = λ a x h. h;
  round_le = λ a x h. h;
  of_nat_le = λ a b h. ground arith;
  of_nat_lt = λ a b h. ground arith;
}

abbrev ceil_half : ℕ → ℕ → ℕ
ceil_half p n = 2

median : percentile whole ceil_half (λ _. 0) (30 ∷ 10 ∷ 20 ∷ []) 50 ≡ 20
unfolding percentile sorted insert_sorted
median = refl

-- It has answered a number of requests.
abbrev server : Client ℕ (Unit {0}) ℕ
server = record {
  register = λ s. (409, s);
  login = λ s. ((200, tt), s);
  request = λ token payload s. ((response 200 (some true), 7), s + 1);
}

server-IsServing : IsServing whole server
server-IsServing = record {
  registers = λ s. inr refl;
  logs_in = λ s. refl;
  answers = λ token payload s a. (some true, refl);
}

abbrev config : Config
config = record { target = "predict"; total_requests = 3; unique_vectors = 2 }

run-AllServed_example :
    AllServed whole counting server ceil_half
      (λ _. 0)
      1
      3
      (run whole counting server ceil_half (λ _. 0) 1 config 5 0 0).0
run-AllServed_example =
    run-AllServed whole counting server ceil_half (λ _. 0) 1 counting-IsDocumented server-IsServing
      config 5 0 0 (inl refl)

abbrev pub coin : ℕ → Bool × ℕ
coin s = (leb 1 (s % 2), s + 1)

-- a generator of samples that takes the first place and the lower edge
abbrev first_draws : Draws ℕ ℕ
first_draws = record {
  choices = λ weights s. (0, s + 1);
  uniform = λ low high s. (low, s + 1);
  int = λ x. x;
  nearest = λ x. x;
  parse = λ value. if str_eq value "5" then some 5 else none;
}

-- an old car that has not been driven, with its seats as a category
abbrev museum : Reference ℕ
museum = record {
  numeric =
      ("year", record { edges = 1950 ∷ 1990 ∷ []; proportions = 1 ∷ [] })
      ∷ ("km_driven", record { edges = 0 ∷ 10 ∷ []; proportions = 1 ∷ [] })
      ∷ [];
  categorical = ("seats", ("5", 1) ∷ []) ∷ ("fuel", ("Petrol", 1) ∷ []) ∷ [];
}

sampled :
    sample_in_distribution whole first_draws museum 0
    ≡ some (
      ("seats", num 5) ∷ ("fuel", text "Petrol") ∷ ("year", num 1980) ∷ ("km_driven", num 1) ∷ [],
      6,
    )
unfolding sample_in_distribution sample_categorical sample_numeric clamp cast number_at assign cell
    one_of
sampled = refl
