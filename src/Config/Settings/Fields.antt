-- ===== src/Config/Settings/Fields.antt =====
-- When a field of `Settings` (app/core/config.py) is accepted, one at a time.
use fast_api_project.Prelude.{
  ℕ, ◌≤◌, ◌≡◌, refl, ◌↔◌, String, false, Option, none, some, arith, Bool-cases, Option-cases, inl,
  inr,
}
use fast_api_project.Schemas.{text_length}
use fast_api_project.Config.{
  UrlFunctions, normalise_database_url, reject_placeholder, is_listed, placeholder_secrets,
}
use fast_api_project.Config.Settings.{
  Checked, good, bad, ◌<*>◌, Readers, required, text_or, parsed_or, secret, accepted,
  use_the_async_driver, Problem,
}

pub <*>-good {ℓ κ} :
    {A : Type ℓ} {B : Type κ} (f : Checked (A → B)) (a : Checked A) (b : B)
    → f <*> a ≡ good b
    → (g : A → B) × (x : A) × (f ≡ good g) × (a ≡ good x) × (g x ≡ b)
unfolding ◌<*>◌
<*>-good (good g) (good x) b h = (g, x, refl, refl, cc)
<*>-good (good g) (bad errors) b h = cc
<*>-good (bad errors) a b h = cc

abbrev pub IsGood {ℓ} : {A : Type ℓ} → Checked A → Type ℓ
IsGood {A = A} c = (a : A) × (c ≡ good a)

pub <*>-IsGood {ℓ κ} :
    {A : Type ℓ} {B : Type κ} (f : Checked (A → B)) (a : Checked A)
    → IsGood f
    → IsGood a
    → IsGood (f <*> a)
unfolding ◌<*>◌
<*>-IsGood f a (g, e) (x, k) = (g x, rw (e, k) refl)

pub text_or-IsGood : (default : String) (o : Option String) → IsGood (text_or default o)
text_or-IsGood default none = (default, refl)
text_or-IsGood default (some value) = (value, refl)

-- what a secret must be in the environment
abbrev pub IsSecret : Readers → ℕ → Option String → String → Type 0
IsSecret readers n value secret =
    (value ≡ some secret)
    × (n ≤ text_length secret)
    × (is_listed (readers.strip_lower secret) placeholder_secrets ≡ false)

abbrev pub Parses {ℓ} : {A : Type ℓ} → (String → Option A) → Option String → Type ℓ
Parses {A = A} read value = (text : String) → value ≡ some text → (a : A) × (read text ≡ some a)

module _ (urls : UrlFunctions) (readers : Readers) where
  accepted_iff :
      (name value v : String)
      → (accepted name (reject_placeholder readers.strip_lower value) ≡ good v)
        ↔ ((value ≡ v) × (is_listed (readers.strip_lower value) placeholder_secrets ≡ false))
  unfolding reject_placeholder
  accepted_iff name value v =
      elim (Bool-cases (is_listed (readers.strip_lower value) placeholder_secrets)) [
        | inl listed ↦ ground (arith, listed)
        | inr fine ↦ ground (arith, fine)
      ]

  pub secret_iff :
      (name : String) (n : ℕ) (value : Option String) (v : String)
      → (secret urls readers name n value ≡ good v) ↔ IsSecret readers n value v
  unfolding secret
  secret_iff name n none v = ground arith
  secret_iff name n (some value) v = ground (arith, accepted_iff name value v)

  pub url-good :
      (value : Option String) (u : String)
      → use_the_async_driver urls readers (required "DATABASE_URL" value) ≡ good u
      → (v : String) × (value ≡ some v) × (u ≡ normalise_database_url urls v)
  url-good none u h = cc
  url-good (some v) u h = (v, refl, cc)

pub required-good :
    (name : String) (value : Option String) (v : String)
    → required name value ≡ good v
    → value ≡ some v
required-good name none v h = cc
required-good name (some value) v h = cc

pub parsed_or_iff {ℓ} :
    {A : Type ℓ} (read : String → Option A) (wrong : Problem) (name : String) (default : A)
    (value : Option String)
    → IsGood (parsed_or read wrong name default value) ↔ Parses read value
parsed_or_iff read wrong name default none = (λ g text h. cc, λ p. (default, refl))
parsed_or_iff read wrong name default (some text) = elim (Option-cases (read text)) [
  | inl refused ↦
      rw (refused, parsed_or)
        (λ g t h. absurd (ground (arith, g.1)), λ p. let (a, e) = p text refl in absurd cc)
  | inr (a, e) ↦ rw (e, parsed_or) (λ g t h. (a, cc), λ p. (a, refl))
]
