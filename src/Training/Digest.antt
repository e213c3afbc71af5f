-- ===== src/Training/Digest.antt =====
-- `file_sha256` of training/train_utils.py. A file is what is left of it to read; the hash of hashlib is a
-- parameter.
use fast_api_project.Prelude.{
  ℕ, zero, suc, ◌≤◌, ◌<◌, ◌≡◌, refl, ap, sym, ◌∙◌, String, Option, none, some, List, [], ◌∷◌, ◌++◌,
  take, drop, length, arith,
}

-- `hashlib.sha256()`, `update` and `hexdigest`
pub record Hash (B D : Type 0) : Type 0 where
  pub new : D
  pub update : List B → D → D
  pub hexdigest : D → String

-- Documented: updates with one text after another are an update with both of them joined, and an empty text
-- changes nothing.
pub record IsStreaming {B D : Type 0} (h : Hash B D) : Type 0 where
  pub update_append : (xs ys : List B) (d : D) → h.update ys (h.update xs d) ≡ h.update (xs ++ ys) d
  pub update_empty : (d : D) → h.update [] d ≡ d

module _ {B D : Type 0} (h : Hash B D) where
  -- The loop, on fuel, over chunks of `size`, which is 65536: it ends where a read gives nothing. `none` where the fuel
  -- runs out.
  unfoldable pub digest_from : (fuel size : ℕ) → List B → D → Option D
  digest_from zero size rest d = none
  digest_from (suc fuel) size rest d =
      let next = digest_from fuel size (drop size rest) (h.update (take size rest) d) in
      elim (take size rest) [ [] ↦ some d | _ ∷ _ ↦ next ]

  abbrev hex : Option D → Option String
  hex none = none
  hex (some d) = some (h.hexdigest d)

  unfoldable pub file_sha256 : (fuel size : ℕ) → List B → Option String
  unfolding digest_from
  file_sha256 fuel size content = hex (digest_from fuel size content h.new)

  take-drop : (n : ℕ) (xs : List B) → take n xs ++ drop n xs ≡ xs
  take-drop zero xs = refl
  take-drop (suc n) [] = refl
  take-drop (suc n) (x ∷ xs) = ap (◌∷◌ x) (take-drop n xs)

  length-drop-le : (n : ℕ) (x : B) (xs : List B) → length (drop (suc n) (x ∷ xs)) ≤ length xs
  length-drop-le n x xs = go n xs
    where
      go : (n : ℕ) (xs : List B) → length (drop n xs) ≤ length xs
      go zero xs = omega arith
      go (suc n) [] = omega arith
      go (suc n) (x ∷ xs) = omega (arith, go n xs)

  digest_from-update :
      (fuel n : ℕ) (rest : List B) (d : D)
      → IsStreaming h
      → length rest < fuel
      → digest_from fuel (suc n) rest d ≡ some (h.update rest d)
  unfolding digest_from
  digest_from-update zero n rest d law enough = absurd (omega arith)
  digest_from-update (suc fuel) n [] d law enough = ap some (sym (law.update_empty d))
  digest_from-update (suc fuel) n (x ∷ rest) d law enough =
      digest_from-update fuel n (drop n rest) (h.update (x ∷ take n rest) d) law
        (omega (arith, enough, length-drop-le n x rest))
      ∙ ap some (
          law.update_append (x ∷ take n rest) (drop n rest) d
          ∙ ap (λ bytes. h.update (x ∷ bytes) d) (take-drop n rest))

  -- Where the hash takes a text in parts, and chunks are not empty: the loop ends after at most one round more
  -- than the file has bytes, and gives the digest of the whole file.
  pub file_sha256-whole :
      (n : ℕ) (content : List B)
      → IsStreaming h
      → file_sha256 (suc (length content)) (suc n) content
        ≡ some (h.hexdigest (h.update content h.new))
  unfolding file_sha256
  file_sha256-whole n content law =
      ap hex (digest_from-update (suc (length content)) n content h.new law (omega arith))
