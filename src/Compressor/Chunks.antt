-- ===== src/Compressor/Chunks.antt =====
-- The batches of `compress_pid` in daemon/src/compressor.rs: `chunks(IOV_MAX)` cuts the regions
-- into batches without losing, repeating or reordering any.
use bssl_ram.Prelude.{
  ℕ, zero, suc, ◌+◌, ◌/◌, ◌≤◌, ◌<◌, ◌≡◌, refl, ap, ◌∙◌, List, [], ◌∷◌, ◌++◌, arith, length, take,
  drop, All, length-drop, take-append-drop,
}
use bssl_ram.Compressor.{chunks}

module _ {ℓ} {A : Type ℓ} where
  abbrev pub concat : List (List A) → List A
  concat [] = []
  concat (c ∷ cs) = c ++ concat cs

  length-take-le : (n : ℕ) (xs : List A) → length (take n xs) ≤ n
  length-take-le zero xs = omega arith
  length-take-le (suc n) [] = omega arith
  length-take-le (suc n) (x ∷ xs) = omega (arith, length-take-le n xs)

  -- With a unit of fuel for each element, the chunks make up the list.
  pub concat-chunks :
      (fuel n : ℕ) (xs : List A) → length xs ≤ fuel → 0 < n → concat (chunks fuel n xs) ≡ xs
  unfolding chunks
  concat-chunks zero n [] h pos = refl
  concat-chunks zero n (x ∷ xs) h pos = absurd (omega arith)
  concat-chunks (suc fuel) n [] h pos = refl
  concat-chunks (suc fuel) n (x ∷ xs) h pos =
      ap (λ r. take n (x ∷ xs) ++ r)
        (concat-chunks fuel n (drop n (x ∷ xs)) (omega (arith, length-drop n (x ∷ xs))) pos)
      ∙ take-append-drop n (x ∷ xs)

  -- No chunk is empty or longer than `n`.
  pub chunks-bounded :
      (fuel n : ℕ) (xs : List A)
      → 0 < n
      → All (λ c. (0 < length c) × (length c ≤ n)) (chunks fuel n xs)
  unfolding chunks
  chunks-bounded zero n xs pos = tt
  chunks-bounded (suc fuel) n [] pos = tt
  chunks-bounded (suc fuel) zero (x ∷ xs) pos = absurd (omega arith)
  chunks-bounded (suc fuel) (suc n) (x ∷ xs) pos =
      ((omega arith, length-take-le (suc n) (x ∷ xs)), chunks-bounded fuel (suc n) (drop n xs) pos)

-- The number of batches of `IOV_MAX` regions is the least that suffices.
pub length-chunks {ℓ} :
    {A : Type ℓ} (fuel : ℕ) (xs : List A)
    → length xs ≤ fuel
    → length (chunks fuel 1024 xs) ≡ (length xs + 1023) / 1024
unfolding chunks
length-chunks zero [] h = refl
length-chunks zero (x ∷ xs) h = absurd (omega arith)
length-chunks (suc fuel) [] h = refl
length-chunks (suc fuel) (x ∷ xs) h = omega (
  arith,
  length-drop 1023 xs,
  length-chunks fuel (drop 1023 xs) (omega (arith, length-drop 1023 xs)),
)
