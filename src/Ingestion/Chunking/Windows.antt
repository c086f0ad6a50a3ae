-- ===== src/Ingestion/Chunking/Windows.antt =====
-- app/services/ingestion/chunking.py: windows over a list, each a step after the one before.
use atlas_rag.Common.{
  if◌then◌else◌, [], ◌∷◌, ◌-◌, ◌+◌, ◌≡◌, ◌++◌, arith, refl, ◌≤◌, ◌<◌, zero, suc, ℕ, List, take,
  drop, length, ap, All, leb, ◌∙◌, Bool-cases, length-take, sym, inl, leb→le, inr, length-drop,
}

module _ {A : Type 0} where
  take-drop : (n : ℕ) (xs : List A) → take n xs ++ drop n xs ≡ xs
  take-drop zero xs = refl
  take-drop (suc n) [] = refl
  take-drop (suc n) (x ∷ xs) = ap (◌∷◌ x) (take-drop n xs)

  drop_nil : (n : ℕ) → drop {A = A} n [] ≡ []
  drop_nil zero = refl
  drop_nil (suc n) = refl

  pub drop-drop : (a b c : ℕ) (xs : List A) → b + a ≡ c → drop a (drop b xs) ≡ drop c xs
  drop-drop a zero c xs e = ap (λ n. drop n xs) (omega arith)
  drop-drop a (suc b) zero xs e = absurd (omega arith)
  drop-drop a (suc b) (suc c) [] e = drop_nil a
  drop-drop a (suc b) (suc c) (x ∷ xs) e = drop-drop a b c xs (omega arith)

  drop-append : (n : ℕ) (xs ys : List A) → n ≤ length xs → drop n (xs ++ ys) ≡ drop n xs ++ ys
  drop-append zero xs ys h = refl
  drop-append (suc n) [] ys h = absurd (omega arith)
  drop-append (suc n) (x ∷ xs) ys h = drop-append n xs ys (omega arith)

  take_all : (n : ℕ) (xs : List A) → length xs ≤ n → take n xs ≡ xs
  take_all zero [] h = refl
  take_all zero (x ∷ xs) h = absurd (omega arith)
  take_all (suc n) [] h = refl
  take_all (suc n) (x ∷ xs) h = ap (◌∷◌ x) (take_all n xs (omega arith))

  append_nil : (xs : List A) → xs ++ [] ≡ xs
  append_nil [] = refl
  append_nil (x ∷ xs) = ap (◌∷◌ x) (append_nil xs)

  -- What a list of windows adds to the one before it.
  unfoldable pub additions : (overlap : ℕ) → List (List A) → List A
  additions overlap [] = []
  additions overlap (w ∷ windows) = drop overlap w ++ additions overlap windows

  -- The list that windows were cut from, each overlapping the one before by so many.
  unfoldable pub rejoin : (overlap : ℕ) → List (List A) → List A
  rejoin overlap [] = []
  rejoin overlap (w ∷ windows) = w ++ additions overlap windows

  module _ (size overlap : ℕ) where
    unfoldable pub windows : (fuel : ℕ) → List A → List (List A)
    windows zero rest = []
    windows (suc fuel) [] = []
    windows (suc fuel) (x ∷ xs) =
        let later = windows fuel (drop (size - overlap) (x ∷ xs)) in
        take size (x ∷ xs) ∷ (if leb (length (x ∷ xs)) size then [] else later)

    module _ (smaller : overlap < size) where
      next_part :
          (rest : List A)
          → size ≤ length rest
          → drop overlap (take size rest) ++ drop overlap (drop (size - overlap) rest)
            ≡ drop overlap rest
      next_part rest long =
          ap (◌++◌ (drop overlap (take size rest)))
            (drop-drop overlap (size - overlap) size rest (omega arith))
          ∙ sym (
              drop-append overlap (take size rest) (drop size rest)
                (omega (arith, length-take {0} size rest)))
          ∙ ap (drop overlap) (take-drop size rest)

      additions-windows :
          (fuel : ℕ) (rest : List A)
          → length rest ≤ fuel
          → overlap < length rest
          → additions overlap (windows fuel rest) ≡ drop overlap rest
      unfolding additions windows
      additions-windows zero rest enough long = absurd (omega arith)
      additions-windows (suc fuel) [] enough long = absurd (omega arith)
      additions-windows (suc fuel) (x ∷ xs) enough long =
          elim (Bool-cases (leb (length (x ∷ xs)) size)) [
            | inl last ↦ rw last (
                append_nil (drop overlap (take size (x ∷ xs)))
                ∙ ap (drop overlap) (take_all size (x ∷ xs) (leb→le _ _ last)))
            | inr more ↦
                let left : length (drop (size - overlap) (x ∷ xs))
                    ≡ length (x ∷ xs) - (size - overlap) =
                  length-drop (size - overlap) (x ∷ xs) in
                let big : size < length (x ∷ xs) = ground arith in
                rw more (
                  ap (◌++◌ (drop overlap (take size (x ∷ xs)))) (
                    additions-windows fuel (drop (size - overlap) (x ∷ xs)) (omega arith)
                      (omega arith))
                  ∙ next_part (x ∷ xs) (omega arith))
          ]

      -- The windows, rejoined, are the list: nothing is left out, and each window but the first
      -- begins with exactly the overlap.
      pub rejoin-windows :
          (fuel : ℕ) (rest : List A)
          → length rest ≤ fuel
          → rejoin overlap (windows fuel rest) ≡ rest
      unfolding rejoin windows additions
      rejoin-windows zero [] enough = refl
      rejoin-windows zero (x ∷ xs) enough = absurd (omega arith)
      rejoin-windows (suc fuel) [] enough = refl
      rejoin-windows (suc fuel) (x ∷ xs) enough = elim (Bool-cases (leb (length (x ∷ xs)) size)) [
        | inl last ↦
            rw last (append_nil (take size (x ∷ xs)) ∙ take_all size (x ∷ xs) (leb→le _ _ last))
        | inr more ↦
            let left : length (drop (size - overlap) (x ∷ xs))
                ≡ length (x ∷ xs) - (size - overlap) =
              length-drop (size - overlap) (x ∷ xs) in
            let big : size < length (x ∷ xs) = ground arith in
            rw more (
              ap (◌++◌ (take size (x ∷ xs))) (
                additions-windows fuel (drop (size - overlap) (x ∷ xs)) (omega arith) (omega arith)
                ∙ drop-drop overlap (size - overlap) size (x ∷ xs) (omega arith))
              ∙ take-drop size (x ∷ xs))
      ]

      pub windows-sizes :
          (fuel : ℕ) (rest : List A)
          → All (λ w. (0 < length w) × (length w ≤ size)) (windows fuel rest)
      unfolding windows
      windows-sizes zero rest = tt
      windows-sizes (suc fuel) [] = tt
      windows-sizes (suc fuel) (x ∷ xs) =
          let taken = length-take size (x ∷ xs) in
          elim (Bool-cases (leb (length (x ∷ xs)) size)) [
            | inl last ↦ rw last ((omega arith, omega arith), tt)
            | inr more ↦
                rw more
                  ((omega arith, omega arith), windows-sizes fuel (drop (size - overlap) (x ∷ xs)))
          ]
