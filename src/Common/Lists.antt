-- ===== src/Common/Lists.antt =====
-- Lists measured by native numbers, Boolean queries over the rows of a table, and the lemmas that
-- the components share.
use Prim.Native.Nat.{ℕ, zero, suc, ◌+◌, ◌-◌, min}
use mathlib.Core.Path.{◌≡◌, refl}
use mathlib.Core.Logic.{inl, inr}
use mathlib.Core.Bool.{Bool, true, false, ◌&&◌, ◌||◌}
use mathlib.Core.List.{List, [], ◌∷◌, ◌++◌}
use mathlib.Core.Option.{Option, none, some}
use native.Mathlib.Omega.{arith}
use atlas_rag.Common.Tests.{if◌then◌else◌, Bool-cases}

module _ {ℓ} {A : Type ℓ} where
  abbrev pub length : List A → ℕ
  length [] = 0
  length (x ∷ xs) = suc (length xs)

  abbrev pub take : ℕ → List A → List A
  take zero xs = []
  take (suc n) [] = []
  take (suc n) (x ∷ xs) = x ∷ take n xs

  abbrev pub drop : ℕ → List A → List A
  drop zero xs = xs
  drop (suc n) [] = []
  drop (suc n) (x ∷ xs) = drop n xs

  -- A predicate of every entry.
  abbrev pub All {κ} : (A → Type κ) → List A → Type κ
  All P [] = Unit
  All P (x ∷ xs) = P x × All P xs

  -- `SELECT EXISTS(SELECT 1 FROM xs WHERE p)`
  unfoldable pub any : (A → Bool) → List A → Bool
  any p [] = false
  any p (x ∷ xs) = p x || any p xs

  unfoldable pub all : (A → Bool) → List A → Bool
  all p [] = true
  all p (x ∷ xs) = p x && all p xs

  -- The first row that meets the condition (`one_or_none` where it can be one row at most).
  unfoldable pub find : (A → Bool) → List A → Option A
  find p [] = none
  find p (x ∷ xs) = if p x then some x else find p xs

  -- `SELECT count(*) FROM xs WHERE p`
  unfoldable pub count_if : (A → Bool) → List A → ℕ
  count_if p [] = 0
  count_if p (x ∷ xs) = let rest = count_if p xs in if p x then suc rest else rest

  -- `SELECT COALESCE(sum(f), 0) FROM xs WHERE p`
  unfoldable pub sum_if : (A → Bool) → (A → ℕ) → List A → ℕ
  sum_if p f [] = 0
  sum_if p f (x ∷ xs) = let rest = sum_if p f xs in if p x then f x + rest else rest

  -- `UPDATE xs SET x = f x WHERE p`
  unfoldable pub update_where : (A → Bool) → (A → A) → List A → List A
  update_where p f [] = []
  update_where p f (x ∷ xs) = (if p x then f x else x) ∷ update_where p f xs

  -- `SELECT ... FROM xs WHERE p`
  unfoldable pub filter : (A → Bool) → List A → List A
  filter p [] = []
  filter p (x ∷ xs) = let rest = filter p xs in if p x then x ∷ rest else rest

  -- `GROUP BY`, with one row of each group.
  unfoldable pub group_by : (A → A → Bool) → List A → List A
  group_by same [] = []
  group_by same (x ∷ xs) =
      let rest = group_by same xs in if any (same x) rest then rest else x ∷ rest

  -- `IS NOT DISTINCT FROM`
  abbrev pub same_option : (A → A → Bool) → Option A → Option A → Bool
  same_option same none none = true
  same_option same (some a) (some b) = same a b
  same_option same _ _ = false

  -- An update is not seen by a count of rows that it does not change.
  pub count_if-update_where :
      (p q : A → Bool) (f : A → A) (xs : List A)
      → All (λ x. q x ≡ true → p (f x) ≡ p x) xs
      → count_if p (update_where q f xs) ≡ count_if p xs
  unfolding count_if update_where
  count_if-update_where p q f [] same = refl
  count_if-update_where p q f (x ∷ xs) same = elim (Bool-cases (q x)) [
    | inl hit ↦ rw (hit, same.0 hit, count_if-update_where p q f xs same.1) refl
    | inr miss ↦ rw (miss, count_if-update_where p q f xs same.1) refl
  ]

  -- What no row of a list is, no row of a part of it is.
  pub any-filter :
      (p q : A → Bool) (xs : List A)
      → ((x : A) → q x ≡ true → p x ≡ false)
      → any p (filter q xs) ≡ false
  unfolding any filter
  any-filter p q [] h = refl
  any-filter p q (x ∷ xs) h = elim (Bool-cases (q x)) [
    | inl hit ↦ rw (hit, h x hit) (any-filter p q xs h)
    | inr miss ↦ rw miss (any-filter p q xs h)
  ]

  pub any-filter_of :
      (p q : A → Bool) (xs : List A) → any p xs ≡ false → any p (filter q xs) ≡ false
  unfolding any filter
  any-filter_of p q [] h = refl
  any-filter_of p q (x ∷ xs) h =
      let rest : any p xs ≡ false = ground arith in
      let first : p x ≡ false = ground arith in
      elim (Bool-cases (q x)) [
        | inl hit ↦ rw (hit, first) (any-filter_of p q xs rest)
        | inr miss ↦ rw miss (any-filter_of p q xs rest)
      ]

  pub any-group_by :
      (p : A → Bool) (same : A → A → Bool) (xs : List A)
      → any p xs ≡ false
      → any p (group_by same xs) ≡ false
  unfolding any group_by
  any-group_by p same [] h = refl
  any-group_by p same (x ∷ xs) h =
      let rest : any p xs ≡ false = ground arith in
      let first : p x ≡ false = ground arith in
      elim (Bool-cases (any (same x) (group_by same xs))) [
        | inl listed ↦ rw listed (any-group_by p same xs rest)
        | inr new ↦ rw (new, first) (any-group_by p same xs rest)
      ]

  pub any-take : (p : A → Bool) (n : ℕ) (xs : List A) → any p xs ≡ false → any p (take n xs) ≡ false
  unfolding any
  any-take p zero xs h = refl
  any-take p (suc n) [] h = refl
  any-take p (suc n) (x ∷ xs) h =
      let rest : any p xs ≡ false = ground arith in
      let first : p x ≡ false = ground arith in rw first (any-take p n xs rest)

  pub any-implies :
      (p q : A → Bool) (xs : List A)
      → All (λ x. p x ≡ true → q x ≡ true) xs
      → any p xs ≡ true
      → any q xs ≡ true
  unfolding any
  any-implies p q [] h found = absurd (cc)
  any-implies p q (x ∷ xs) h found = elim (Bool-cases (p x)) [
    | inl hit ↦ rw (h.0 hit) refl
    | inr miss ↦
        let rest : any p xs ≡ true = rw miss at found in
        let later = any-implies p q xs h.1 rest in ground arith
  ]

  pub length-append : (xs ys : List A) → length (xs ++ ys) ≡ length xs + length ys
  length-append [] ys = omega arith
  length-append (x ∷ xs) ys = omega (arith, length-append xs ys)

  pub length-take : (n : ℕ) (xs : List A) → length (take n xs) ≡ min n (length xs)
  length-take zero xs = omega arith
  length-take (suc n) [] = omega arith
  length-take (suc n) (x ∷ xs) = omega (arith, length-take n xs)

  pub length-drop : (n : ℕ) (xs : List A) → length (drop n xs) ≡ length xs - n
  length-drop zero xs = omega arith
  length-drop (suc n) [] = omega arith
  length-drop (suc n) (x ∷ xs) = omega (arith, length-drop n xs)
