-- ===== src/Ingestion/Chunking/Bounds.antt =====
-- app/services/ingestion/chunking.py: where the blocks of a page lie in a chunk.
use atlas_rag.Common.{
  [], ◌∷◌, none, some, true, ◌-◌, ◌+◌, ◌≡◌, arith, refl, ◌≤◌, ◌<◌, suc, ℕ, List, take, drop, length,
  Bool-cases, max, inl, Option-cases, inr, leb, ◌||◌, min,
}
use atlas_rag.Ingestion.Chunking.{
  starts_with, find_at, find_from, bounds_from, block_bounds, Text, bound_of, NormalizedPage, slice,
  BlockBound, TextBlock,
}
use atlas_rag.Ingestion.Chunking.Windows.{drop-drop}

starts_with-take : (sub text : Text) → starts_with sub text ≡ true → take (length sub) text ≡ sub
unfolding starts_with
starts_with-take [] text h = refl
starts_with-take (c ∷ sub) [] h = cc
starts_with-take (c ∷ sub) (d ∷ text) h = ground (arith, starts_with-take sub text)

find_at-found :
    (sub text : Text) (at i : ℕ)
    → find_at sub text at ≡ some i
    → (k : ℕ) × (i ≡ at + k) × (starts_with sub (drop k text) ≡ true)
unfolding find_at
find_at-found sub [] at i h = (0, ground arith, ground arith)
find_at-found sub (c ∷ text) at i h = elim (Bool-cases (starts_with sub (c ∷ text))) [
  | inl here ↦ (0, ground arith, here)
  | inr later ↦
      let (k, e, there) = find_at-found sub text (suc at) i (rw later at h) in
      (suc k, omega arith, there)
]

-- A block is found at or after the cursor, where its text stands.
pub find_from-found :
    (sub text : Text) (cursor i : ℕ)
    → find_from sub text cursor ≡ some i
    → (cursor ≤ i) × (slice text i (i + length sub) ≡ sub)
unfolding find_from
find_from-found sub text cursor i h =
    let (k, e, there) = find_at-found sub (drop cursor text) cursor i h in
    let same : drop k (drop cursor text) ≡ drop i text = drop-drop k cursor i text (omega arith) in
    let long : (i + length sub) - i ≡ length sub = omega arith in
    (omega arith, rw long (starts_with-take sub (drop i text) (rw same at there)))

-- Bounds in order, between two offsets.
abbrev pub AreInside : (low high : ℕ) → List BlockBound → Type 0
AreInside low high [] = Unit
AreInside low high (b ∷ bounds) =
    (low ≤ b.char_start)
    × (b.char_start ≤ b.char_end)
    × (b.char_end ≤ high)
    × AreInside b.char_end high bounds

bounds_from-nil : (text : Text) (from to cursor : ℕ) → bounds_from text from to cursor [] ≡ []
unfolding bounds_from
bounds_from-nil text from to cursor = refl

bounds_from-missing :
    (text : Text) (from to cursor : ℕ) (block : TextBlock) (blocks : List TextBlock)
    → find_from block.text text cursor ≡ none
    → bounds_from text from to cursor (block ∷ blocks) ≡ bounds_from text from to cursor blocks
unfolding bounds_from
bounds_from-missing text from to cursor block blocks h = rw (h, bounds_from)

bounds_from-found :
    (text : Text) (from to cursor i : ℕ) (block : TextBlock) (blocks : List TextBlock)
    → find_from block.text text cursor ≡ some i
    → bounds_from text from to cursor (block ∷ blocks)
      ≡ bound_of block i from to (bounds_from text from to (i + length block.text) blocks)
unfolding bounds_from
bounds_from-found text from to cursor i block blocks h = rw (h, bounds_from)

bound_of-AreInside :
    (block : TextBlock) (i from to low : ℕ) (rest : List BlockBound)
    → from ≤ to
    → low ≤ max i from
    → AreInside (min (i + length block.text) to) to rest
    → AreInside low to rest
    → AreInside low to (bound_of block i from to rest)
unfolding bound_of
bound_of-AreInside block i from to low rest ordered below later outside =
    elim (Bool-cases (leb (i + length block.text) from || leb to i)) [
      | inl beside ↦ rw beside outside
      | inr meets ↦
          let started : from < i + length block.text = ground arith in
          let before : i < to = ground arith in
          rw meets (omega arith, omega arith, omega arith, later)
    ]

bounds_from-AreInside :
    (text : Text) (from to low cursor : ℕ) (blocks : List TextBlock)
    → from ≤ to
    → low ≤ max cursor from
    → AreInside low to (bounds_from text from to cursor blocks)
bounds_from-AreInside text from to low cursor [] ordered below =
    rw (bounds_from-nil text from to cursor) tt
bounds_from-AreInside text from to low cursor (block ∷ blocks) ordered below =
    elim (Option-cases (find_from block.text text cursor)) [
      | inl missing ↦
          rw (bounds_from-missing text from to cursor block blocks missing)
            (bounds_from-AreInside text from to low cursor blocks ordered below)
      | inr (i, found) ↦
          let (after, same) = find_from-found block.text text cursor i found in
          let end : ℕ = i + length block.text in
          rw (bounds_from-found text from to cursor i block blocks found) (
            bound_of-AreInside block i from to low (bounds_from text from to end blocks) ordered
              (omega arith)
              (bounds_from-AreInside text from to (min end to) end blocks ordered (omega arith))
              (bounds_from-AreInside text from to low end blocks ordered (omega arith)))
    ]

-- The bounds of a chunk's blocks lie within the chunk, are not inverted, do not overlap and are in
-- the order of the page.
pub block_bounds-AreInside :
    (page : NormalizedPage) (from to : ℕ)
    → from ≤ to
    → AreInside from to (block_bounds page from to)
unfolding block_bounds
block_bounds-AreInside page from to ordered =
    bounds_from-AreInside page.text from to from 0 page.blocks ordered (omega arith)
