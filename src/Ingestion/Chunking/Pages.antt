-- ===== src/Ingestion/Chunking/Pages.antt =====
-- app/services/ingestion/chunking.py: the chunks of a page against the windows of its tokens.
use atlas_rag.Common.{
  ◌==◌, [], ◌∷◌, false, ◌-◌, ◌+◌, ◌≡◌, arith, refl, ◌≤◌, ◌<◌, zero, suc, ℕ, List, length, drop,
  take, length-take, length-drop, Bool-cases, leb, inl, inr, ap, All, all, ltb,
}
use atlas_rag.Ingestion.Chunking.{
  last_end, Text, NormalizedPage, Tools, Span, ChunkRecord, slice, is_empty, Policy, chunk_of,
  text_of, chunk_loop, first_start, chunk_page,
}
use atlas_rag.Database.{Uuid}
use atlas_rag.Ingestion.Chunking.Windows.{windows, rejoin, rejoin-windows, windows-sizes}
use atlas_rag.Common.Result.{ok}

-- What the tokenizer's documentation says of the offsets that it gives: each span is not empty and
-- lies within the text, and the spans are in order.
unfoldable pub AreSpans : (size low : ℕ) → List Span → Type 0
AreSpans size low [] = Unit
AreSpans size low ((start, end) ∷ spans) =
    (start < end) × (low ≤ end) × (end ≤ size) × AreSpans size end spans

AreSpans-weaken :
    (size low low' : ℕ) (spans : List Span)
    → low' ≤ low
    → AreSpans size low spans
    → AreSpans size low' spans
unfolding AreSpans
AreSpans-weaken size low low' [] h valid = tt
AreSpans-weaken size low low' ((start, end) ∷ spans) h (a, b, c, rest) = (a, omega arith, c, rest)

AreSpans-drop :
    (size low n : ℕ) (spans : List Span)
    → AreSpans size low spans
    → AreSpans size low (drop n spans)
unfolding AreSpans
AreSpans-drop size low zero spans valid = valid
AreSpans-drop size low (suc n) [] valid = tt
AreSpans-drop size low (suc n) ((start, end) ∷ spans) (a, b, c, rest) =
    AreSpans-weaken size end low (drop n spans) b (AreSpans-drop size end n spans rest)

-- The end of a window is not before the end of its first span, and within the text.
last_end_bounds :
    (size low n start end : ℕ) (spans : List Span)
    → AreSpans size low ((start, end) ∷ spans)
    → (end ≤ last_end (take (suc n) ((start, end) ∷ spans)))
      × (last_end (take (suc n) ((start, end) ∷ spans)) ≤ size)
unfolding AreSpans last_end
last_end_bounds size low zero start end spans (a, b, c, rest) = (omega arith, c)
last_end_bounds size low (suc n) start end [] (a, b, c, rest) = (omega arith, c)
last_end_bounds size low (suc n) start end ((next, after) ∷ spans) (a, b, c, rest) =
    let (more, within) = last_end_bounds size end n next after spans rest in
    (omega (arith, rest.1), within)

pub length-slice :
    (text : Text) (from to : ℕ) → to ≤ length text → length (slice text from to) ≡ to - from
length-slice text from to h =
    omega (arith, length-take {0} (to - from) (drop from text), length-drop {0} from text)

not_empty : {A : Type 0} (xs : List A) → 0 < length xs → is_empty xs ≡ false
not_empty [] h = absurd (omega arith)
not_empty (x ∷ xs) h = refl

-- What holds of every chunk of a page.
pub record IsChunk (page : NormalizedPage) (size : ℕ) (chunk : ChunkRecord) : Type 0 where
  pub tokens : 0 < chunk.token_count
  pub small : chunk.token_count ≤ size
  pub ordered : chunk.char_start < chunk.char_end
  pub within : chunk.char_end ≤ length page.text
  pub text : chunk.text ≡ slice page.text chunk.char_start chunk.char_end
  pub on_page : (chunk.page_start ≡ page.page_number) × (chunk.page_end ≡ page.page_number)

module _ (tools : Tools) (tenant_id document_version_id : Uuid) (policy : Policy)
    (page : NormalizedPage) (first_ordinal : ℕ) where
  -- The chunk of each window, numbered from `index`.
  unfoldable pub numbered : (index : ℕ) → List (List Span) → List ChunkRecord
  numbered index [] = []
  numbered index (w ∷ ws) =
      chunk_of tools tenant_id document_version_id policy page first_ordinal index w
      ∷ numbered (suc index) ws

  window_text :
      (low n start end : ℕ) (spans : List Span)
      → AreSpans (length page.text) low ((start, end) ∷ spans)
      → 0 < n
      → is_empty (
          text_of tools tenant_id document_version_id policy page first_ordinal
            (take n ((start, end) ∷ spans)))
        ≡ false
  unfolding text_of first_start AreSpans
  window_text low zero start end spans valid positive = absurd (omega arith)
  window_text low (suc n) start end spans valid positive =
      let (more, within) = last_end_bounds (length page.text) low n start end spans valid in
      not_empty _ (
        omega (
          arith,
          valid.0,
          length-slice page.text start (last_end (take (suc n) ((start, end) ∷ spans))) within,
        ))

  chunk_loop-numbered :
      (fuel index low : ℕ) (rest : List Span)
      → 0 < policy.chunk_max_tokens
      → AreSpans (length page.text) low rest
      → chunk_loop tools tenant_id document_version_id policy page first_ordinal fuel index rest
        ≡ numbered index (windows policy.chunk_max_tokens policy.chunk_overlap_tokens fuel rest)
  unfolding chunk_loop numbered windows
  chunk_loop-numbered zero index low rest positive valid = refl
  chunk_loop-numbered (suc fuel) index low [] positive valid = refl
  chunk_loop-numbered (suc fuel) index low ((start, end) ∷ spans) positive valid =
      let rest : List Span = (start, end) ∷ spans in
      let size : ℕ = policy.chunk_max_tokens in
      let step : ℕ = size - policy.chunk_overlap_tokens in
      let has_text = window_text low size start end spans valid positive in
      let full : is_empty (take size rest) ≡ false =
        not_empty _ (omega (arith, length-take {0} size rest)) in
      let later =
        chunk_loop-numbered fuel (suc index) low (drop step rest) positive
          (AreSpans-drop (length page.text) low step rest valid) in
      elim (Bool-cases (leb (length rest) size)) [
        | inl last ↦ rw (full, has_text, last) refl
        | inr more ↦
            rw (full, has_text, more)
              (ap
                (◌∷◌ (
                  chunk_of tools tenant_id document_version_id policy page first_ordinal index
                    (take size rest)))
                later)
      ]

  first-IsChunk :
      (index low n start end : ℕ) (spans : List Span)
      → AreSpans (length page.text) low ((start, end) ∷ spans)
      → 0 < n
      → IsChunk page n (
          chunk_of tools tenant_id document_version_id policy page first_ordinal index
            (take n ((start, end) ∷ spans)))
  unfolding chunk_of first_start AreSpans
  first-IsChunk index low zero start end spans valid positive = absurd (omega arith)
  first-IsChunk index low (suc n) start end spans valid positive =
      let (more, inside) = last_end_bounds (length page.text) low n start end spans valid in
      let taken = length-take {0} (suc n) ((start, end) ∷ spans) in
      record {
        tokens = omega arith;
        small = omega arith;
        ordered = omega (arith, valid.0);
        within = inside;
        text = refl;
        on_page = (refl, refl);
      }

  numbered-IsChunk :
      (fuel index low : ℕ) (rest : List Span)
      → 0 < policy.chunk_max_tokens
      → AreSpans (length page.text) low rest
      → All
          (IsChunk page policy.chunk_max_tokens)
          (numbered index (windows policy.chunk_max_tokens policy.chunk_overlap_tokens fuel rest))
  unfolding numbered windows chunk_of first_start AreSpans
  numbered-IsChunk zero index low rest positive valid = tt
  numbered-IsChunk (suc fuel) index low [] positive valid = tt
  numbered-IsChunk (suc fuel) index low ((start, end) ∷ spans) positive valid =
      let rest : List Span = (start, end) ∷ spans in
      let size : ℕ = policy.chunk_max_tokens in
      let step : ℕ = size - policy.chunk_overlap_tokens in
      let here = first-IsChunk index low size start end spans valid positive in
      let later =
        numbered-IsChunk fuel (suc index) low (drop step rest) positive
          (AreSpans-drop (length page.text) low step rest valid) in
      elim (Bool-cases (leb (length rest) size)) [
        | inl last ↦ rw last (here, tt)
        | inr more ↦ rw more (here, later)
      ]

-- The ordinals count up from the first.
abbrev pub AreCounted : ℕ → List ChunkRecord → Type 0
AreCounted n [] = Unit
AreCounted n (chunk ∷ chunks) = (chunk.ordinal ≡ n) × AreCounted (suc n) chunks

numbered-AreCounted :
    (tools : Tools) (t d : Uuid) (policy : Policy) (page : NormalizedPage) (first index n : ℕ)
    (ws : List (List Span))
    → first + index ≡ n
    → AreCounted n (numbered tools t d policy page first index ws)
unfolding numbered chunk_of
numbered-AreCounted tools t d policy page first index n [] e = tt
numbered-AreCounted tools t d policy page first index n (w ∷ ws) e =
    (e, numbered-AreCounted tools t d policy page first (suc index) (suc n) ws (omega arith))

-- The windows that a page's chunks are made of.
pub record IsPartition (policy : Policy) (spans : List Span) (ws : List (List Span)) : Type 0 where
  pub rejoined : rejoin policy.chunk_overlap_tokens ws ≡ spans
  pub sizes : All (λ w. (0 < length w) × (length w ≤ policy.chunk_max_tokens)) ws

module _ (tools : Tools) (t d : Uuid) (policy : Policy) (page : NormalizedPage) (first : ℕ)
    (overlap_smaller : policy.chunk_overlap_tokens < policy.chunk_max_tokens)
    (has_text : all tools.is_space page.text ≡ false)
    (short : length page.text ≤ policy.chunk_page_max_chars)
    (valid : AreSpans (length page.text) 0 (tools.spans page.text)) where
  page_windows : List (List Span)
  page_windows =
      windows policy.chunk_max_tokens policy.chunk_overlap_tokens (length (tools.spans page.text))
        (tools.spans page.text)

  -- A page with text that is not too long is cut into windows of its tokens: each holds at least
  -- one token and no more than the limit, and rejoined with exactly the overlap they are all the
  -- tokens in order. There is one chunk for each window, numbered from the first ordinal on.
  pub chunk_page-IsPartition :
      (ws : List (List Span)) × IsPartition policy (tools.spans page.text) ws
      × (chunk_page tools t d policy page first ≡ ok (numbered tools t d policy page first 0 ws))
  unfolding chunk_page page_windows
  chunk_page-IsPartition =
      let spans : List Span = tools.spans page.text in
      let loop =
        chunk_loop-numbered tools t d policy page first (length spans) 0 0 spans (omega arith)
          valid in
      let fits : ltb policy.chunk_page_max_chars (length page.text) ≡ false = ground arith in
      let apart : (policy.chunk_max_tokens == policy.chunk_overlap_tokens) ≡ false = ground arith in
      let ahead : ltb policy.chunk_max_tokens policy.chunk_overlap_tokens ≡ false = ground arith in
      (
        page_windows,
        record {
          rejoined =
              rejoin-windows policy.chunk_max_tokens policy.chunk_overlap_tokens overlap_smaller
                (length spans) spans (omega arith);
          sizes =
              windows-sizes policy.chunk_max_tokens policy.chunk_overlap_tokens overlap_smaller
                (length spans) spans;
        },
        rw (has_text, fits, apart, ahead) (ap ok loop),
      )

  -- Every chunk of such a page holds between one token and the limit, and its text is the part of
  -- the page between its offsets, which is not empty and lies within the page. The ordinals count
  -- up from the first.
  pub chunk_page-IsChunk :
      (chunks : List ChunkRecord) × (chunk_page tools t d policy page first ≡ ok chunks)
      × All (IsChunk page policy.chunk_max_tokens) chunks
      × AreCounted first chunks
  unfolding chunk_page
  chunk_page-IsChunk =
      let spans : List Span = tools.spans page.text in
      let ws : List (List Span) =
        windows policy.chunk_max_tokens policy.chunk_overlap_tokens (length spans) spans in
      let loop =
        chunk_loop-numbered tools t d policy page first (length spans) 0 0 spans (omega arith)
          valid in
      let fits : ltb policy.chunk_page_max_chars (length page.text) ≡ false = ground arith in
      let apart : (policy.chunk_max_tokens == policy.chunk_overlap_tokens) ≡ false = ground arith in
      let ahead : ltb policy.chunk_max_tokens policy.chunk_overlap_tokens ≡ false = ground arith in
      (
        numbered tools t d policy page first 0 ws,
        rw (has_text, fits, apart, ahead) (ap ok loop),
        numbered-IsChunk tools t d policy page first (length spans) 0 0 spans (omega arith) valid,
        numbered-AreCounted tools t d policy page first 0 first ws (omega arith),
      )
