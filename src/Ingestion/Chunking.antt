-- ===== src/Ingestion/Chunking.antt =====
-- app/services/ingestion/chunking.py: the chunks of a page, and the manifest of a version. A text is
-- the list of its code points. The tokenizer, the hash, the names' UUIDs and `str.isspace` are
-- arguments, in `Tools`. A line of the manifest is the object that it encodes: JSON and the file
-- give back what was written.
pub mod Windows
pub mod Bounds
pub mod Pages
pub mod Manifest
use atlas_rag.Common.{
  ◌==◌, if◌then◌else◌, [], ◌∷◌, none, some, true, false, ◌-◌, ◌+◌, ◌≡◌, ◌&&◌, ◌||◌, List, ℕ, Bool,
  String, Option, take, length, suc, drop, leb, all, max, min, ltb, zero,
}
use atlas_rag.Database.{Uuid}
use atlas_rag.Common.Result.{Result, ok, err}

abbrev pub Text : Type 0
Text = List ℕ

abbrev pub Span : Type 0
Span = ℕ × ℕ

pub record Policy : Type 0 where
  pub chunk_max_tokens : ℕ
  pub chunk_overlap_tokens : ℕ
  pub chunk_page_max_chars : ℕ
  pub max_chunks : ℕ

-- What a chunk is identified by.
pub record Identity : Type 0 where
  pub tenant_id : Uuid
  pub document_version_id : Uuid
  pub ordinal : ℕ
  pub content_sha256 : String

pub record Tools : Type 0 where
  pub spans : Text → List Span
  pub sha256 : Text → String
  pub uuid5 : Identity → Uuid
  pub is_space : ℕ → Bool

-- `bounds` is the rectangle of the block, which is passed on.
pub record TextBlock : Type 0 where
  pub ordinal : ℕ
  pub text : Text
  pub bounds : Option Uuid

pub record NormalizedPage : Type 0 where
  pub page_number : ℕ
  pub text : Text
  pub blocks : List TextBlock

pub record BlockBound : Type 0 where
  pub block_ordinal : ℕ
  pub char_start : ℕ
  pub char_end : ℕ
  pub bounds : Option Uuid

pub record ChunkRecord : Type 0 where
  pub chunk_id : Uuid
  pub ordinal : ℕ
  pub page_start : ℕ
  pub page_end : ℕ
  pub char_start : ℕ
  pub char_end : ℕ
  pub text : Text
  pub content_sha256 : String
  pub token_count : ℕ
  pub block_bounds : List BlockBound

pub data ChunkError : Type 0 where
  page_too_long too_many_chunks nothing_searchable step_is_zero : ChunkError
  header_missing tenant_mismatch version_mismatch invalid_chunk : ChunkError
  invalid_ordinal count_mismatch : ChunkError

abbrev pub is_empty : {A : Type 0} → List A → Bool
is_empty [] = true
is_empty (x ∷ xs) = false

-- `text[a:b]`
abbrev pub slice : Text → (from to : ℕ) → Text
slice text from to = take (to - from) (drop from text)

unfoldable pub starts_with : Text → Text → Bool
starts_with [] text = true
starts_with (c ∷ sub) [] = false
starts_with (c ∷ sub) (d ∷ text) = (c == d) && starts_with sub text

-- `text.find(sub)`, where the text begins at `at`
unfoldable pub find_at : Text → Text → (at : ℕ) → Option ℕ
find_at sub [] at = if starts_with sub [] then some at else none
find_at sub (c ∷ text) at =
    let rest = find_at sub text (suc at) in if starts_with sub (c ∷ text) then some at else rest

-- `text.find(sub, cursor)`
unfoldable pub find_from : Text → Text → (cursor : ℕ) → Option ℕ
find_from sub text cursor = find_at sub (drop cursor text) cursor

-- The bound of a block that was found at `block_start`, if it meets the chunk.
unfoldable pub bound_of :
    TextBlock → (block_start char_start char_end : ℕ) → List BlockBound → List BlockBound
bound_of block block_start char_start char_end rest =
    let block_end = block_start + length block.text in
    if leb block_end char_start || leb char_end block_start
    then rest
    else (record {
      block_ordinal = block.ordinal;
      char_start = max block_start char_start;
      char_end = min block_end char_end;
      bounds = block.bounds;
    }
        ∷ rest)

-- `_block_bounds` from `cursor` on
unfoldable pub bounds_from :
    Text → (char_start char_end : ℕ) → (cursor : ℕ) → List TextBlock → List BlockBound
bounds_from text char_start char_end cursor [] = []
bounds_from text char_start char_end cursor (block ∷ blocks) =
    elim (find_from block.text text cursor) [
      | none ↦ bounds_from text char_start char_end cursor blocks
      | some block_start ↦
          bound_of block block_start char_start char_end
            (bounds_from text char_start char_end (block_start + length block.text) blocks)
    ]

unfoldable pub block_bounds : NormalizedPage → (char_start char_end : ℕ) → List BlockBound
block_bounds page char_start char_end = bounds_from page.text char_start char_end 0 page.blocks

-- `window[0][0]` and `window[-1][1]`; the window is not empty where they are read.
unfoldable pub first_start : List Span → ℕ
first_start [] = 0
first_start ((start, end) ∷ window) = start

unfoldable pub last_end : List Span → ℕ
last_end [] = 0
last_end ((start, end) ∷ []) = end
last_end (span ∷ next ∷ window) = last_end (next ∷ window)

module _ (tools : Tools) (tenant_id document_version_id : Uuid) (policy : Policy)
    (page : NormalizedPage) (first_ordinal : ℕ) where
  -- The record of the window that is `index` steps from the first.
  unfoldable pub chunk_of : (index : ℕ) → List Span → ChunkRecord
  chunk_of index window =
      let char_start = first_start window in
      let char_end = last_end window in
      let chunk_text = slice page.text char_start char_end in
      let content_sha256 = tools.sha256 chunk_text in
      let ordinal = first_ordinal + index in
      record {
        chunk_id = tools.uuid5 (record {
          tenant_id = tenant_id;
          document_version_id = document_version_id;
          ordinal = ordinal;
          content_sha256 = content_sha256;
        });
        ordinal = ordinal;
        page_start = page.page_number;
        page_end = page.page_number;
        char_start = char_start;
        char_end = char_end;
        text = chunk_text;
        content_sha256 = content_sha256;
        token_count = length window;
        block_bounds = block_bounds page char_start char_end;
      }

  unfoldable pub text_of : List Span → Text
  text_of window = slice page.text (first_start window) (last_end window)

  -- The loop over the windows: `rest` are the spans from the start of the window on. A round takes
  -- one unit of fuel, and every round but the last drops a step of the spans.
  unfoldable pub chunk_loop : (fuel index : ℕ) → List Span → List ChunkRecord
  chunk_loop zero index rest = []
  chunk_loop (suc fuel) index [] = []
  chunk_loop (suc fuel) index (span ∷ spans) =
      let rest = span ∷ spans in
      let window = take policy.chunk_max_tokens rest in
      let later =
        chunk_loop fuel (suc index)
          (drop (policy.chunk_max_tokens - policy.chunk_overlap_tokens) rest) in
      if is_empty window
      then []
      else if is_empty (text_of window)
      then later
      else (chunk_of index window
          ∷ (if leb (length rest) policy.chunk_max_tokens then [] else later))

  -- `_chunk_page`: `range` refuses a step of 0 and is empty for a negative one.
  unfoldable pub chunk_page : Result ChunkError (List ChunkRecord)
  chunk_page =
      if all tools.is_space page.text
      then ok []
      else if ltb policy.chunk_page_max_chars (length page.text)
      then err page_too_long
      else if policy.chunk_max_tokens == policy.chunk_overlap_tokens
      then err step_is_zero
      else if ltb policy.chunk_max_tokens policy.chunk_overlap_tokens
      then ok []
      else ok (chunk_loop (length (tools.spans page.text)) 0 (tools.spans page.text))
