-- ===== src/Tests/Chunking.antt =====
use atlas_rag.Ingestion.Chunking.{
  Policy, Tools, NormalizedPage, Text, ChunkError, Span, ChunkRecord, block_bounds, chunk_page,
  chunk_loop, chunk_of, text_of, first_start, last_end, bounds_from, find_from, find_at,
  starts_with, bound_of,
}
use atlas_rag.Common.{
  ℕ, List, ◌==◌, ◌∷◌, all, length, suc, [], arith, none, ◌≡◌, All, ◌<◌, ◌≤◌, refl,
}
use atlas_rag.Ingestion.Chunking.Pages.{
  AreSpans, IsPartition, numbered, chunk_page-IsPartition, IsChunk, AreCounted, chunk_page-IsChunk,
}
use atlas_rag.Common.Result.{Result, ok, err}
use atlas_rag.Ingestion.Chunking.Bounds.{AreInside, block_bounds-AreInside}
use atlas_rag.Ingestion.Chunking.Manifest.{
  Line, write_chunk_manifest, write_pages, iter_chunk_manifest, write_chunks, manifest_of,
  header_line, chunk_line, manifest_line,
}
use atlas_rag.Ingestion.Chunking.Manifest.Written.{write_chunk_manifest-iter_chunk_manifest, IsPage}

-- A page of four letters with one block, cut into windows of two tokens that overlap by one.

abbrev policy : Policy
policy = record {
  chunk_max_tokens = 2;
  chunk_overlap_tokens = 1;
  chunk_page_max_chars = 10;
  max_chunks = 5;
}

-- A token for each letter.
unfoldable letters_from : (start : ℕ) → Text → List Span
letters_from start [] = []
letters_from start (c ∷ text) = (start, suc start) ∷ letters_from (suc start) text

abbrev tools : Tools
tools = record {
  spans = letters_from 0;
  sha256 = λ text. "hash";
  uuid5 = λ name. name.ordinal;
  is_space = λ c. c == 32;
}

abbrev page : NormalizedPage
page = record {
  page_number = 1;
  text = 97 ∷ 98 ∷ 99 ∷ [];
  blocks = (record { ordinal = 0; text = 98 ∷ 99 ∷ []; bounds = none }) ∷ [];
}

chunking : Unit {0}
unfolding letters_from AreSpans chunk_page chunk_loop chunk_of text_of first_start last_end
    block_bounds bounds_from find_from find_at starts_with bound_of numbered write_chunk_manifest
    write_pages write_chunks manifest_of header_line chunk_line manifest_line iter_chunk_manifest
    IsPage
chunking = tt

abbrev lines_of : Result ChunkError (List Line) → List Line
lines_of (ok lines) = lines
lines_of (err e) = []

abbrev lines : List Line
lines = lines_of (write_chunk_manifest tools 1 7 policy (page ∷ []))

page-AreSpans : AreSpans (length page.text) 0 (tools.spans page.text)
unfolding chunking all
page-AreSpans = (
  omega arith,
  omega arith,
  omega arith,
  (omega arith, omega arith, omega arith, (omega arith, omega arith, omega arith, tt)),
)

chunk_page-IsPartition_example :
    (ws : List (List Span)) × IsPartition policy (tools.spans page.text) ws
    × (chunk_page tools 1 7 policy page 0 ≡ ok (numbered tools 1 7 policy page 0 0 ws))
unfolding chunking all
chunk_page-IsPartition_example =
    chunk_page-IsPartition tools 1 7 policy page 0 (omega arith) refl (omega arith) page-AreSpans

chunk_page-IsChunk_example :
    (chunks : List ChunkRecord) × (chunk_page tools 1 7 policy page 3 ≡ ok chunks)
    × All (IsChunk page 2) chunks
    × AreCounted 3 chunks
unfolding chunking all
chunk_page-IsChunk_example =
    chunk_page-IsChunk tools 1 7 policy page 3 (omega arith) refl (omega arith) page-AreSpans

block_bounds-AreInside_example : AreInside 0 2 (block_bounds page 0 2)
block_bounds-AreInside_example = block_bounds-AreInside page 0 2 (omega arith)

write_chunk_manifest-iter_chunk_manifest_example :
    (chunks : List ChunkRecord) × (write_pages tools 1 7 policy 0 (page ∷ []) ≡ ok chunks)
    × (iter_chunk_manifest 1 7 lines ≡ ok chunks)
    × (0 < length chunks)
    × (length chunks ≤ 5)
    × AreCounted 0 chunks
unfolding chunking all
write_chunk_manifest-iter_chunk_manifest_example =
    write_chunk_manifest-iter_chunk_manifest tools 1 7 policy (omega arith) (page ∷ []) lines
      (((omega arith, page-AreSpans), tt)) refl
