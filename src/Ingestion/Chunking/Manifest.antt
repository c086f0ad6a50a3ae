-- ===== src/Ingestion/Chunking/Manifest.antt =====
-- app/services/ingestion/chunking.py: the manifest of a version's chunks, written and read. A line
-- has the fields that the reader looks at; a field that a record does not have is none.
pub mod RoundTrip
pub mod Written
use atlas_rag.Common.Result.{Result, ok, err, ◌>>=◌, ◌>>◌, raise_if}
use atlas_rag.Common.{
  ◌==◌, if◌then◌else◌, [], ◌∷◌, none, some, true, false, ◌-◌, ◌+◌, ◌≡◌, ◌++◌, zero, suc, not,
  Option, ℕ, List, Bool, map, ltb, length, ◌&&◌,
}
use atlas_rag.Database.{Uuid}
use atlas_rag.Ingestion.Chunking.{
  Tools, ChunkRecord, Policy, ChunkError, NormalizedPage, too_many_chunks, chunk_page,
  nothing_searchable, is_empty, invalid_chunk, header_missing, tenant_mismatch, version_mismatch,
  invalid_ordinal, count_mismatch,
}

pub data RecordType : Type 0 where
  header chunk manifest : RecordType

pub record Line : Type 0 where
  pub record_type : Option RecordType
  pub tenant_id : Option Uuid
  pub document_version_id : Option Uuid
  pub chunk : Option ChunkRecord
  pub chunk_count : Option ℕ

module _ (tenant_id document_version_id : Uuid) where
  unfoldable pub header_line : Line
  header_line = record {
    record_type = some RecordType.header;
    tenant_id = some tenant_id;
    document_version_id = some document_version_id;
    chunk = none;
    chunk_count = none;
  }

  unfoldable pub chunk_line : ChunkRecord → Line
  chunk_line c = record {
    record_type = some RecordType.chunk;
    tenant_id = some tenant_id;
    document_version_id = some document_version_id;
    chunk = some c;
    chunk_count = none;
  }

unfoldable pub manifest_line : ℕ → Line
manifest_line count = record {
  record_type = some RecordType.manifest;
  tenant_id = none;
  document_version_id = none;
  chunk = none;
  chunk_count = some count;
}

-- The inner loop of `write_chunk_manifest`: each chunk is written and then counted.
unfoldable pub write_chunks :
    (max_chunks count : ℕ) → List ChunkRecord → Result ChunkError (List ChunkRecord)
write_chunks max_chunks count [] = ok []
write_chunks max_chunks count (c ∷ chunks) =
    let rest = write_chunks max_chunks (suc count) chunks in
    if ltb max_chunks (suc count) then err too_many_chunks else rest >>= λ written. ok (c ∷ written)

module _ (tools : Tools) (tenant_id document_version_id : Uuid) (policy : Policy) where
  -- The outer loop, from `count` chunks on.
  unfoldable pub write_pages :
      (count : ℕ) → List NormalizedPage → Result ChunkError (List ChunkRecord)
  write_pages count [] = ok []
  write_pages count (page ∷ pages) =
      chunk_page tools tenant_id document_version_id policy page count >>= (λ chunks.
        write_chunks policy.max_chunks count chunks >>= (λ written.
          write_pages (count + length written) pages >>= λ rest. ok (written ++ rest)))

  unfoldable pub manifest_of : List ChunkRecord → List Line
  manifest_of chunks =
      header_line tenant_id document_version_id
      ∷ (map (chunk_line tenant_id document_version_id) chunks
          ++ (manifest_line (length chunks) ∷ []))

  -- `write_chunk_manifest`: the lines of the file. A file is left as it is when an error is raised;
  -- its caller works in a directory that it removes.
  unfoldable pub write_chunk_manifest : List NormalizedPage → Result ChunkError (List Line)
  write_chunk_manifest pages = write_pages 0 pages >>= λ chunks.
      if length chunks == 0 then err nothing_searchable else ok (manifest_of chunks)

abbrev pub matches_id : Uuid → Option Uuid → Bool
matches_id k none = true
matches_id k (some j) = j == k

abbrev pub is_header : Option RecordType → Bool
is_header (some RecordType.header) = true
is_header _ = false

-- What the fields of a chunk are checked for (`model_validate`).
unfoldable pub is_valid : ChunkRecord → Bool
is_valid c =
    ltb 0 c.page_start
    && ltb 0 c.page_end
    && ltb 0 c.char_end
    && not (is_empty c.text)
    && ltb 0 c.token_count

abbrev pub validated : Option ChunkRecord → Result ChunkError ChunkRecord
validated none = err invalid_chunk
validated (some c) = if is_valid c then ok c else err invalid_chunk

abbrev pub declared_end : Option ℕ → (count : ℕ) → Bool
declared_end none count = false
declared_end (some n) count = n == count

module _ (tenant_id document_version_id : Uuid) where
  unfoldable pub check_line : (first : Bool) → Line → Result ChunkError (Unit {0})
  check_line first line =
      raise_if (first && not (is_header line.record_type)) header_missing
      >> (raise_if (not (matches_id tenant_id line.tenant_id)) tenant_mismatch
          >> raise_if (not (matches_id document_version_id line.document_version_id))
              version_mismatch)

  -- What is done with a line, before the lines after it.
  unfoldable pub read_record :
      (after : (count : ℕ) → Option ℕ → Result ChunkError (List ChunkRecord))
      → (count : ℕ) (declared : Option ℕ) → Option RecordType
      → Line
      → Result ChunkError (List ChunkRecord)
  read_record after count declared (some RecordType.chunk) line = validated line.chunk >>= (λ c.
      raise_if (not (c.ordinal == count)) invalid_ordinal
      >> (after (suc count) declared >>= λ rest. ok (c ∷ rest)))
  read_record after count declared (some RecordType.manifest) line = after count line.chunk_count
  read_record after count declared _ line = after count declared

  -- The loop over the lines, with the chunks counted and the count declared so far.
  unfoldable pub read_lines :
      (first : Bool) (count : ℕ) (declared : Option ℕ)
      → List Line
      → Result ChunkError (List ChunkRecord)
  read_lines first count declared [] =
      if declared_end declared count then ok [] else err count_mismatch
  read_lines first count declared (line ∷ lines) =
      check_line first line
      >> read_record (λ n d. read_lines false n d lines) count declared line.record_type line

  unfoldable pub iter_chunk_manifest : List Line → Result ChunkError (List ChunkRecord)
  iter_chunk_manifest lines = read_lines true 0 none lines
