-- ===== src/Ingestion/Chunking/Manifest/RoundTrip.antt =====
-- app/services/ingestion/chunking.py: a manifest that was written is read back.
use atlas_rag.Common.{
  ◌==◌, [], ◌∷◌, none, true, false, ◌+◌, ◌≡◌, ◌++◌, arith, refl, suc, map, List, All, ==_self,
  length, ==_iff,
}
use atlas_rag.Common.Result.{ok}
use atlas_rag.Ingestion.Chunking.Manifest.{
  check_line, read_lines, iter_chunk_manifest, chunk_line, read_record, manifest_of, manifest_line,
  header_line, is_valid,
}
use atlas_rag.Ingestion.Chunking.{ChunkRecord, Tools, Policy}
use atlas_rag.Database.{Uuid}
use atlas_rag.Ingestion.Chunking.Pages.{AreCounted}

abbrev pub AreValid : List ChunkRecord → Type 0
AreValid = All (λ c. is_valid c ≡ true)

read_chunks :
    (t d n m : Uuid) (chunks : List ChunkRecord)
    → AreCounted n chunks
    → AreValid chunks
    → n + length chunks ≡ m
    → read_lines t d false n none (map (chunk_line t d) chunks ++ (manifest_line m ∷ []))
      ≡ ok chunks
unfolding read_lines read_record check_line chunk_line manifest_line
read_chunks t d n m [] counted valid e = let e' : n ≡ m = omega arith in rw (e', ==_self m) refl
read_chunks t d n m (c ∷ chunks) counted valid e =
    let here : (c.ordinal == n) ≡ true = (==_iff c.ordinal n).1 counted.0 in
    let rest = read_chunks t d (suc n) m chunks counted.1 valid.1 (omega arith) in
    rw (==_self t, ==_self d, valid.0, here, rest) refl

-- A manifest of chunks that are valid and numbered from 0 on is read back as these chunks.
pub iter_chunk_manifest-manifest_of :
    (t d : Uuid) (tools : Tools) (policy : Policy) (chunks : List ChunkRecord)
    → AreCounted 0 chunks
    → AreValid chunks
    → iter_chunk_manifest t d (manifest_of tools t d policy chunks) ≡ ok chunks
unfolding iter_chunk_manifest manifest_of read_lines read_record check_line header_line
iter_chunk_manifest-manifest_of t d tools policy chunks counted valid =
    rw (==_self t, ==_self d) (read_chunks t d 0 (length chunks) chunks counted valid (omega arith))
