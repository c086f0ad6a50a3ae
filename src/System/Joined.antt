-- ===== src/System/Joined.antt =====
-- app/services/ingestion: the transactions that write chunks and publications, under the keys of
-- both tables.
use atlas_rag.Common.{ℕ, List, String}
use atlas_rag.System.{Command}
use atlas_rag.Ingestion.Publication.{ClaimedPublicationJob}
use atlas_rag.Database.Session.{Session}
use atlas_rag.Ingestion.NativeJobs.{PublishedArtifact}
use atlas_rag.Database.{SearchTarget, Uuid}
use atlas_rag.Ingestion.Chunking.{ChunkRecord}
use atlas_rag.Ingestion.Publication.Index.{PublicationRecord}

-- A transaction that writes chunks or publications.
pub data WritesIndex : Command → Type 0 where
  chunks :
      (job : ClaimedPublicationJob) (worker_id : String) (artifact : PublishedArtifact)
      (records : List ChunkRecord) (n k next now : ℕ)
      → WritesIndex (Command.chunk_success job worker_id artifact records n k next now)
  fence :
      (job : ClaimedPublicationJob) (worker_id : String) (target : SearchTarget) (ids : ℕ → Uuid)
      (now : ℕ)
      → WritesIndex (Command.index_fencing job worker_id target ids now)
  publications :
      (job : ClaimedPublicationJob) (worker_id : String) (artifact : PublishedArtifact)
      (target : SearchTarget) (records : List (Uuid × PublicationRecord)) (k now : ℕ)
      → WritesIndex (Command.index_publishing job worker_id artifact target records k now)
  activation :
      (job : ClaimedPublicationJob) (worker_id : String) (target : SearchTarget) (expected : ℕ)
      (ids : ℕ → Uuid) (now : ℕ)
      → WritesIndex (Command.activating job worker_id target expected ids now)
