-- ===== src/Ingestion/Publication/Evidence.antt =====
-- app/services/ingestion/publication_evidence.py: what the tables must show of a version before it
-- becomes searchable. The ids of a table are its primary key, so `count(DISTINCT id)` counts rows.
use text.Mathlib.Text.{◌==◌ as str_eq}
use atlas_rag.Common.{
  Bool, Option, List, true, false, count_if, leb, some, ◌&&◌, ◌==◌, any, none, not,
}
use atlas_rag.Database.{
  PublicationKind, SearchTarget, Uuid, Artifact, Store, PublicationAttempt, StoredChunk,
  ChunkEmbedding, IndexPublication, ArtifactType,
}
use atlas_rag.Ingestion.NativeJobs.{ClaimedNativeJob, is_null}
use atlas_rag.Ingestion.Search.{same_target}
use atlas_rag.Catalog.Operations.{same_type}
use atlas_rag.Catalog.StateMachine.{PublicationEvidence}
use atlas_rag.Database.Session.{Session, ◌>>=◌, ◌>>◌, gets, raise_when, ServiceError, pure}
use atlas_rag.Ingestion.Publication.Artifacts.{is_of_job, chunk_artifact}
use atlas_rag.Ingestion.Publication.{is_some}

abbrev pub same_kind : PublicationKind → PublicationKind → Bool
same_kind PublicationKind.lexical PublicationKind.lexical = true
same_kind PublicationKind.vector PublicationKind.vector = true
same_kind _ _ = false

-- `publication_job_id = :job_id AND publication_attempt = :attempt_number`
abbrev pub is_attempt_of : ClaimedNativeJob → Option PublicationAttempt → Bool
is_attempt_of job none = false
is_attempt_of job (some a) = (a.job_id == job.id) && (a.attempt_number == job.attempt_number)

-- A chunk of the version, which a row joins by tenant, collection and chunk.
unfoldable pub joins_chunk :
    ClaimedNativeJob → (tenant_id collection_id chunk_id : Uuid) → StoredChunk → Bool
joins_chunk job t c k chunk =
    is_of_job job chunk.tenant_id chunk.collection_id chunk.document_version_id
    && (t == chunk.tenant_id)
    && (c == chunk.collection_id)
    && (k == chunk.id)

unfoldable pub counts_embedding : ClaimedNativeJob → List StoredChunk → ChunkEmbedding → Bool
counts_embedding job chunks e = any (joins_chunk job e.tenant_id e.collection_id e.chunk_id) chunks

-- A publication of this attempt, at this target, that stands.
unfoldable pub counts_publication :
    ClaimedNativeJob → SearchTarget → PublicationKind → List StoredChunk → IndexPublication → Bool
unfolding same_target
counts_publication job target kind chunks p =
    same_target p.target target
    && is_attempt_of job p.publication
    && same_kind p.publication_kind kind
    && is_null p.deleted_at
    && any (joins_chunk job p.tenant_id p.collection_id p.chunk_id) chunks

abbrev pub is_at_target : SearchTarget → Option SearchTarget → Bool
is_at_target target none = false
is_at_target target (some t) = same_target t target

unfoldable pub is_index_manifest : ClaimedNativeJob → SearchTarget → Artifact → Bool
unfolding same_type same_target
is_index_manifest job target a =
    is_of_job job a.tenant_id a.collection_id a.document_version_id
    && same_type a.artifact_type ArtifactType.index_manifest
    && str_eq a.generator_name "opensearch"
    && is_at_target target a.search_target

-- The two queries of `require_publication_evidence`.
unfoldable pub evidence_of : ClaimedNativeJob → SearchTarget → Store → PublicationEvidence
evidence_of job target s = record {
  chunk_count =
      count_if (λ c. is_of_job job c.tenant_id c.collection_id c.document_version_id) s.chunks;
  embedded_chunk_count = count_if (counts_embedding job s.chunks) s.embeddings;
  lexical_publication_count =
      count_if (counts_publication job target PublicationKind.lexical s.chunks) s.publications;
  vector_publication_count =
      count_if (counts_publication job target PublicationKind.vector s.chunks) s.publications;
  chunk_manifest_published = is_some (chunk_artifact job s);
  index_manifest_published = any (is_index_manifest job target) s.artifacts;
}

unfoldable pub counts_agree : PublicationEvidence → Bool
counts_agree e =
    leb 1 e.chunk_count
    && (e.embedded_chunk_count == e.chunk_count)
    && (e.lexical_publication_count == e.chunk_count)
    && (e.vector_publication_count == e.chunk_count)

unfoldable pub require_publication_evidence :
    ClaimedNativeJob → SearchTarget → Session PublicationEvidence
require_publication_evidence job target = do
  evidence ← gets (evidence_of job target)
  raise_when (not (counts_agree evidence)) ServiceError.evidence_incomplete
  pure evidence
