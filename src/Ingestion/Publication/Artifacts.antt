-- ===== src/Ingestion/Publication/Artifacts.antt =====
-- app/services/ingestion/publication_artifact_repository.py: the success of a chunk and of an embed
-- job. A manifest that is read while its rows are inserted is the list of its records; a record
-- that cannot be read rolls the transaction back.
pub mod Audited
use text.Mathlib.Text.{◌==◌ as str_eq}
use atlas_rag.Common.{
  ℕ, String, Option, Bool, List, ◌==◌, ◌&&◌, some, find, count_if, ◌∷◌, none, any, if◌then◌else◌,
  [], not, length,
}
use atlas_rag.Ingestion.Chunking.{ChunkRecord, is_empty}
use atlas_rag.Database.{
  Uuid, StoredChunk, ChunkEmbedding, Artifact, Store, SearchTarget, DocumentVersion, ArtifactType,
  EventKey,
}
use atlas_rag.Ingestion.NativeJobs.{
  ClaimedNativeJob, PublishedArtifact, NextStageJob, worker_transition,
}
use atlas_rag.Catalog.Operations.{same_type, insert_artifact}
use atlas_rag.Ingestion.Publication.{ClaimedPublicationJob}
use atlas_rag.Database.Session.{
  Session, pure, ◌>>=◌, ◌>>◌, gets, require, raise_when, ServiceError, Constraint, modify,
}
use atlas_rag.Catalog.Enums.{VersionState, IngestionStage}
use atlas_rag.Ingestion.NativeJobs.Finish.{locked_job_version, create_next_job, close_success}

pub record EmbeddingRecord : Type 0 where
  pub chunk_id : Uuid
  pub checksum_sha256 : String

-- The arguments of `succeed_embedding` that name the model and the stored vectors.
pub record EmbeddingModel : Type 0 where
  pub vector_object_key : String
  pub provider : String
  pub model_name : String
  pub model_version : String
  pub dimensions : ℕ

-- `_insert_derived_artifact`
unfoldable pub derived_artifact :
    (artifact_id : Uuid)
    → ClaimedNativeJob
    → PublishedArtifact
    → (source_artifact_id : Option Uuid) → Option SearchTarget
    → Artifact
derived_artifact artifact_id job a source_artifact_id search_target = record {
  id = artifact_id;
  tenant_id = job.tenant_id;
  collection_id = job.collection_id;
  document_version_id = job.document_version_id;
  source_artifact_id = source_artifact_id;
  artifact_type = a.artifact_type;
  object_key = a.object_key;
  generator_name = a.generator_name;
  generator_version = a.generator_version;
  checksum_sha256 = a.checksum_sha256;
  size_bytes = a.size_bytes;
  search_target = search_target;
}

-- The rows of a table that belong to the version of a job.
abbrev pub is_of_job :
    ClaimedNativeJob → (tenant_id collection_id document_version_id : Uuid) → Bool
is_of_job job t c v =
    (t == job.tenant_id) && (c == job.collection_id) && (v == job.document_version_id)

-- The manifest that `succeed_chunk` has just stored, or one that was stored before.
unfoldable pub is_chunk_manifest : ClaimedNativeJob → PublishedArtifact → Artifact → Bool
unfolding same_type
is_chunk_manifest job published a =
    is_of_job job a.tenant_id a.collection_id a.document_version_id
    && same_type a.artifact_type ArtifactType.chunk_manifest
    && str_eq a.generator_name published.generator_name
    && str_eq a.generator_version published.generator_version
    && str_eq a.checksum_sha256 published.checksum_sha256

abbrev pub artifact_id_of : Option Artifact → Option Uuid
artifact_id_of none = none
artifact_id_of (some a) = some a.id

unfoldable pub stored_chunk :
    ClaimedNativeJob → (artifact_id : Uuid) → (object_key : String) → ChunkRecord → StoredChunk
stored_chunk job artifact_id object_key c = record {
  id = c.chunk_id;
  tenant_id = job.tenant_id;
  collection_id = job.collection_id;
  document_version_id = job.document_version_id;
  source_artifact_id = artifact_id;
  ordinal = c.ordinal;
  page_start = c.page_start;
  page_end = c.page_end;
  content_sha256 = c.content_sha256;
  content_object_key = object_key;
  token_count = c.token_count;
}

-- The chunks of the version that a new one belongs to.
abbrev pub is_beside : StoredChunk → StoredChunk → Bool
is_beside new c =
    (c.tenant_id == new.tenant_id)
    && (c.collection_id == new.collection_id)
    && (c.document_version_id == new.document_version_id)

-- `INSERT INTO chunks ... ON CONFLICT ON CONSTRAINT uq_chunks_version_id DO NOTHING`. A clash on the
-- primary key or on `uq_chunks_ordinal` is raised.
unfoldable pub insert_chunk : StoredChunk → Session (Unit {0})
insert_chunk new = do
  present ← gets (λ s. any (λ c. is_beside new c && (c.id == new.id)) s.chunks)
  if present then pure tt else do
    taken ← gets (λ s. any (λ c. c.id == new.id) s.chunks)
    raise_when taken (ServiceError.integrity Constraint.chunk_id)
    numbered ← gets (λ s. any (λ c. is_beside new c && (c.ordinal == new.ordinal)) s.chunks)
    raise_when numbered (ServiceError.integrity Constraint.chunk_ordinal)
    modify (λ s. record s { chunks = new ∷ s.chunks })

-- `_insert_chunk` for each chunk; the column of the source must not be null.
unfoldable pub insert_chunks :
    ClaimedNativeJob → Option Uuid → (object_key : String) → List ChunkRecord → Session (Unit {0})
unfolding stored_chunk
insert_chunks job artifact_id object_key [] = pure tt
insert_chunks job artifact_id object_key (c ∷ chunks) = do
  source ← require artifact_id (ServiceError.integrity Constraint.chunk_source)
  insert_chunk (stored_chunk job source object_key c)
  insert_chunks job artifact_id object_key chunks

-- `job.source_document_version_id == job.document_version_id`
unfoldable pub is_original_run : ClaimedPublicationJob → Bool
is_original_run job = job.source_document_version_id == job.native.document_version_id

-- The last statements of the stages: the transition, the job of the next stage, `_complete_job`.
unfoldable pub advance_stage :
    ClaimedNativeJob
    → (worker_id : String) → VersionState
    → IngestionStage
    → (max_attempts : ℕ) → (next_job_id : Uuid) → (now : ℕ) → DocumentVersion
    → Session NextStageJob
advance_stage job worker_id target stage max_attempts next_job_id now locked = do
  moved ← worker_transition locked target worker_id (EventKey.worker_state job.id target) none none
  created ← create_next_job job stage max_attempts next_job_id
  modify (close_success job now)
  pure (record { id = created; stage = stage })

-- The statements of `succeed_chunk` after the fence.
unfoldable pub store_chunk_stage :
    ClaimedPublicationJob
    → (worker_id : String) → PublishedArtifact
    → List ChunkRecord
    → (max_attempts : ℕ) → (artifact_id next_job_id : Uuid) → (now : ℕ) → DocumentVersion
    → Session NextStageJob
unfolding derived_artifact
store_chunk_stage job worker_id artifact chunks max_attempts artifact_id next_job_id now locked = do
  insert_artifact (
      derived_artifact artifact_id job.native artifact
        (if is_original_run job then some job.normalized_artifact_id else none) none)
  stored ← gets (λ s. artifact_id_of (find (is_chunk_manifest job.native artifact) s.artifacts))
  insert_chunks job.native stored artifact.object_key chunks
  raise_when (is_empty chunks) ServiceError.no_chunks
  advance_stage job.native worker_id VersionState.embedding IngestionStage.embed max_attempts
      next_job_id now locked

unfoldable pub succeed_chunk :
    ClaimedPublicationJob
    → (worker_id : String) → PublishedArtifact
    → List ChunkRecord
    → (max_attempts : ℕ) → (artifact_id next_job_id : Uuid) → (now : ℕ) → Session NextStageJob
succeed_chunk job worker_id artifact chunks max_attempts artifact_id next_job_id now = do
  locked ← locked_job_version job.native worker_id
  store_chunk_stage job worker_id artifact chunks max_attempts artifact_id next_job_id now locked

-- `_chunk_artifact_id`: the newest manifest of the version.
unfoldable pub chunk_artifact : ClaimedNativeJob → Store → Option Artifact
unfolding same_type
chunk_artifact job s =
    find
      (λ a.
        is_of_job job a.tenant_id a.collection_id a.document_version_id
        && same_type a.artifact_type ArtifactType.chunk_manifest)
      s.artifacts

unfoldable pub new_embedding :
    ClaimedNativeJob → EmbeddingModel → (embedding_id : Uuid) → EmbeddingRecord → ChunkEmbedding
new_embedding job model embedding_id r = record {
  id = embedding_id;
  tenant_id = job.tenant_id;
  collection_id = job.collection_id;
  document_version_id = job.document_version_id;
  chunk_id = r.chunk_id;
  provider = model.provider;
  model_name = model.model_name;
  model_version = model.model_version;
  dimensions = model.dimensions;
  vector_object_key = model.vector_object_key;
  vector_checksum_sha256 = r.checksum_sha256;
}

-- `uq_chunk_embeddings_model`
unfoldable pub is_embedding_of : ChunkEmbedding → ChunkEmbedding → Bool
is_embedding_of new e =
    (e.tenant_id == new.tenant_id)
    && (e.collection_id == new.collection_id)
    && (e.chunk_id == new.chunk_id)
    && str_eq e.provider new.provider
    && str_eq e.model_name new.model_name
    && str_eq e.model_version new.model_version

-- The foreign key of an embedding and of a publication.
unfoldable pub is_chunk_at :
    (tenant_id collection_id document_version_id chunk_id : Uuid) → StoredChunk → Bool
is_chunk_at t c v k chunk =
    (chunk.tenant_id == t)
    && (chunk.collection_id == c)
    && (chunk.document_version_id == v)
    && (chunk.id == k)

-- `INSERT INTO chunk_embeddings ... ON CONFLICT ON CONSTRAINT uq_chunk_embeddings_model DO NOTHING`
unfoldable pub insert_embedding : ChunkEmbedding → Session (Unit {0})
insert_embedding new = do
  present ← gets (λ s. any (is_embedding_of new) s.embeddings)
  if present then pure tt else do
    chunked ← gets (λ s.
        any (is_chunk_at new.tenant_id new.collection_id new.document_version_id new.chunk_id)
          s.chunks)
    raise_when (not chunked) (ServiceError.integrity Constraint.chunk_missing)
    modify (λ s. record s { embeddings = new ∷ s.embeddings })

-- Each record with the id that is made for its row.
unfoldable pub insert_embeddings :
    ClaimedNativeJob → EmbeddingModel → List (Uuid × EmbeddingRecord) → Session (Unit {0})
unfolding new_embedding
insert_embeddings job model [] = pure tt
insert_embeddings job model ((embedding_id, r) ∷ records) =
    insert_embedding (new_embedding job model embedding_id r) >> insert_embeddings job model records

-- `_require_exact_count`, which is called for this table only.
unfoldable pub embedding_count : ClaimedNativeJob → Store → ℕ
embedding_count job s =
    count_if (λ e. is_of_job job e.tenant_id e.collection_id e.document_version_id) s.embeddings

unfoldable pub require_count : ClaimedNativeJob → (expected : ℕ) → Session (Unit {0})
require_count job expected = do
  differs ← gets (λ s. not (embedding_count job s == expected))
  raise_when differs ServiceError.embedding_count_differs

-- The statements of `succeed_embedding` after the fence.
unfoldable pub store_embedding_stage :
    ClaimedPublicationJob
    → (worker_id : String) → PublishedArtifact
    → EmbeddingModel
    → List (Uuid × EmbeddingRecord)
    → (max_attempts : ℕ) → (artifact_id next_job_id : Uuid) → (now : ℕ) → DocumentVersion
    → Session NextStageJob
unfolding derived_artifact
store_embedding_stage job worker_id artifact model records max_attempts artifact_id next_job_id now
      locked =
    do
      manifest ← gets (chunk_artifact job.native)
      source ← require manifest ServiceError.no_chunk_artifact
      insert_artifact (derived_artifact artifact_id job.native artifact (some source.id) none)
      insert_embeddings job.native model records
      require_count job.native (length records)
      advance_stage job.native worker_id VersionState.indexing IngestionStage.index max_attempts
          next_job_id now locked

unfoldable pub succeed_embedding :
    ClaimedPublicationJob
    → (worker_id : String) → PublishedArtifact
    → EmbeddingModel
    → List (Uuid × EmbeddingRecord)
    → (max_attempts : ℕ) → (artifact_id next_job_id : Uuid) → (now : ℕ) → Session NextStageJob
succeed_embedding job worker_id artifact model records max_attempts artifact_id next_job_id now = do
  locked ← locked_job_version job.native worker_id
  store_embedding_stage job worker_id artifact model records max_attempts artifact_id next_job_id
      now locked
