-- ===== src/Ingestion/Publication/Artifacts/Audited.antt =====
-- app/services/ingestion/publication_artifact_repository.py: its statements among the trails.
use atlas_rag.Common.{
  ℕ, Option, String, Bool-cases, List, any, ◌&&◌, inl, ◌∷◌, ◌==◌, some, arith, inr, none, [], not,
  find, length, refl,
}
use atlas_rag.Ingestion.Publication.Artifacts.{
  insert_chunk, insert_chunks, insert_embedding, insert_embeddings, advance_stage,
  store_chunk_stage, store_embedding_stage, succeed_chunk, succeed_embedding, EmbeddingModel,
  EmbeddingRecord, is_beside, is_embedding_of, chunk_artifact, artifact_id_of, embedding_count,
  is_chunk_manifest, require_count, derived_artifact,
}
use atlas_rag.Database.{StoredChunk, ChunkEmbedding, DocumentVersion, Uuid, Artifact}
use atlas_rag.Ingestion.NativeJobs.{
  ClaimedNativeJob, update_job, finish_attempt, PublishedArtifact, update_attempts, NextStageJob,
}
use atlas_rag.Ingestion.NativeJobs.Finish.{close_success}
use atlas_rag.Ingestion.Publication.{ClaimedPublicationJob}
use atlas_rag.Database.Quiet.{
  IsQuiet, IsQuiet-pure, IsQuiet-bind, IsQuiet-require, IsQuiet-raise_when,
}
use atlas_rag.Ingestion.Chunking.{ChunkRecord, is_empty}
use atlas_rag.Catalog.Enums.{VersionState, IngestionStage}
use atlas_rag.Ingestion.NativeJobs.Audited.Claiming.{LeavesAudited}
use atlas_rag.Database.Leads.{
  Keeps, Leads-bind, Leads-at, Leads-after, Leads-pure, Leads-raise_when,
}
use atlas_rag.Catalog.Transitions.Audit.{IsAudited}
use atlas_rag.Ingestion.NativeJobs.Audited.{worker_transition-IsAuditedAt}
use atlas_rag.Catalog.Transitions.Kept.{
  IsQuiet-IsAuditedAt, insert_artifact-IsQuiet, other_tables-IsAudited,
}
use atlas_rag.Ingestion.NativeJobs.Audited.Ending.{
  locked_job_version-IsAuditedAt, create_next_job-IsQuiet,
}
use atlas_rag.Database.Session.{pure, Session, ◌>>◌, raise_when, require, ServiceError, ◌>>=◌}
use atlas_rag.Catalog.Operations.{insert_artifact}

insert_chunk-IsQuiet : (new : StoredChunk) → IsQuiet (insert_chunk new)
unfolding insert_chunk
insert_chunk-IsQuiet new = record {
  quiet = λ s s' u h. elim (Bool-cases (any (λ c. is_beside new c && (c.id == new.id)) s.chunks)) [
    | inl present ↦ (ground arith, ground arith)
    | inr fresh ↦ (ground arith, ground arith)
  ];
}

insert_chunks-IsQuiet :
    (job : ClaimedNativeJob) (artifact_id : Option Uuid) (key : String) (chunks : List ChunkRecord)
    → IsQuiet (insert_chunks job artifact_id key chunks)
unfolding insert_chunks
insert_chunks-IsQuiet job artifact_id key [] = IsQuiet-pure tt
insert_chunks-IsQuiet job none key (c ∷ chunks) = record { quiet = λ s s' u h. absurd (cc) }
insert_chunks-IsQuiet job (some k) key (c ∷ chunks) =
    IsQuiet-bind (insert_chunk _) _ (insert_chunk-IsQuiet _)
      (λ _. insert_chunks-IsQuiet job (some k) key chunks)

insert_embedding-IsQuiet : (new : ChunkEmbedding) → IsQuiet (insert_embedding new)
unfolding insert_embedding
insert_embedding-IsQuiet new = record {
  quiet = λ s s' u h. elim (Bool-cases (any (is_embedding_of new) s.embeddings)) [
    | inl present ↦ (ground arith, ground arith)
    | inr fresh ↦ (ground arith, ground arith)
  ];
}

insert_embeddings-IsQuiet :
    (job : ClaimedNativeJob) (model : EmbeddingModel) (records : List (Uuid × EmbeddingRecord))
    → IsQuiet (insert_embeddings job model records)
unfolding insert_embeddings
insert_embeddings-IsQuiet job model [] = IsQuiet-pure tt
insert_embeddings-IsQuiet job model ((k, r) ∷ records) =
    IsQuiet-bind (insert_embedding _) _ (insert_embedding-IsQuiet _)
      (λ _. insert_embeddings-IsQuiet job model records)

advance_stage-IsAudited :
    (v : DocumentVersion) (job : ClaimedNativeJob) (worker_id : String) (target : VersionState)
    (stage : IngestionStage) (n : ℕ) (next : Uuid) (now : ℕ)
    → LeavesAudited v (advance_stage job worker_id target stage n next now v)
unfolding advance_stage close_success update_job finish_attempt update_attempts
advance_stage-IsAudited v job worker_id target stage n next now =
    Leads-bind (worker_transition-IsAuditedAt v target worker_id _ none none) (λ w.
      Leads-bind (IsQuiet-IsAuditedAt w (create_next_job-IsQuiet job stage n next)) (λ created.
        Leads-after (close_success job now) (pure (record { id = created; stage = stage }))
          (λ s p. other_tables-IsAudited s (close_success job now s) refl refl p.audited)
          (Leads-pure _ (λ s p. p))))

store_chunk_stage-IsAudited :
    (v : DocumentVersion) (job : ClaimedPublicationJob) (worker_id : String)
    (artifact : PublishedArtifact) (chunks : List ChunkRecord) (n : ℕ) (k next : Uuid) (now : ℕ)
    → LeavesAudited v (store_chunk_stage job worker_id artifact chunks n k next now v)
unfolding store_chunk_stage
store_chunk_stage-IsAudited v job worker_id artifact chunks n k next now =
    let rest : Option Uuid → Session NextStageJob = λ stored.
      insert_chunks job.native stored artifact.object_key chunks
      >> (raise_when (is_empty chunks) ServiceError.no_chunks
          >> advance_stage job.native worker_id VersionState.embedding IngestionStage.embed n next
              now v) in
    Leads-bind (IsQuiet-IsAuditedAt v (insert_artifact-IsQuiet _)) (λ _.
      Leads-at (λ s. artifact_id_of (find (is_chunk_manifest job.native artifact) s.artifacts))
        {rest = rest}
        (λ stored.
          Leads-bind
            (IsQuiet-IsAuditedAt v
              (insert_chunks-IsQuiet job.native stored artifact.object_key chunks))
            (λ _.
              Leads-bind
                (IsQuiet-IsAuditedAt v
                  (IsQuiet-raise_when (is_empty chunks) ServiceError.no_chunks))
                (λ _.
                  advance_stage-IsAudited v job.native worker_id VersionState.embedding
                    IngestionStage.embed n next now))))

counted-IsAudited :
    (v : DocumentVersion) (job : ClaimedNativeJob) (worker_id : String) (count : ℕ) (n : ℕ)
    (next : Uuid) (now : ℕ)
    → LeavesAudited v (
        require_count job count
        >> advance_stage job worker_id VersionState.indexing IngestionStage.index n next now v)
unfolding require_count
counted-IsAudited v job worker_id count n next now =
    Leads-bind
      (Leads-raise_when (λ s. not (embedding_count job s == count))
        ServiceError.embedding_count_differs (λ s h p. p))
      (λ _.
        advance_stage-IsAudited v job worker_id VersionState.indexing IngestionStage.index n next
          now)

store_embedding_stage-IsAudited :
    (v : DocumentVersion) (job : ClaimedPublicationJob) (worker_id : String)
    (artifact : PublishedArtifact) (model : EmbeddingModel)
    (records : List (Uuid × EmbeddingRecord)) (n : ℕ) (k next : Uuid) (now : ℕ)
    → LeavesAudited v (store_embedding_stage job worker_id artifact model records n k next now v)
unfolding store_embedding_stage
store_embedding_stage-IsAudited v job worker_id artifact model records n k next now =
    let rest : Option Artifact → Session NextStageJob = λ manifest.
      require manifest ServiceError.no_chunk_artifact >>= λ source.
      insert_artifact (derived_artifact k job.native artifact (some source.id) none)
      >> (insert_embeddings job.native model records
          >> (require_count job.native (length records)
              >> advance_stage job.native worker_id VersionState.indexing IngestionStage.index n
                  next now v)) in
    Leads-at (chunk_artifact job.native) {rest = rest} (λ manifest.
      Leads-bind (IsQuiet-IsAuditedAt v (IsQuiet-require manifest ServiceError.no_chunk_artifact))
        (λ source. Leads-bind (IsQuiet-IsAuditedAt v (insert_artifact-IsQuiet _)) (λ _.
          Leads-bind (IsQuiet-IsAuditedAt v (insert_embeddings-IsQuiet job.native model records))
            (λ _. counted-IsAudited v job.native worker_id (length records) n next now))))

-- The success of a chunk job keeps the trail of every version complete.
pub succeed_chunk-IsAudited :
    (job : ClaimedPublicationJob) (worker_id : String) (artifact : PublishedArtifact)
    (chunks : List ChunkRecord) (n : ℕ) (k next : Uuid) (now : ℕ)
    → Keeps IsAudited (succeed_chunk job worker_id artifact chunks n k next now)
unfolding succeed_chunk
succeed_chunk-IsAudited job worker_id artifact chunks n k next now =
    Leads-bind (locked_job_version-IsAuditedAt job.native worker_id)
      (λ v. store_chunk_stage-IsAudited v job worker_id artifact chunks n k next now)

-- The success of an embed job keeps the trail of every version complete.
pub succeed_embedding-IsAudited :
    (job : ClaimedPublicationJob) (worker_id : String) (artifact : PublishedArtifact)
    (model : EmbeddingModel) (records : List (Uuid × EmbeddingRecord)) (n : ℕ) (k next : Uuid)
    (now : ℕ)
    → Keeps IsAudited (succeed_embedding job worker_id artifact model records n k next now)
unfolding succeed_embedding
succeed_embedding-IsAudited job worker_id artifact model records n k next now =
    Leads-bind (locked_job_version-IsAuditedAt job.native worker_id)
      (λ v. store_embedding_stage-IsAudited v job worker_id artifact model records n k next now)
