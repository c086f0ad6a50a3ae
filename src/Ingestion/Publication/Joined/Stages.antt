-- ===== src/Ingestion/Publication/Joined/Stages.antt =====
-- app/services/ingestion/publication_artifact_repository.py, publication_repository.py: the stages
-- that write the chunks and the publications, under the keys of both tables.
use atlas_rag.Common.{
  ℕ, String, List, Option, Bool-cases, any, ◌≡◌, none, inl, not, arith, inr, find, update_where,
  refl, ◌∷◌, [], some,
}
use atlas_rag.Ingestion.Publication.Artifacts.{
  advance_stage, store_chunk_stage, succeed_chunk, insert_chunks, artifact_id_of, is_chunk_manifest,
  derived_artifact, chunk_artifact,
}
use atlas_rag.Ingestion.Publication.Index.{
  upsert_publication, upsert_publications, store_index, prepare_index, republished,
  PublicationRecord, PreparedIndexPublication, has_record_of, is_active_beside, has_place_of,
}
use atlas_rag.Ingestion.Publication.Evidence.{
  require_publication_evidence, counts_agree, evidence_of,
}
use atlas_rag.Ingestion.NativeJobs.Finish.{close_success}
use atlas_rag.Database.{DocumentVersion, IndexPublication, SearchTarget, Uuid, Artifact}
use atlas_rag.Ingestion.Publication.{ClaimedPublicationJob}
use atlas_rag.Ingestion.NativeJobs.{
  ClaimedNativeJob, update_job, PublishedArtifact, finish_attempt, update_attempts, NextStageJob,
}
use atlas_rag.Database.Leads.{
  Keeps, Leads-bind, Leads-pure, Leads-raise_when, Leads-require, Leads-after, Leads-at,
}
use atlas_rag.Ingestion.Chunking.{ChunkRecord, is_empty}
use atlas_rag.Ingestion.Publication.Joined.{
  IsJoined, other_tables-IsJoined, joined-update, insert_chunks-IsJoined, has_chunk,
}
use atlas_rag.Catalog.Enums.{VersionState, IngestionStage}
use atlas_rag.Database.Session.{Session, ◌>>◌, raise_when, ServiceError, pure, require, ◌>>=◌}
use atlas_rag.Ingestion.Publication.Joined.Statements.{
  worker_transition-IsJoined, insert_artifact-IsJoined, create_next_job-IsJoined,
  locked_job_version-IsJoined,
}
use atlas_rag.Catalog.StateMachine.{PublicationEvidence}
use atlas_rag.Catalog.Operations.{insert_artifact}

advance_stage-IsJoined :
    (v : DocumentVersion) (job : ClaimedNativeJob) (worker_id : String) (target : VersionState)
    (stage : IngestionStage) (n : ℕ) (next : Uuid) (now : ℕ)
    → Keeps IsJoined (advance_stage job worker_id target stage n next now v)
unfolding advance_stage close_success update_job finish_attempt update_attempts
advance_stage-IsJoined v job worker_id target stage n next now =
    Leads-bind (worker_transition-IsJoined v target worker_id _ none none) (λ w.
      Leads-bind (create_next_job-IsJoined job stage n next) (λ created.
        Leads-after (close_success job now) (pure (record { id = created; stage = stage }))
          (λ s p. other_tables-IsJoined s (close_success job now s) refl refl p)
          (Leads-pure _ (λ s p. p))))

store_chunk_stage-IsJoined :
    (v : DocumentVersion) (job : ClaimedPublicationJob) (worker_id : String)
    (artifact : PublishedArtifact) (chunks : List ChunkRecord) (n : ℕ) (k next : Uuid) (now : ℕ)
    → Keeps IsJoined (store_chunk_stage job worker_id artifact chunks n k next now v)
unfolding store_chunk_stage
store_chunk_stage-IsJoined v job worker_id artifact chunks n k next now =
    let rest : Option Uuid → Session NextStageJob = λ stored.
      insert_chunks job.native stored artifact.object_key chunks
      >> (raise_when (is_empty chunks) ServiceError.no_chunks
          >> advance_stage job.native worker_id VersionState.embedding IngestionStage.embed n next
              now v) in
    Leads-bind (insert_artifact-IsJoined _) (λ _.
      Leads-at (λ s. artifact_id_of (find (is_chunk_manifest job.native artifact) s.artifacts))
        {rest = rest}
        (λ stored.
          Leads-bind (insert_chunks-IsJoined job.native stored artifact.object_key chunks) (λ _.
            Leads-bind (Leads-raise_when (λ s. is_empty chunks) ServiceError.no_chunks (λ s h p. p))
              (λ _.
                advance_stage-IsJoined v job.native worker_id VersionState.embedding
                  IngestionStage.embed n next now))))

pub succeed_chunk-IsJoined :
    (job : ClaimedPublicationJob) (worker_id : String) (artifact : PublishedArtifact)
    (chunks : List ChunkRecord) (n : ℕ) (k next : Uuid) (now : ℕ)
    → Keeps IsJoined (succeed_chunk job worker_id artifact chunks n k next now)
unfolding succeed_chunk
succeed_chunk-IsJoined job worker_id artifact chunks n k next now =
    Leads-bind (locked_job_version-IsJoined job.native worker_id)
      (λ v. store_chunk_stage-IsJoined v job worker_id artifact chunks n k next now)

upsert_publication-IsJoined : (new : IndexPublication) → Keeps IsJoined (upsert_publication new)
unfolding upsert_publication republished
upsert_publication-IsJoined new = record {
  leads = λ s s' u p h. elim (Bool-cases (any (has_record_of new) s.publications)) [
    | inl recorded ↦ absurd (ground arith)
    | inr free ↦ elim (Bool-cases (any (is_active_beside new) s.publications)) [
      | inl active ↦ absurd (ground arith)
      | inr alone ↦ elim (Bool-cases (any (has_place_of new) s.publications)) [
        | inl present ↦
            let same : s' ≡ record s {
              publications = update_where (has_place_of new) (republished new) s.publications;
            } =
              ground arith in
            rw same (record {
              apart = p.apart;
              joined =
                  joined-update (has_place_of new) (republished new) s.chunks s.publications
                    (λ _. refl) p.joined;
            })
        | inr unpublished ↦ elim (Bool-cases (has_chunk s.chunks new)) [
          | inl chunked ↦
              let same : s' ≡ record s { publications = new ∷ s.publications } = ground arith in
              rw same (record { apart = p.apart; joined = (chunked, p.joined) })
          | inr missing ↦ absurd (ground arith)
        ]
      ]
    ]
  ];
}

upsert_publications-IsJoined :
    (job : ClaimedNativeJob) (target : SearchTarget) (now : ℕ)
    (records : List (Uuid × PublicationRecord))
    → Keeps IsJoined (upsert_publications job target now records)
unfolding upsert_publications
upsert_publications-IsJoined job target now [] = Leads-pure tt (λ s p. p)
upsert_publications-IsJoined job target now ((k, r) ∷ records) =
    Leads-bind (upsert_publication-IsJoined _)
      (λ _. upsert_publications-IsJoined job target now records)

pub require_evidence-IsJoined :
    (job : ClaimedNativeJob) (target : SearchTarget)
    → Keeps IsJoined (require_publication_evidence job target)
unfolding require_publication_evidence
require_evidence-IsJoined job target =
    let rest : PublicationEvidence → Session PublicationEvidence =
      λ e. raise_when (not (counts_agree e)) ServiceError.evidence_incomplete >> pure e in
    Leads-at (evidence_of job target) {rest = rest} (λ e.
      Leads-bind
        (Leads-raise_when (λ s. not (counts_agree e)) ServiceError.evidence_incomplete (λ s h p. p))
        (λ _. Leads-pure e (λ s p. p)))

store_index-IsJoined :
    (job : ClaimedNativeJob) (artifact : PublishedArtifact) (target : SearchTarget)
    (records : List (Uuid × PublicationRecord)) (k : Uuid) (now : ℕ) (v : DocumentVersion)
    → Keeps IsJoined (store_index job artifact target records k now v)
unfolding store_index
store_index-IsJoined job artifact target records k now v =
    let rest : Option Artifact → Session PreparedIndexPublication = λ manifest.
      require manifest ServiceError.no_chunk_artifact >>= λ source.
      insert_artifact (derived_artifact k job artifact (some source.id) (some target))
      >> (upsert_publications job target now records
          >> (require_publication_evidence job target >>= λ evidence.
              pure (record { locked_version = v; evidence = evidence; source_targets = [] }))) in
    Leads-at (chunk_artifact job) {rest = rest} (λ manifest.
      Leads-bind (Leads-require manifest ServiceError.no_chunk_artifact (λ a s e p. p)) (λ source.
        Leads-bind (insert_artifact-IsJoined _) (λ _.
          Leads-bind (upsert_publications-IsJoined job target now records) (λ _.
            Leads-bind (require_evidence-IsJoined job target) (λ e. Leads-pure _ (λ s p. p))))))

pub prepare_index-IsJoined :
    (job : ClaimedPublicationJob) (worker_id : String) (artifact : PublishedArtifact)
    (target : SearchTarget) (records : List (Uuid × PublicationRecord)) (k : Uuid) (now : ℕ)
    → Keeps IsJoined (prepare_index job worker_id artifact target records k now)
unfolding prepare_index
prepare_index-IsJoined job worker_id artifact target records k now =
    Leads-bind (locked_job_version-IsJoined job.native worker_id)
      (λ v. store_index-IsJoined job.native artifact target records k now v)
