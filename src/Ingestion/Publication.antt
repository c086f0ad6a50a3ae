-- ===== src/Ingestion/Publication.antt =====
-- app/services/ingestion/publication_claim.py and publication_retry.py: the claim of a job that
-- chunks, embeds or indexes, and its retry. Artifacts are stored newest first, so the first that
-- fits is the newest.
pub mod Audited
pub mod Artifacts
pub mod Evidence
pub mod Index
pub mod Joined
pub mod Activation
pub mod Delay
pub mod Inputs
use text.Mathlib.Text.{◌==◌ as str_eq}
use atlas_rag.Ingestion.NativeJobs.{ClaimedNativeJob, find_job, update_job}
use atlas_rag.Ingestion.Ocr.{ocr_stopped_states}
use atlas_rag.Catalog.Enums.{IngestionStage, VersionState, ◌is◌, is_in}
use atlas_rag.Ingestion.NativeJobs.Claim.{
  NativeRow, claimed, is_finished, expire_attempt, held_by, cancel_job, insert_attempt, new_attempt,
  lease_is_live, exhaust_job,
}
use atlas_rag.Catalog.Operations.{same_type}
use atlas_rag.Common.{
  Option, ℕ, String, Bool, List, some, ◌==◌, false, find, [], ◌∷◌, if◌then◌else◌, none, true, ◌&&◌,
  suc, any, zero, ◌+◌, not, leb,
}
use atlas_rag.Database.{DocumentVersion, IngestionJob, Uuid, Artifact, ArtifactType, Store}
use atlas_rag.Database.Session.{
  Session, ◌>>=◌, ◌>>◌, modify, gets, pure, require, ServiceError, raise,
}
use atlas_rag.Catalog.Versions.{find_version}
use atlas_rag.Catalog.Reprocessing.{lineage}

pub record ClaimedPublicationJob : Type 0 where
  pub native : ClaimedNativeJob
  pub stage : IngestionStage
  pub source_document_version_id : Uuid
  pub normalized_document_version_id : Uuid
  pub normalized_artifact_id : Uuid
  pub normalized_object_key : String
  pub normalized_checksum_sha256 : String
  pub normalized_generator_version : String
  pub chunk_object_key : Option String
  pub chunk_checksum_sha256 : Option String
  pub chunk_generator_version : Option String
  pub embedding_object_key : Option String
  pub embedding_checksum_sha256 : Option String
  pub embedding_generator_version : Option String

-- A row of the join in `claim`.
pub record PublicationRow : Type 0 where
  pub native : NativeRow
  pub normalized_version_id : Uuid
  pub normalized : Artifact
  pub chunk : Option Artifact
  pub embedding : Option Artifact

-- The artifacts of one type of a version, in the tenant and the collection of another.
unfoldable pub is_artifact_of : DocumentVersion → Uuid → ArtifactType → Artifact → Bool
unfolding same_type
is_artifact_of v version_id artifact_type a =
    (a.tenant_id == v.tenant_id)
    && (a.collection_id == v.collection_id)
    && (a.document_version_id == version_id)
    && same_type a.artifact_type artifact_type

-- `normalized_source`: the nearest version of the lineage with a normalized document.
unfoldable pub normalized_source : DocumentVersion → Store → Option Uuid
normalized_source version s =
    find (λ k. any (is_artifact_of version k ArtifactType.normalized_document) s.artifacts)
      (lineage 101 version.tenant_id version.collection_id version.id s.versions)

-- `chunk` and `embedding`, which may be missing.
abbrev pub complete_row :
    IngestionJob
    → DocumentVersion
    → Uuid
    → Store
    → (original normalized : Option Artifact) → Option PublicationRow
complete_row j v k s (some o) (some n) = some (record {
  native = record { job = j; version = v; original = o };
  normalized_version_id = k;
  normalized = n;
  chunk = find (is_artifact_of v v.id ArtifactType.chunk_manifest) s.artifacts;
  embedding =
      find
        (λ a.
          is_artifact_of v v.id ArtifactType.index_manifest a
          && str_eq a.generator_name "fastembed")
        s.artifacts;
})
complete_row j v k s _ _ = none

abbrev pub join_normalized :
    IngestionJob → DocumentVersion → Store → Option Uuid → Option PublicationRow
join_normalized j v s none = none
join_normalized j v s (some k) =
    complete_row j v k s (find (is_artifact_of v k ArtifactType.original_pdf) s.artifacts)
      (find (is_artifact_of v k ArtifactType.normalized_document) s.artifacts)

abbrev pub join_published : IngestionJob → Store → Option DocumentVersion → Option PublicationRow
join_published j s none = none
join_published j s (some v) =
    if (v.tenant_id == j.tenant_id) && (v.collection_id == j.collection_id)
    then join_normalized j v s (normalized_source v s)
    else none

-- The state in which a stage is awaited; the other stages are not published.
abbrev pub expected_state : IngestionStage → Option VersionState
expected_state IngestionStage.chunk = some VersionState.chunking
expected_state IngestionStage.embed = some VersionState.embedding
expected_state IngestionStage.index = some VersionState.indexing
expected_state _ = none

abbrev pub is_some : {A : Type 0} → Option A → Bool
is_some none = false
is_some (some a) = true

abbrev pub join_publication_job :
    (tenant_id version_id : Uuid) → Store → Option IngestionJob → Option PublicationRow
join_publication_job tenant_id version_id s none = none
join_publication_job tenant_id version_id s (some j) =
    if (j.tenant_id == tenant_id)
      && (j.document_version_id == version_id)
      && is_some (expected_state j.stage)
    then join_published j s (find_version j.document_version_id s.versions)
    else none

unfoldable pub publication_row :
    (tenant_id version_id job_id : Uuid) → Store → Option PublicationRow
publication_row tenant_id version_id job_id s =
    join_publication_job tenant_id version_id s (find_job job_id s.jobs)

abbrev pub is_expected : Option VersionState → VersionState → Bool
is_expected none state = false
is_expected (some expected) state = state is expected

abbrev pub needs_chunks : IngestionStage → Bool
needs_chunks IngestionStage.embed = true
needs_chunks IngestionStage.index = true
needs_chunks _ = false

abbrev pub needs_embeddings : IngestionStage → Bool
needs_embeddings IngestionStage.index = true
needs_embeddings _ = false

-- `COALESCE(version.reprocessed_from_version_id, version.id)`
abbrev pub source_id : DocumentVersion → Option Uuid → Uuid
source_id v none = v.id
source_id v (some k) = k

abbrev pub field_of : {A : Type 0} → (Artifact → A) → Option Artifact → Option A
field_of f none = none
field_of f (some a) = some (f a)

-- `_claimed_job`
unfoldable pub claimed_publication : PublicationRow → (attempt_number : ℕ) → ClaimedPublicationJob
claimed_publication row attempt_number = record {
  native = claimed row.native attempt_number;
  stage = row.native.job.stage;
  source_document_version_id =
      source_id row.native.version row.native.version.reprocessed_from_version_id;
  normalized_document_version_id = row.normalized_version_id;
  normalized_artifact_id = row.normalized.id;
  normalized_object_key = row.normalized.object_key;
  normalized_checksum_sha256 = row.normalized.checksum_sha256;
  normalized_generator_version = row.normalized.generator_version;
  chunk_object_key = field_of (λ a. a.object_key) row.chunk;
  chunk_checksum_sha256 = field_of (λ a. a.checksum_sha256) row.chunk;
  chunk_generator_version = field_of (λ a. a.generator_version) row.chunk;
  embedding_object_key = field_of (λ a. a.object_key) row.embedding;
  embedding_checksum_sha256 = field_of (λ a. a.checksum_sha256) row.embedding;
  embedding_generator_version = field_of (λ a. a.generator_version) row.embedding;
}

-- `_expire_attempt` and `_start_attempt`
unfoldable pub take_publication_job :
    PublicationRow
    → (worker_id : String) → (now lease_duration : ℕ) → Session (Option ClaimedPublicationJob)
take_publication_job row worker_id now lease_duration = do
  modify (expire_attempt now row.native.job)
  let attempt_number = row.native.job.attempt_count + 1
  modify (update_job row.native.job.id (held_by worker_id attempt_number (now + lease_duration)))
  insert_attempt (new_attempt row.native.job worker_id attempt_number)
  pure (some (claimed_publication row attempt_number))

unfoldable pub claim_publication_row :
    PublicationRow
    → (worker_id : String) → (now lease_duration : ℕ) → Session (Option ClaimedPublicationJob)
claim_publication_row row worker_id now lease_duration =
    if is_finished row.native.job.state
    then pure none
    else if is_in row.native.version.state ocr_stopped_states
    then modify (cancel_job now row.native.job) >> pure none
    else if not (is_expected (expected_state row.native.job.stage) row.native.version.state)
    then raise ServiceError.not_awaiting_stage
    else if needs_chunks row.native.job.stage && not (is_some row.chunk)
    then raise ServiceError.no_chunk_manifest
    else if needs_embeddings row.native.job.stage && not (is_some row.embedding)
    then raise ServiceError.no_embedding_manifest
    else if lease_is_live now row.native.job
    then pure none
    else if leb row.native.job.max_attempts row.native.job.attempt_count
    then exhaust_job row.native worker_id >> pure none
    else take_publication_job row worker_id now lease_duration

unfoldable pub claim_publication :
    (tenant_id document_version_id job_id : Uuid) (worker_id : String) (now lease_duration : ℕ)
    → Session (Option ClaimedPublicationJob)
claim_publication tenant_id document_version_id job_id worker_id now lease_duration = do
  row ← gets (publication_row tenant_id document_version_id job_id)
  found ← require row ServiceError.invalid_job_identity
  claim_publication_row found worker_id now lease_duration
