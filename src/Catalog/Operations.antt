-- ===== src/Catalog/Operations.antt =====
-- app/services/catalog/operations_repository.py: the completion of an upload. The ids that `uuid4`
-- makes are arguments, in `Ids`.
pub mod Jobs
pub mod Uploads
pub mod Completed
use text.Mathlib.Text.{◌==◌ as str_eq}
use atlas_rag.Common.{
  ℕ, zero, suc, Bool, true, false, not, ◌&&◌, ◌||◌, String, Option, none, some, List, [], ◌∷◌, ◌==◌,
  if◌then◌else◌, update_where, leb, any,
}
use atlas_rag.Catalog.Enums.{VersionState, IngestionStage, JobState, ◌is◌, same_stage}
use atlas_rag.Catalog.StateMachine.{Operation, validate_reprocessing_source}
use atlas_rag.Catalog.Versions.{get_version}
use atlas_rag.Catalog.Transitions.{
  transition_catalog_version, create_ingestion_job, insert_event, at_stage, is_unfinished,
}
use atlas_rag.Database.{
  Uuid, Principal, DocumentVersion, VersionKey, EventKey, Actor, TransitionEvent, IngestionJob,
  JobAttempt, LifecycleRequest, RequestState, Artifact, ArtifactType, Store, AttemptOutcome,
}
use atlas_rag.Database.Session.{
  Session, ServiceError, ConflictReason, Constraint, ◌>>=◌, ◌>>◌, modify, pure, gets, raise_when,
}

pub record Ids : Type 0 where
  pub request_id : Uuid
  pub job_id : Uuid
  pub version_id : Uuid
  pub artifact_id : Uuid

-- `... ORDER BY generation DESC LIMIT 1`: the job of the highest generation.
abbrev later : IngestionJob → Option IngestionJob → Option IngestionJob
later j none = some j
later j (some best) = if leb best.generation j.generation then some j else some best

unfoldable pub latest_job : (IngestionJob → Bool) → List IngestionJob → Option IngestionJob
latest_job p [] = none
latest_job p (j ∷ jobs) = let rest = latest_job p jobs in if p j then later j rest else rest

abbrev job_id_of : Option IngestionJob → Option Uuid
job_id_of none = none
job_id_of (some j) = some j.id

unfoldable pub latest_job_id : (tenant_id version_id : Uuid) → IngestionStage → Store → Option Uuid
latest_job_id tenant_id version_id stage s =
    job_id_of (latest_job (at_stage tenant_id version_id stage) s.jobs)

artifact_type_code : ArtifactType → ℕ
artifact_type_code ArtifactType.original_pdf = 0
artifact_type_code ArtifactType.inspection_report = 1
artifact_type_code ArtifactType.extracted_pages = 2
artifact_type_code ArtifactType.layout_blocks = 3
artifact_type_code ArtifactType.ocr_result = 4
artifact_type_code ArtifactType.normalized_document = 5
artifact_type_code ArtifactType.chunk_manifest = 6
artifact_type_code ArtifactType.index_manifest = 7

unfoldable pub same_type : ArtifactType → ArtifactType → Bool
unfolding artifact_type_code
same_type a b = artifact_type_code a == artifact_type_code b

-- `uq_artifacts_output`
unfoldable pub is_output_of : Artifact → Artifact → Bool
is_output_of new a =
    (a.tenant_id == new.tenant_id)
    && (a.collection_id == new.collection_id)
    && (a.document_version_id == new.document_version_id)
    && same_type a.artifact_type new.artifact_type
    && str_eq a.generator_name new.generator_name
    && str_eq a.generator_version new.generator_version
    && str_eq a.checksum_sha256 new.checksum_sha256

-- `INSERT INTO artifacts ... ON CONFLICT ON CONSTRAINT uq_artifacts_output DO NOTHING`. A clash on
-- the other constraint, `uq_artifacts_object_key`, is raised.
unfoldable pub insert_artifact : Artifact → Session (Unit {0})
insert_artifact new = do
  present ← gets (λ s. any (is_output_of new) s.artifacts)
  if present then pure tt else do
    taken ← gets (λ s. any (λ a. str_eq a.object_key new.object_key) s.artifacts)
    raise_when taken (ServiceError.integrity Constraint.artifact_object_key)
    modify (λ s. record s { artifacts = new ∷ s.artifacts })

unfoldable pub original_artifact : Uuid → Principal → DocumentVersion → Uuid → Artifact
original_artifact artifact_id principal version version_id = record {
  id = artifact_id;
  tenant_id = principal.tenant_id;
  collection_id = version.collection_id;
  document_version_id = version_id;
  source_artifact_id = none;
  artifact_type = ArtifactType.original_pdf;
  object_key = version.object_key;
  generator_name = "intake-api";
  generator_version = "v1";
  checksum_sha256 = version.content_sha256;
  size_bytes = version.size_bytes;
  search_target = none;
}

-- `UPDATE document_versions SET detected_mime`: no state, revision or progress column changes, so
-- the trigger lets it pass.
unfoldable pub set_detected_mime : Principal → Uuid → String → Store → Store
set_detected_mime principal version_id content_type s = record s {
  versions =
      update_where (λ v. (v.tenant_id == principal.tenant_id) && (v.id == version_id))
        (λ v. record v { detected_mime = some content_type }) s.versions;
}

-- The accepted upload: its version is queued, with a preflight job.
unfoldable pub queue_job :
    Principal
    → DocumentVersion
    → Ids
    → (job_max_attempts : ℕ) → Session (DocumentVersion × Option Uuid)
queue_job principal version ids job_max_attempts = do
  queued ←
      transition_catalog_version principal version VersionState.queued Operation.advance none
        EventKey.upload_queued
  job_id ←
      create_ingestion_job principal queued IngestionStage.preflight job_max_attempts none
        ids.job_id
  pure (queued, some job_id)

unfoldable pub queue_upload :
    Principal
    → DocumentVersion
    → Uuid
    → Ids
    → (content_type : String) → (job_max_attempts : ℕ) → Session (DocumentVersion × Option Uuid)
unfolding original_artifact
queue_upload principal version version_id ids content_type job_max_attempts = do
  insert_artifact (original_artifact ids.artifact_id principal version version_id)
  modify (set_detected_mime principal version_id content_type)
  queue_job principal version ids job_max_attempts

unfoldable pub reject_upload :
    Principal
    → DocumentVersion
    → (reason_code : Option String) → Session (DocumentVersion × Option Uuid)
reject_upload principal version reason_code = do
  rejected ←
      transition_catalog_version principal version VersionState.rejected Operation.advance
        reason_code EventKey.upload_rejected
  pure (rejected, none)

unfoldable pub start_upload :
    Principal
    → DocumentVersion
    → Uuid
    → Ids
    → (valid : Bool) → (reason_code : Option String) → (content_type : String)
    → (job_max_attempts : ℕ) → Session (DocumentVersion × Option Uuid)
start_upload principal version version_id ids valid reason_code content_type job_max_attempts = do
  validating ←
      transition_catalog_version principal version VersionState.validating Operation.advance none
        EventKey.upload_validating
  if valid
      then queue_upload principal validating version_id ids content_type job_max_attempts
      else reject_upload principal validating reason_code

-- The answer for a version that has left `received`.
unfoldable pub already_completed :
    Principal → DocumentVersion → Uuid → Store → DocumentVersion × Option Uuid
already_completed principal version version_id s =
    (version, latest_job_id principal.tenant_id version_id IngestionStage.preflight s)

unfoldable pub complete_upload :
    Principal
    → Uuid
    → Ids
    → (valid : Bool) → (reason_code : Option String) → (content_type : String)
    → (job_max_attempts : ℕ) → Session (DocumentVersion × Option Uuid)
complete_upload principal version_id ids valid reason_code content_type job_max_attempts = do
  version ← get_version principal version_id true
  if version.state is VersionState.received
      then start_upload principal version version_id ids valid reason_code content_type
          job_max_attempts
      else gets (already_completed principal version version_id)
