-- ===== src/Ingestion/Ocr.antt =====
-- app/services/ingestion/ocr_repository.py: the claim and the success of an OCR job. It shares the
-- fence, the failures and the retries with the native jobs.
pub mod Audited
use atlas_rag.Ingestion.NativeJobs.{
  ClaimedNativeJob, find_job, update_job, worker_transition, PublishedArtifact, NextStageJob,
}
use atlas_rag.Common.{
  String, List, ℕ, Bool, Option, true, ◌==◌, [], ◌∷◌, if◌then◌else◌, false, some, ◌&&◌, none, ◌+◌,
  not, leb,
}
use atlas_rag.Ingestion.NativeJobs.Claim.{
  NativeRow, is_finished, join_version, expire_attempt, claimed, held_by, cancel_job,
  insert_attempt, new_attempt, lease_is_live, exhaust_job,
}
use atlas_rag.Catalog.Enums.{IngestionStage, VersionState, is_in, ◌is◌}
use atlas_rag.Database.{
  Uuid, Artifact, Store, DocumentVersion, IngestionJob, EventKey, ArtifactType,
}
use atlas_rag.Catalog.Operations.{same_type}
use atlas_rag.Database.Session.{Session, raise, ◌>>=◌, ◌>>◌, ServiceError, modify, gets, pure}
use atlas_rag.Ingestion.NativeJobs.Finish.{
  insert_artifacts, locked_job_version, create_next_job, close_success,
}
use atlas_rag.Catalog.Versions.{find_version}

pub record ClaimedOcrJob : Type 0 where
  pub native : ClaimedNativeJob
  pub extracted_object_key : String
  pub extracted_checksum_sha256 : String
  pub extracted_generator_version : String
  pub page_count : ℕ

-- A row of the join in `claim`.
pub record OcrRow : Type 0 where
  pub native : NativeRow
  pub extracted : Artifact

abbrev pub is_ocr_stage : IngestionStage → Bool
is_ocr_stage IngestionStage.ocr = true
is_ocr_stage _ = false

abbrev pub join_ocr_job :
    (tenant_id version_id : Uuid) → Store → Option IngestionJob → Option NativeRow
join_ocr_job tenant_id version_id s none = none
join_ocr_job tenant_id version_id s (some j) =
    if (j.tenant_id == tenant_id) && (j.document_version_id == version_id) && is_ocr_stage j.stage
    then join_version j s.artifacts (find_version j.document_version_id s.versions)
    else none

unfoldable pub is_extracted_of : DocumentVersion → Artifact → Bool
unfolding same_type
is_extracted_of v a =
    (a.tenant_id == v.tenant_id)
    && (a.collection_id == v.collection_id)
    && (a.document_version_id == v.id)
    && same_type a.artifact_type ArtifactType.extracted_pages

-- `JOIN artifacts AS extracted`: a row for each artifact that fits.
unfoldable pub join_extracted : NativeRow → List Artifact → List OcrRow
join_extracted row [] = []
join_extracted row (a ∷ artifacts) =
    let rest = join_extracted row artifacts in
    if is_extracted_of row.version a then (record { native = row; extracted = a }) ∷ rest else rest

abbrev pub join_rows : List Artifact → Option NativeRow → List OcrRow
join_rows artifacts none = []
join_rows artifacts (some row) = join_extracted row artifacts

unfoldable pub ocr_rows : (tenant_id version_id job_id : Uuid) → Store → List OcrRow
ocr_rows tenant_id version_id job_id s =
    join_rows s.artifacts (join_ocr_job tenant_id version_id s (find_job job_id s.jobs))

-- `one_or_none()`, and the error for a row that is not there.
abbrev pub one_row : List OcrRow → Session OcrRow
one_row [] = raise ServiceError.invalid_job_identity
one_row (row ∷ []) = pure row
one_row (row ∷ other ∷ rows) = raise ServiceError.several_rows

abbrev pub ocr_stopped_states : List VersionState
ocr_stopped_states = VersionState.cancelled ∷ VersionState.deleted ∷ VersionState.failed ∷ []

-- The answer: `int(str(row["page_count"]))` raises where no count is stored.
abbrev pub ocr_claimed : OcrRow → (attempt_number : ℕ) → Option ℕ → Session (Option ClaimedOcrJob)
ocr_claimed row attempt_number none = raise ServiceError.invalid_page_count
ocr_claimed row attempt_number (some page_count) = pure (
    some (record {
      native = claimed row.native attempt_number;
      extracted_object_key = row.extracted.object_key;
      extracted_checksum_sha256 = row.extracted.checksum_sha256;
      extracted_generator_version = row.extracted.generator_version;
      page_count = page_count;
    }))

unfoldable pub take_ocr_job :
    OcrRow → (worker_id : String) → (now lease_duration : ℕ) → Session (Option ClaimedOcrJob)
take_ocr_job row worker_id now lease_duration = do
  modify (expire_attempt now row.native.job)
  let attempt_number = row.native.job.attempt_count + 1
  modify (update_job row.native.job.id (held_by worker_id attempt_number (now + lease_duration)))
  insert_attempt (new_attempt row.native.job worker_id attempt_number)
  ocr_claimed row attempt_number row.native.version.page_count

unfoldable pub claim_ocr_row :
    OcrRow → (worker_id : String) → (now lease_duration : ℕ) → Session (Option ClaimedOcrJob)
claim_ocr_row row worker_id now lease_duration =
    if is_finished row.native.job.state
    then pure none
    else if is_in row.native.version.state ocr_stopped_states
    then modify (cancel_job now row.native.job) >> pure none
    else if not (row.native.version.state is VersionState.ocr)
    then raise ServiceError.not_awaiting_ocr
    else if lease_is_live now row.native.job
    then pure none
    else if leb row.native.job.max_attempts row.native.job.attempt_count
    then exhaust_job row.native worker_id >> pure none
    else take_ocr_job row worker_id now lease_duration

unfoldable pub claim_ocr :
    (tenant_id document_version_id job_id : Uuid) (worker_id : String) (now lease_duration : ℕ)
    → Session (Option ClaimedOcrJob)
claim_ocr tenant_id document_version_id job_id worker_id now lease_duration = do
  rows ← gets (ocr_rows tenant_id document_version_id job_id)
  found ← one_row rows
  claim_ocr_row found worker_id now lease_duration

-- The two transitions of `succeed_ocr`.
unfoldable pub advance_ocr :
    ClaimedNativeJob → (worker_id : String) → DocumentVersion → Session DocumentVersion
advance_ocr job worker_id version = do
  normalized ←
      worker_transition version VersionState.normalizing worker_id (EventKey.ocr_normalizing job.id)
        none none
  worker_transition normalized VersionState.chunking worker_id (EventKey.ocr_chunking job.id) none
      none

-- The statements of `succeed_ocr` after the fence.
unfoldable pub store_ocr :
    ClaimedOcrJob
    → (worker_id : String) → List (Uuid × PublishedArtifact)
    → (max_attempts : ℕ) → (next_job_id : Uuid) → (now : ℕ) → DocumentVersion
    → Session NextStageJob
store_ocr job worker_id artifacts max_attempts next_job_id now locked = do
  insert_artifacts job.native artifacts
  chunking ← advance_ocr job.native worker_id locked
  created ← create_next_job job.native IngestionStage.chunk max_attempts next_job_id
  modify (close_success job.native now)
  pure (record { id = created; stage = IngestionStage.chunk })

unfoldable pub succeed_ocr :
    ClaimedOcrJob
    → (worker_id : String) → List (Uuid × PublishedArtifact)
    → (max_attempts : ℕ) → (next_job_id : Uuid) → (now : ℕ) → Session NextStageJob
succeed_ocr job worker_id artifacts max_attempts next_job_id now = do
  locked ← locked_job_version job.native worker_id
  store_ocr job worker_id artifacts max_attempts next_job_id now locked
