-- ===== src/Ingestion/NativeJobs.antt =====
-- app/services/ingestion/repository.py and repository_support.py: how a worker claims a native job,
-- and how it ends the attempt. `now` is the time of the transaction. A version has one original
-- (`insert_artifact` is the only statement that stores one), so the join of `claim` gives one row
-- at most.
pub mod Claim
pub mod Finish
pub mod Claimed
pub mod Fence
pub mod Audited
pub mod Successor
pub mod Lease
use text.Mathlib.Text.{◌==◌ as str_eq}
use atlas_rag.Common.{
  ◌≡◌, if◌then◌else◌, [], ◌∷◌, ◌&&◌, ◌||◌, ℕ, String, List, Bool, none, Option, find, ◌==◌, some,
  update_where, true, false, ltb, any, ◌+◌, leb,
}
use atlas_rag.Database.{
  Uuid, ArtifactType, JobAttempt, DocumentVersion, IngestionJob, AttemptOutcome, Store, EventKey,
  Actor, Artifact,
}
use atlas_rag.Catalog.StateMachine.{
  VersionSnapshot, PublicationEvidence, Change, Operation, transition_version,
}
use atlas_rag.Catalog.Enums.{IngestionStage, VersionState, JobState, ◌is◌, is_in}
use atlas_rag.Database.Session.{
  Session, ◌>>=◌, ◌>>◌, lift, ServiceError, pure, modify, gets, require, raise_when, Constraint,
}
use atlas_rag.Catalog.Versions.{update_version, find_version}
use atlas_rag.Common.Result.{map_err}
use atlas_rag.Catalog.Transitions.{insert_event, transition_event}
use atlas_rag.Catalog.Operations.{same_type}

pub record ClaimedNativeJob : Type 0 where
  pub id : Uuid
  pub tenant_id : Uuid
  pub collection_id : Uuid
  pub document_version_id : Uuid
  pub attempt_number : ℕ
  pub max_attempts : ℕ
  pub object_key : String
  pub content_sha256 : String
  pub size_bytes : ℕ
  pub pipeline_profile : String
  pub original_artifact_id : Uuid

pub record PublishedArtifact : Type 0 where
  pub artifact_type : ArtifactType
  pub object_key : String
  pub generator_name : String
  pub generator_version : String
  pub checksum_sha256 : String
  pub size_bytes : ℕ

pub record NextStageJob : Type 0 where
  pub id : Uuid
  pub stage : IngestionStage

pub data DocumentRoute : Type 0 where
  native ocr mixed : DocumentRoute

unfoldable pub find_job : Uuid → List IngestionJob → Option IngestionJob
find_job job_id = find (λ j. j.id == job_id)

unfoldable pub update_job : Uuid → (IngestionJob → IngestionJob) → Store → Store
update_job job_id f s = record s { jobs = update_where (λ j. j.id == job_id) f s.jobs }

abbrev pub is_null : {A : Type 0} → Option A → Bool
is_null none = true
is_null (some a) = false

-- `UPDATE job_attempts ... WHERE finished_at IS NULL`
unfoldable pub update_attempts : (JobAttempt → Bool) → (JobAttempt → JobAttempt) → Store → Store
update_attempts p f s = record s {
  attempts = update_where (λ a. p a && is_null a.finished_at) f s.attempts;
}

abbrev pub attempt_of : (tenant_id job_id : Uuid) (attempt_number : ℕ) → JobAttempt → Bool
attempt_of tenant_id job_id attempt_number a =
    (a.tenant_id == tenant_id) && (a.job_id == job_id) && (a.attempt_number == attempt_number)

abbrev pub closed :
    (now : ℕ) → AttemptOutcome → (error_class reason_code : Option String) → JobAttempt → JobAttempt
closed now outcome error_class reason_code a = record a {
  finished_at = some now;
  outcome = some outcome;
  error_class = error_class;
  reason_code = reason_code;
}

-- `_finish_attempt`
unfoldable pub finish_attempt :
    (now : ℕ)
    → ClaimedNativeJob
    → AttemptOutcome
    → (error_class reason_code : Option String) → Store
    → Store
finish_attempt now job outcome error_class reason_code =
    update_attempts (attempt_of job.tenant_id job.id job.attempt_number)
      (closed now outcome error_class reason_code)

-- The snapshot of `_transition`: it leaves the reason out.
unfoldable pub worker_snapshot : DocumentVersion → VersionSnapshot
worker_snapshot v = record {
  state = v.state;
  revision = v.state_revision;
  progress_completed = v.progress_completed;
  progress_total = v.progress_total;
  terminal_reason_code = none;
}

unfoldable pub worker_moved :
    VersionSnapshot → (reason_code : Option String) → DocumentVersion → DocumentVersion
worker_moved t reason_code v = record v {
  state = t.state;
  state_revision = t.revision;
  terminal_reason_code = reason_code;
}

unfoldable pub worker_change :
    DocumentVersion → VersionState → Option String → Option PublicationEvidence → Change
worker_change v target reason_code evidence = record {
  target = target;
  expected_revision = v.state_revision;
  progress_completed = none;
  progress_total = none;
  terminal_reason_code = reason_code;
  publication_evidence = evidence;
  operation = Operation.advance;
}

-- The `UPDATE` and the `INSERT` of `_transition`.
unfoldable pub store_worker_transition :
    DocumentVersion
    → VersionState
    → (worker_id : String) → EventKey
    → (reason_code : Option String) → VersionSnapshot
    → Session DocumentVersion
store_worker_transition row target worker_id event_key reason_code transitioned = do
  updated ←
      update_version row.tenant_id row.id row.state_revision (worker_moved transitioned reason_code)
        ServiceError.no_row
  insert_event (
      transition_event row.tenant_id row (record transitioned { state = target }) Operation.advance
        event_key (Actor.worker worker_id))
  pure updated

-- `_transition`
unfoldable pub worker_transition :
    DocumentVersion
    → VersionState
    → (worker_id : String) → EventKey
    → (reason_code : Option String) → Option PublicationEvidence
    → Session DocumentVersion
worker_transition row target worker_id event_key reason_code evidence = do
  transitioned ← lift (
      map_err ServiceError.transition
        (transition_version (worker_snapshot row) (worker_change row target reason_code evidence)))
  store_worker_transition row target worker_id event_key reason_code transitioned
