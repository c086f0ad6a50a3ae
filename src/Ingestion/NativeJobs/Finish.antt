-- ===== src/Ingestion/NativeJobs/Finish.antt =====
-- app/services/ingestion/repository.py and repository_support.py: how an attempt ends.
use text.Mathlib.Text.{◌==◌ as str_eq}
use atlas_rag.Common.{
  if◌then◌else◌, [], ◌∷◌, none, some, ◌&&◌, String, Option, List, Bool, ◌==◌, ℕ, true, false,
  update_where, ◌+◌, find, not,
}
use atlas_rag.Database.{
  Uuid, DocumentVersion, IngestionJob, RequestState, Store, LifecycleRequest, Artifact, EventKey,
  AttemptOutcome,
}
use atlas_rag.Ingestion.NativeJobs.{
  ClaimedNativeJob, DocumentRoute, PublishedArtifact, find_job, update_job, NextStageJob,
  worker_transition, finish_attempt,
}
use atlas_rag.Catalog.Enums.{JobState, IngestionStage, VersionState, ◌is◌}
use atlas_rag.Database.Session.{
  Session, pure, modify, ◌>>=◌, ◌>>◌, gets, require, ServiceError, raise_when,
}
use atlas_rag.Catalog.Versions.{find_version}
use atlas_rag.Catalog.Operations.{insert_artifact}
use atlas_rag.Catalog.Transitions.{is_delivery_of}

-- `_insert_artifact`
published : Uuid → ClaimedNativeJob → PublishedArtifact → Artifact
published artifact_id job a = record {
  id = artifact_id;
  tenant_id = job.tenant_id;
  collection_id = job.collection_id;
  document_version_id = job.document_version_id;
  source_artifact_id = some job.original_artifact_id;
  artifact_type = a.artifact_type;
  object_key = a.object_key;
  generator_name = a.generator_name;
  generator_version = a.generator_version;
  checksum_sha256 = a.checksum_sha256;
  size_bytes = a.size_bytes;
  search_target = none;
}

-- Each artifact with the id that is made for it.
unfoldable pub insert_artifacts :
    ClaimedNativeJob → List (Uuid × PublishedArtifact) → Session (Unit {0})
unfolding published
insert_artifacts job [] = pure tt
insert_artifacts job ((artifact_id, a) ∷ artifacts) =
    insert_artifact (published artifact_id job a) >> insert_artifacts job artifacts

abbrev pub is_running : JobState → Bool
is_running JobState.running = true
is_running _ = false

abbrev pub is_owner : (worker_id : String) → Option String → Bool
is_owner worker_id none = false
is_owner worker_id (some owner) = str_eq owner worker_id

unfoldable pub owns_attempt : ClaimedNativeJob → (worker_id : String) → IngestionJob → Bool
owns_attempt job worker_id j =
    is_running j.state
    && is_owner worker_id j.lease_owner
    && (j.attempt_count == job.attempt_number)

-- A row of the join in `_locked_job_version`.
abbrev pub Locked : Type 0
Locked = DocumentVersion × IngestionJob

abbrev pub lock_pair : ClaimedNativeJob → IngestionJob → Option DocumentVersion → Option Locked
lock_pair job j none = none
lock_pair job j (some v) =
    if (v.tenant_id == job.tenant_id)
      && (j.tenant_id == v.tenant_id)
      && (j.collection_id == v.collection_id)
      && (j.document_version_id == v.id)
    then some (v, j)
    else none

abbrev pub lock_job : ClaimedNativeJob → Store → Option IngestionJob → Option Locked
lock_job job s none = none
lock_job job s (some j) = lock_pair job j (find_version job.document_version_id s.versions)

unfoldable pub locked_row : ClaimedNativeJob → Store → Option Locked
locked_row job s = lock_job job s (find_job job.id s.jobs)

-- `_locked_job_version`
unfoldable pub locked_job_version :
    ClaimedNativeJob → (worker_id : String) → Session DocumentVersion
locked_job_version job worker_id = do
  row ← gets (locked_row job)
  locked ← require row ServiceError.no_row
  raise_when (not (owns_attempt job worker_id locked.1)) ServiceError.fence_lost
  pure locked.0

unfoldable pub next_job :
    ClaimedNativeJob → IngestionStage → (max_attempts : ℕ) → Option Uuid → Uuid → IngestionJob
next_job job stage max_attempts lifecycle_request_id next_job_id = record {
  id = next_job_id;
  tenant_id = job.tenant_id;
  collection_id = job.collection_id;
  document_version_id = job.document_version_id;
  stage = stage;
  state = JobState.pending;
  generation = 0;
  attempt_count = 0;
  max_attempts = max_attempts;
  lease_owner = none;
  lease_expires_at = none;
  retry_at = none;
  terminal_reason_code = none;
  lifecycle_request_id = lifecycle_request_id;
  publication_target = none;
}

abbrev pub request_of : Option IngestionJob → Option Uuid
request_of none = none
request_of (some j) = j.lifecycle_request_id

abbrev pub insert_or_reuse : IngestionJob → Option IngestionJob → Session Uuid
insert_or_reuse new none = modify (λ s. record s { jobs = new ∷ s.jobs }) >> pure new.id
insert_or_reuse new (some present) = pure present.id

-- `_create_next_job`: the row of generation 0, or the one that has its place.
unfoldable pub create_next_job :
    ClaimedNativeJob → IngestionStage → (max_attempts : ℕ) → (next_job_id : Uuid) → Session Uuid
unfolding next_job
create_next_job job stage max_attempts next_job_id = do
  request ← gets (λ s. request_of (find_job job.id s.jobs))
  let new = next_job job stage max_attempts request next_job_id
  present ← gets (λ s. find (is_delivery_of new) s.jobs)
  insert_or_reuse new present

unfoldable pub set_page_count : ClaimedNativeJob → (page_count : ℕ) → Store → Store
set_page_count job page_count s = record s {
  versions =
      update_where (λ v. (v.tenant_id == job.tenant_id) && (v.id == job.document_version_id))
        (λ v. record v { page_count = some page_count }) s.versions;
}

abbrev pub next_stage : DocumentRoute → IngestionStage
next_stage DocumentRoute.native = IngestionStage.chunk
next_stage _ = IngestionStage.ocr

-- The transitions of `succeed`.
unfoldable pub advance_route :
    ClaimedNativeJob
    → (worker_id : String) → DocumentRoute
    → DocumentVersion
    → Session DocumentVersion
advance_route job worker_id DocumentRoute.native version = do
  normalizing ←
      worker_transition version VersionState.normalizing worker_id
        (EventKey.worker_state job.id VersionState.normalizing) none none
  worker_transition normalizing VersionState.chunking worker_id
      (EventKey.worker_state job.id VersionState.chunking) none none
advance_route job worker_id _ version =
    worker_transition version VersionState.ocr worker_id
      (EventKey.worker_state job.id VersionState.ocr) none none

unfoldable pub end_job : JobState → (reason_code : Option String) → IngestionJob → IngestionJob
end_job state reason_code j = record j {
  state = state;
  terminal_reason_code = reason_code;
  lease_owner = none;
  lease_expires_at = none;
}

-- The last statements of `succeed`.
unfoldable pub close_success : ClaimedNativeJob → (now : ℕ) → Store → Store
close_success job now s =
    update_job job.id (λ j. end_job JobState.succeeded j.terminal_reason_code j)
      (finish_attempt now job AttemptOutcome.succeeded none none s)

-- The statements of `succeed` after the fence.
unfoldable pub store_success :
    ClaimedNativeJob
    → (worker_id : String) → DocumentRoute
    → (page_count : ℕ) → List (Uuid × PublishedArtifact)
    → (max_attempts : ℕ) → (next_job_id : Uuid) → (now : ℕ) → DocumentVersion
    → Session NextStageJob
store_success job worker_id route page_count artifacts max_attempts next_job_id now locked = do
  insert_artifacts job artifacts
  modify (set_page_count job page_count)
  moved ← advance_route job worker_id route locked
  created ← create_next_job job (next_stage route) max_attempts next_job_id
  modify (close_success job now)
  pure (record { id = created; stage = next_stage route })

unfoldable pub succeed :
    ClaimedNativeJob
    → (worker_id : String) → DocumentRoute
    → (page_count : ℕ) → List (Uuid × PublishedArtifact)
    → (max_attempts : ℕ) → (next_job_id : Uuid) → (now : ℕ) → Session NextStageJob
succeed job worker_id route page_count artifacts max_attempts next_job_id now = do
  locked ← locked_job_version job worker_id
  store_success job worker_id route page_count artifacts max_attempts next_job_id now locked

abbrev pub is_open_request : RequestState → Bool
is_open_request RequestState.pending = true
is_open_request RequestState.running = true
is_open_request _ = false

abbrev pub is_request : Option Uuid → LifecycleRequest → Bool
is_request none r = false
is_request (some request_id) r = r.id == request_id

-- `_finish_lifecycle_request`
unfoldable pub finish_lifecycle_request : (job_id : Uuid) → RequestState → Store → Store
finish_lifecycle_request job_id state s = record s {
  requests =
      update_where
        (λ r. is_request (request_of (find_job job_id s.jobs)) r && is_open_request r.state)
        (λ r. record r { state = state }) s.requests;
}

-- The last statements of `fail_permanently`.
unfoldable pub close_failure :
    ClaimedNativeJob → VersionState → (reason_code : String) → (now : ℕ) → Store → Store
close_failure job state reason_code now s = finish_lifecycle_request job.id RequestState.failed (
    update_job job.id (end_job JobState.failed (some reason_code)) (
      finish_attempt now job AttemptOutcome.permanent_failure
        (some (if state is VersionState.quarantined then "security" else "invalid_input"))
        (some reason_code) s))

-- The statements of `fail_permanently` after the fence.
unfoldable pub store_failure :
    ClaimedNativeJob
    → (worker_id : String) → VersionState
    → (reason_code : String) → List (Uuid × PublishedArtifact)
    → (now : ℕ) → DocumentVersion
    → Session (Unit {0})
store_failure job worker_id state reason_code artifacts now locked = do
  insert_artifacts job artifacts
  failed ←
      worker_transition locked state worker_id (EventKey.worker_terminal job.id reason_code)
        (some reason_code) none
  modify (close_failure job state reason_code now)

unfoldable pub fail_permanently :
    ClaimedNativeJob
    → (worker_id : String) → VersionState
    → (reason_code : String) → List (Uuid × PublishedArtifact)
    → (now : ℕ) → Session (Unit {0})
fail_permanently job worker_id state reason_code artifacts now = do
  locked ← locked_job_version job worker_id
  store_failure job worker_id state reason_code artifacts now locked

unfoldable pub close_retry :
    ClaimedNativeJob → (reason_code : String) → (delay_seconds now : ℕ) → Store → Store
close_retry job reason_code delay_seconds now s =
    update_job job.id
      (λ j. record (end_job JobState.retry_scheduled (some reason_code) j) {
        retry_at = some (now + delay_seconds);
      })
      (finish_attempt now job AttemptOutcome.retryable_failure (some "dependency")
        (some reason_code) s)

unfoldable pub schedule_retry :
    ClaimedNativeJob
    → (worker_id reason_code : String) → (delay_seconds now : ℕ) → Session (Unit {0})
schedule_retry job worker_id reason_code delay_seconds now = do
  locked ← locked_job_version job worker_id
  modify (close_retry job reason_code delay_seconds now)
