-- ===== src/Ingestion/NativeJobs/Claim.antt =====
-- app/services/ingestion/repository.py: `claim`, with `_cancel_job` and `_exhaust_job`.
use atlas_rag.Common.{
  if◌then◌else◌, [], ◌∷◌, none, some, ◌&&◌, List, Option, ℕ, String, Bool, true, ◌==◌, false, find,
  ltb, any, ◌+◌, leb,
}
use atlas_rag.Database.{
  IngestionJob, Uuid, JobAttempt, DocumentVersion, Artifact, Store, ArtifactType, AttemptOutcome,
  EventKey,
}
use atlas_rag.Catalog.Enums.{IngestionStage, JobState, VersionState, ◌is◌, is_in}
use atlas_rag.Catalog.Operations.{same_type}
use atlas_rag.Database.Session.{
  Session, pure, ◌>>=◌, ◌>>◌, gets, modify, require, raise_when, ServiceError, Constraint,
}
use atlas_rag.Ingestion.NativeJobs.{
  ClaimedNativeJob, find_job, update_attempts, worker_transition, attempt_of, update_job, closed,
}
use atlas_rag.Catalog.Versions.{find_version}

-- A row of the join in `claim`.
pub record NativeRow : Type 0 where
  pub job : IngestionJob
  pub version : DocumentVersion
  pub original : Artifact

abbrev pub is_native_stage : IngestionStage → Bool
is_native_stage IngestionStage.preflight = true
is_native_stage IngestionStage.native_parse = true
is_native_stage _ = false

unfoldable pub is_original_of : DocumentVersion → Artifact → Bool
unfolding same_type
is_original_of v a =
    (a.tenant_id == v.tenant_id)
    && (a.collection_id == v.collection_id)
    && (a.document_version_id == v.id)
    && same_type a.artifact_type ArtifactType.original_pdf

abbrev pub join_original : IngestionJob → DocumentVersion → Option Artifact → Option NativeRow
join_original j v none = none
join_original j v (some a) = some (record { job = j; version = v; original = a })

abbrev pub join_version : IngestionJob → List Artifact → Option DocumentVersion → Option NativeRow
join_version j artifacts none = none
join_version j artifacts (some v) =
    if (v.tenant_id == j.tenant_id) && (v.collection_id == j.collection_id)
    then join_original j v (find (is_original_of v) artifacts)
    else none

abbrev pub join_job : (tenant_id version_id : Uuid) → Store → Option IngestionJob → Option NativeRow
join_job tenant_id version_id s none = none
join_job tenant_id version_id s (some j) =
    if (j.tenant_id == tenant_id)
      && (j.document_version_id == version_id)
      && is_native_stage j.stage
    then join_version j s.artifacts (find_version j.document_version_id s.versions)
    else none

unfoldable pub native_row : (tenant_id version_id job_id : Uuid) → Store → Option NativeRow
native_row tenant_id version_id job_id s = join_job tenant_id version_id s (find_job job_id s.jobs)

-- `{"succeeded", "failed", "cancelled", "dead_lettered"}`
unfoldable pub is_finished : JobState → Bool
is_finished JobState.succeeded = true
is_finished JobState.failed = true
is_finished JobState.cancelled = true
is_finished JobState.dead_lettered = true
is_finished _ = false

-- `{"leased", "running"}`
unfoldable pub is_held : JobState → Bool
is_held JobState.leased = true
is_held JobState.running = true
is_held _ = false

-- The states of a version that no worker goes on with.
abbrev pub stopped_states : List VersionState
stopped_states =
    VersionState.cancelled ∷ VersionState.deleted ∷ VersionState.rejected ∷ VersionState.failed
    ∷ VersionState.quarantined ∷ []

-- `lease_expires_at > now()`
abbrev pub is_after : Option ℕ → (now : ℕ) → Bool
is_after none now = false
is_after (some expires) now = ltb now expires

unfoldable pub lease_is_live : (now : ℕ) → IngestionJob → Bool
lease_is_live now j = is_held j.state && is_after j.lease_expires_at now

unfoldable pub released : JobState → IngestionJob → IngestionJob
released state j = record j { state = state; lease_owner = none; lease_expires_at = none }

-- `_cancel_job`
unfoldable pub cancel_job : (now : ℕ) → IngestionJob → Store → Store
unfolding released
cancel_job now j s =
    update_attempts (λ a. (a.tenant_id == j.tenant_id) && (a.job_id == j.id))
      (λ a. record a {
        finished_at = some now;
        outcome = some AttemptOutcome.cancelled;
        reason_code = some "LIFECYCLE_CANCELLED";
      })
      (update_job j.id (released JobState.cancelled) s)

-- `_exhaust_job`
unfoldable pub exhaust_job : NativeRow → (worker_id : String) → Session (Unit {0})
unfolding released
exhaust_job row worker_id = do
  failed ←
      worker_transition row.version VersionState.failed worker_id
        (EventKey.worker_exhausted row.job.id) (some "PROCESSING_RETRY_EXHAUSTED") none
  modify (
      update_job row.job.id (λ j. record (released JobState.dead_lettered j) {
        terminal_reason_code = some "PROCESSING_RETRY_EXHAUSTED";
      }))

-- The attempt of a worker whose lease has run out.
unfoldable pub expire_attempt : (now : ℕ) → IngestionJob → Store → Store
expire_attempt now j s =
    if is_held j.state
    then update_attempts (attempt_of j.tenant_id j.id j.attempt_count)
        (closed now AttemptOutcome.lease_expired (some "internal") (some "WORKER_LEASE_EXPIRED")) s
    else s

unfoldable pub held_by :
    (worker_id : String) → (attempt_number expires : ℕ) → IngestionJob → IngestionJob
held_by worker_id attempt_number expires j = record j {
  state = JobState.running;
  attempt_count = attempt_number;
  lease_owner = some worker_id;
  lease_expires_at = some expires;
  retry_at = none;
}

unfoldable pub new_attempt : IngestionJob → (worker_id : String) → (attempt_number : ℕ) → JobAttempt
new_attempt j worker_id attempt_number = record {
  tenant_id = j.tenant_id;
  collection_id = j.collection_id;
  job_id = j.id;
  attempt_number = attempt_number;
  worker_id = worker_id;
  finished_at = none;
  outcome = none;
  error_class = none;
  reason_code = none;
}

-- `INSERT INTO job_attempts`, under `uq_job_attempts_number`.
unfoldable pub insert_attempt : JobAttempt → Session (Unit {0})
insert_attempt new = do
  taken ← gets (λ s.
      any
        (λ a.
          attempt_of new.tenant_id new.job_id new.attempt_number a
          && (a.collection_id == new.collection_id))
        s.attempts)
  raise_when taken (ServiceError.integrity Constraint.attempt_number)
  modify (λ s. record s { attempts = new ∷ s.attempts })

unfoldable pub claimed : NativeRow → (attempt_number : ℕ) → ClaimedNativeJob
claimed row attempt_number = record {
  id = row.job.id;
  tenant_id = row.job.tenant_id;
  collection_id = row.job.collection_id;
  document_version_id = row.job.document_version_id;
  attempt_number = attempt_number;
  max_attempts = row.job.max_attempts;
  object_key = row.version.object_key;
  content_sha256 = row.version.content_sha256;
  size_bytes = row.version.size_bytes;
  pipeline_profile = row.version.pipeline_profile;
  original_artifact_id = row.original.id;
}

-- `if row["version_state"] == VersionState.QUEUED`
unfoldable pub start_parsing :
    NativeRow → (worker_id : String) → (attempt_number : ℕ) → Session (Unit {0})
start_parsing row worker_id attempt_number = do
  parsing ←
      worker_transition row.version VersionState.parsing worker_id
        (EventKey.worker_parsing row.job.id attempt_number) none none
  pure tt

unfoldable pub begin_parsing :
    NativeRow → (worker_id : String) → (attempt_number : ℕ) → Session (Unit {0})
begin_parsing row worker_id attempt_number =
    if row.version.state is VersionState.queued
    then start_parsing row worker_id attempt_number
    else pure tt

-- The last part of `claim`: the job is taken.
unfoldable pub take_job :
    NativeRow → (worker_id : String) → (now lease_duration : ℕ) → Session (Option ClaimedNativeJob)
unfolding new_attempt
take_job row worker_id now lease_duration = do
  modify (expire_attempt now row.job)
  let attempt_number = row.job.attempt_count + 1
  modify (update_job row.job.id (held_by worker_id attempt_number (now + lease_duration)))
  insert_attempt (new_attempt row.job worker_id attempt_number)
  begin_parsing row worker_id attempt_number
  pure (some (claimed row attempt_number))

unfoldable pub claim_row :
    NativeRow → (worker_id : String) → (now lease_duration : ℕ) → Session (Option ClaimedNativeJob)
claim_row row worker_id now lease_duration =
    if is_finished row.job.state
    then pure none
    else if is_in row.version.state stopped_states
    then modify (cancel_job now row.job) >> pure none
    else if lease_is_live now row.job
    then pure none
    else if leb row.job.max_attempts row.job.attempt_count
    then exhaust_job row worker_id >> pure none
    else take_job row worker_id now lease_duration

unfoldable pub claim :
    (tenant_id document_version_id job_id : Uuid) (worker_id : String) (now lease_duration : ℕ)
    → Session (Option ClaimedNativeJob)
claim tenant_id document_version_id job_id worker_id now lease_duration = do
  row ← gets (native_row tenant_id document_version_id job_id)
  found ← require row ServiceError.invalid_job_identity
  claim_row found worker_id now lease_duration
