-- ===== src/Catalog/Lifecycle.antt =====
-- app/services/catalog/operations_repository.py: `lifecycle_request`. `now` is the time of the
-- transaction. The source document is locked and the version read again under the lock: the
-- second read is the one that counts.
pub mod Cancelled
pub mod Audited
use text.Mathlib.Text.{◌==◌ as str_eq}
use atlas_rag.Common.{
  ℕ, zero, suc, Bool, true, false, not, ◌&&◌, ◌||◌, String, Option, none, some, List, [], ◌∷◌, ◌==◌,
  if◌then◌else◌, any, max, update_where, find,
}
use atlas_rag.Catalog.Enums.{VersionState, IngestionStage, JobState, ◌is◌, same_stage, is_in}
use atlas_rag.Catalog.StateMachine.{Operation, validate_reprocessing_source, TransitionError}
use atlas_rag.Catalog.Versions.{get_version, find_version}
use atlas_rag.Catalog.Transitions.{
  transition_catalog_version, create_ingestion_job, insert_event, is_unfinished,
}
use atlas_rag.Catalog.Operations.{Ids, latest_job_id, same_type}
use atlas_rag.Database.Session.{
  Session, ServiceError, ConflictReason, Constraint, ◌>>=◌, ◌>>◌, gets, raise_when, modify, lift,
  pure, raise,
}
use atlas_rag.Database.{
  Uuid, Principal, DocumentVersion, VersionKey, Store, TransitionEvent, ArtifactType, EventKey,
  Actor, RequestState, LifecycleRequest, IngestionJob, JobAttempt, AttemptOutcome,
}
use atlas_rag.Common.Result.{Result, map_err}
use atlas_rag.Common.Int.{pos}
use atlas_rag.Catalog.Reprocessing.{create_reprocessed_version}

-- The stage whose job answers a repeated request.
unfoldable pub replay_stage : Operation → IngestionStage
replay_stage Operation.delete = IngestionStage.delete
replay_stage Operation.reprocess = IngestionStage.chunk
replay_stage _ = IngestionStage.preflight

operation_code : Operation → ℕ
operation_code Operation.delete = 0
operation_code Operation.supersede = 1
operation_code Operation.reprocess = 2
operation_code Operation.cancel = 3
operation_code Operation.retry = 4
operation_code Operation.reconcile = 5
operation_code Operation.advance = 6
operation_code (Operation.other name) = 7

unfoldable pub operation_eq : Operation → Operation → Bool
unfolding operation_code
operation_eq (Operation.other a) (Operation.other b) = str_eq a b
operation_eq a b = operation_code a == operation_code b

unfoldable pub is_pending : RequestState → Bool
is_pending RequestState.pending = true
is_pending _ = false

-- `uq_lifecycle_requests_idempotency`, and the look-up of an earlier request by its key.
unfoldable pub same_request : (tenant_id collection_id : Uuid) → String → LifecycleRequest → Bool
same_request tenant_id collection_id key r =
    (r.tenant_id == tenant_id) && (r.collection_id == collection_id) && str_eq r.idempotency_key key

-- `cancelled AS (UPDATE ingestion_jobs ...)`
unfoldable pub is_cancellable : (tenant_id version_id : Uuid) → IngestionJob → Bool
is_cancellable tenant_id version_id j =
    (j.tenant_id == tenant_id) && (j.document_version_id == version_id) && is_unfinished j.state

cancelled_job : IngestionJob → IngestionJob
cancelled_job j = record j {
  state = JobState.cancelled;
  lease_owner = none;
  lease_expires_at = none;
}

abbrev unfinished_attempt : Option ℕ → Bool
unfinished_attempt none = true
unfinished_attempt (some finished_at) = false

-- The open attempt of a job that is being cancelled.
unfoldable pub is_open_attempt_of : Uuid → IngestionJob → JobAttempt → Bool
is_open_attempt_of tenant_id j a =
    (a.tenant_id == tenant_id)
    && (a.job_id == j.id)
    && (a.attempt_number == j.attempt_count)
    && unfinished_attempt a.finished_at

cancelled_attempt : (now : ℕ) → JobAttempt → JobAttempt
cancelled_attempt now a = record a {
  finished_at = some now;
  outcome = some AttemptOutcome.cancelled;
  reason_code = some "LIFECYCLE_CANCELLED";
}

-- `_cancel_active_jobs`: both updates read the jobs as they were.
unfoldable pub cancel_active_jobs : (now : ℕ) (tenant_id version_id : Uuid) → Store → Store
unfolding cancelled_job cancelled_attempt
cancel_active_jobs now tenant_id version_id s = record s {
  jobs = update_where (is_cancellable tenant_id version_id) cancelled_job s.jobs;
  attempts =
      update_where
        (λ a.
          any (λ j. is_cancellable tenant_id version_id j && is_open_attempt_of tenant_id j a)
            s.jobs)
        (cancelled_attempt now) s.attempts;
}

-- `_has_active_deletion_job`
unfoldable pub has_active_deletion_job : (tenant_id version_id : Uuid) → Store → Bool
has_active_deletion_job tenant_id version_id s =
    any
      (λ j.
        (j.tenant_id == tenant_id)
        && (j.document_version_id == version_id)
        && same_stage j.stage IngestionStage.delete
        && is_unfinished j.state)
      s.jobs

-- What a request answers: itself, the state of the version and the job to dispatch.
abbrev pub Answer : Type 0
Answer = LifecycleRequest × VersionState × Option Uuid

abbrev state_of : Option DocumentVersion → VersionState → VersionState
state_of none other = other
state_of (some v) other = v.state

-- The branch of a key that was used before. The version of a request is never removed.
unfoldable pub replay_request :
    Principal
    → (version_id : Uuid) → DocumentVersion
    → Operation
    → LifecycleRequest
    → Session Answer
replay_request principal version_id source operation existing = do
  raise_when
      (not (existing.source_document_version_id == version_id)
        || not (operation_eq existing.request_type operation))
      (ServiceError.conflict ConflictReason.key_reused)
  job_id ← gets (λ s.
      if is_pending existing.state && not (operation_eq operation Operation.cancel)
      then latest_job_id principal.tenant_id existing.document_version_id (replay_stage operation) s
      else none)
  state ← gets (λ s. state_of (find_version existing.document_version_id s.versions) source.state)
  pure (existing, state, job_id)

-- `INSERT INTO lifecycle_requests`
unfoldable pub insert_request : LifecycleRequest → Session (Unit {0})
insert_request new = do
  taken ←
      gets (λ s. any (same_request new.tenant_id new.collection_id new.idempotency_key) s.requests)
  raise_when taken (ServiceError.integrity Constraint.request_key)
  modify (λ s. record s { requests = new ∷ s.requests })

-- The version that a request is about: for a reprocessing a new one.
unfoldable pub target_version :
    Principal
    → DocumentVersion
    → Operation
    → (pipeline_profile : Option String) → Ids
    → Session DocumentVersion
target_version principal source Operation.reprocess none ids =
    raise (ServiceError.conflict ConflictReason.profile_required)
target_version principal source Operation.reprocess (some pipeline_profile) ids =
    create_reprocessed_version principal source pipeline_profile ids
target_version principal source _ pipeline_profile ids = pure source

unfoldable pub request_state : Operation → VersionState → RequestState
request_state operation state =
    if operation_eq operation Operation.cancel
      || (operation_eq operation Operation.delete && (state is VersionState.deleted))
    then RequestState.succeeded
    else RequestState.pending

abbrev with_job :
    Principal → DocumentVersion → IngestionStage → ℕ → Ids → Session (DocumentVersion × Option Uuid)
with_job principal version stage job_max_attempts ids = do
  job_id ←
      create_ingestion_job principal version stage job_max_attempts (some ids.request_id) ids.job_id
  pure (version, some job_id)

-- The last part of `lifecycle_request`: what each operation does.
unfoldable pub perform :
    Principal
    → DocumentVersion
    → Operation
    → RequestState
    → (now job_max_attempts : ℕ) → Ids
    → Session (DocumentVersion × Option Uuid)
perform principal version Operation.cancel state now job_max_attempts ids = do
  cancelled ←
      transition_catalog_version principal version VersionState.cancelled Operation.cancel none
        (EventKey.lifecycle ids.request_id)
  modify (cancel_active_jobs now principal.tenant_id cancelled.id)
  pure (cancelled, none)
perform principal version Operation.retry state now job_max_attempts ids = do
  queued ←
      transition_catalog_version principal version VersionState.queued Operation.retry none
        (EventKey.lifecycle ids.request_id)
  with_job principal queued IngestionStage.preflight job_max_attempts ids
perform principal version Operation.reprocess state now job_max_attempts ids =
    with_job principal version IngestionStage.chunk job_max_attempts ids
perform principal version Operation.delete RequestState.pending now job_max_attempts ids =
    with_job principal version IngestionStage.delete job_max_attempts ids
perform principal version _ state now job_max_attempts ids = pure (version, none)

unfoldable pub request_row :
    Principal
    → (version source : DocumentVersion) → Operation
    → (idempotency_key : String) → Ids
    → LifecycleRequest
request_row principal version source operation idempotency_key ids = record {
  id = ids.request_id;
  tenant_id = principal.tenant_id;
  collection_id = version.collection_id;
  document_version_id = version.id;
  source_document_version_id = source.id;
  request_type = operation;
  idempotency_key = idempotency_key;
  requested_by = principal.subject;
  state = request_state operation version.state;
}

-- The branch of a new key.
unfoldable pub new_request :
    Principal
    → (version_id : Uuid) → DocumentVersion
    → Operation
    → (idempotency_key : String) → (now job_max_attempts : ℕ) → (pipeline_profile : Option String)
    → Ids
    → Session Answer
new_request principal version_id source operation idempotency_key now job_max_attempts
      pipeline_profile ids =
    do
      deleting ← gets (λ s.
          operation_eq operation Operation.delete
          && has_active_deletion_job principal.tenant_id version_id s)
      raise_when deleting (ServiceError.conflict ConflictReason.deletion_in_progress)
      version ← target_version principal source operation pipeline_profile ids
      let request = request_row principal version source operation idempotency_key ids
      insert_request request
      (final, job_id) ← perform principal version operation request.state now job_max_attempts ids
      pure (request, final.state, job_id)

abbrev replay_or_create :
    Option LifecycleRequest → (LifecycleRequest → Session Answer) → Session Answer → Session Answer
replay_or_create none replay create = create
replay_or_create (some existing) replay create = replay existing

unfoldable pub lifecycle_request :
    Principal
    → (version_id : Uuid) → Operation
    → (idempotency_key : String) → (now job_max_attempts : ℕ) → (pipeline_profile : Option String)
    → Ids
    → Session Answer
lifecycle_request principal version_id operation idempotency_key now job_max_attempts
      pipeline_profile ids =
    do
      source ← get_version principal version_id true
      existing ← gets (λ s.
          find (same_request principal.tenant_id source.collection_id idempotency_key) s.requests)
      replay_or_create existing (replay_request principal version_id source operation) (
          new_request principal version_id source operation idempotency_key now job_max_attempts
            pipeline_profile ids)
