-- ===== src/Catalog/Transitions.antt =====
-- app/services/catalog/operation_transitions.py: a transition of a version on behalf of the API,
-- and the creation of a job. The ids that `uuid4` makes are arguments.
pub mod Audit
pub mod Recorded
pub mod Kept
use text.Mathlib.Text.{◌==◌ as str_eq}
use atlas_rag.Common.{
  ℕ, zero, suc, ◌+◌, Bool, true, false, not, ◌&&◌, ◌||◌, String, Option, none, some, List, [], ◌∷◌,
  ◌==◌, max, if◌then◌else◌, any,
}
use atlas_rag.Catalog.StateMachine.{
  Operation, VersionSnapshot, Change, transition_version, TransitionError,
}
use atlas_rag.Database.{
  Uuid, Principal, DocumentVersion, EventKey, Actor, TransitionEvent, IngestionJob, Store,
}
use atlas_rag.Catalog.Versions.{update_version}
use atlas_rag.Catalog.Enums.{◌is◌, VersionState, JobState, IngestionStage, same_stage}
use atlas_rag.Database.Session.{
  Session, ServiceError, ConflictReason, ◌>>=◌, ◌>>◌, gets, lift, pure, raise_when, Constraint,
  modify,
}
use atlas_rag.Common.Result.{map_err}

unfoldable pub event_key_eq : EventKey → EventKey → Bool
event_key_eq EventKey.upload_validating EventKey.upload_validating = true
event_key_eq EventKey.upload_rejected EventKey.upload_rejected = true
event_key_eq EventKey.upload_queued EventKey.upload_queued = true
event_key_eq (EventKey.lifecycle a) (EventKey.lifecycle b) = a == b
event_key_eq (EventKey.worker_parsing a m) (EventKey.worker_parsing b n) = (a == b) && (m == n)
event_key_eq (EventKey.worker_state a s) (EventKey.worker_state b t) = (a == b) && (s is t)
event_key_eq (EventKey.worker_terminal a r) (EventKey.worker_terminal b q) = (a == b) && str_eq r q
event_key_eq (EventKey.worker_exhausted a) (EventKey.worker_exhausted b) = a == b
event_key_eq (EventKey.ocr_normalizing a) (EventKey.ocr_normalizing b) = a == b
event_key_eq (EventKey.ocr_chunking a) (EventKey.ocr_chunking b) = a == b
event_key_eq (EventKey.worker_promote a) (EventKey.worker_promote b) = a == b
event_key_eq _ _ = false

-- The events of one version.
abbrev pub of_version : TransitionEvent → TransitionEvent → Bool
of_version new e =
    (e.tenant_id == new.tenant_id)
    && (e.collection_id == new.collection_id)
    && (e.document_version_id == new.document_version_id)

-- `uq_version_transition_idempotency` and `uq_version_transition_revision`
unfoldable pub key_taken : TransitionEvent → List TransitionEvent → Bool
key_taken new = any (λ e. of_version new e && event_key_eq e.idempotency_key new.idempotency_key)

unfoldable pub revision_taken : TransitionEvent → List TransitionEvent → Bool
revision_taken new = any (λ e. of_version new e && (e.to_revision == new.to_revision))

-- `INSERT INTO version_transition_events`, under its two unique constraints.
unfoldable pub insert_event : TransitionEvent → Session (Unit {0})
insert_event new = do
  key ← gets (λ s. key_taken new s.events)
  raise_when key (ServiceError.integrity Constraint.event_key)
  revision ← gets (λ s. revision_taken new s.events)
  raise_when revision (ServiceError.integrity Constraint.event_revision)
  modify (λ s. record s { events = new ∷ s.events })

unfoldable pub snapshot_of : DocumentVersion → VersionSnapshot
snapshot_of v = record {
  state = v.state;
  revision = v.state_revision;
  progress_completed = v.progress_completed;
  progress_total = v.progress_total;
  terminal_reason_code = v.terminal_reason_code;
}

-- The call of `transition_version`: no progress and no evidence is given.
unfoldable pub change_to : DocumentVersion → VersionState → Operation → Option String → Change
change_to v target operation reason_code = record {
  target = target;
  expected_revision = v.state_revision;
  progress_completed = none;
  progress_total = none;
  terminal_reason_code = reason_code;
  publication_evidence = none;
  operation = operation;
}

-- `SET state, state_revision, terminal_reason_code`
unfoldable pub moved : VersionSnapshot → DocumentVersion → DocumentVersion
moved t v = record v {
  state = t.state;
  state_revision = t.revision;
  terminal_reason_code = t.terminal_reason_code;
}

unfoldable pub transition_event :
    (tenant_id : Uuid)
    → DocumentVersion
    → VersionSnapshot
    → Operation
    → EventKey
    → Actor
    → TransitionEvent
transition_event tenant_id v t operation event_key actor = record {
  tenant_id = tenant_id;
  collection_id = v.collection_id;
  document_version_id = v.id;
  idempotency_key = event_key;
  from_state = v.state;
  to_state = t.state;
  from_revision = v.state_revision;
  to_revision = t.revision;
  operation = operation;
  actor = actor;
}

unfoldable pub api_event :
    Principal → DocumentVersion → VersionSnapshot → Operation → EventKey → TransitionEvent
unfolding transition_event
api_event principal v t operation event_key =
    transition_event principal.tenant_id v t operation event_key (Actor.api principal.subject)

illegal_conflict : TransitionError → ServiceError
illegal_conflict e = ServiceError.conflict (ConflictReason.illegal e)

-- The `UPDATE` and the `INSERT` of `transition_catalog_version`.
unfoldable pub store_transition :
    Principal → DocumentVersion → Operation → EventKey → VersionSnapshot → Session DocumentVersion
store_transition principal version operation event_key transitioned = do
  updated ←
      update_version principal.tenant_id version.id version.state_revision (moved transitioned)
        (ServiceError.conflict ConflictReason.changed_concurrently)
  insert_event (api_event principal version transitioned operation event_key)
  pure updated

unfoldable pub transition_catalog_version :
    Principal
    → DocumentVersion
    → VersionState
    → Operation
    → (reason_code : Option String) → EventKey
    → Session DocumentVersion
unfolding illegal_conflict
transition_catalog_version principal version target operation reason_code event_key = do
  transitioned ← lift (
      map_err illegal_conflict
        (transition_version (snapshot_of version) (change_to version target operation reason_code)))
  store_transition principal version operation event_key transitioned

-- `state IN ('pending', 'leased', 'running', 'retry_scheduled')`
unfoldable pub is_unfinished : JobState → Bool
is_unfinished JobState.pending = true
is_unfinished JobState.leased = true
is_unfinished JobState.running = true
is_unfinished JobState.retry_scheduled = true
is_unfinished _ = false

-- The jobs of a version at one stage.
unfoldable pub at_stage : (tenant_id version_id : Uuid) → IngestionStage → IngestionJob → Bool
at_stage tenant_id version_id stage j =
    (j.tenant_id == tenant_id) && (j.document_version_id == version_id) && same_stage j.stage stage

-- `COALESCE(max(generation), -1) + 1`
unfoldable pub next_generation : (IngestionJob → Bool) → List IngestionJob → ℕ
next_generation p [] = 0
next_generation p (j ∷ jobs) =
    let rest = next_generation p jobs in if p j then max (j.generation + 1) rest else rest

-- `uq_ingestion_jobs_delivery`
unfoldable pub is_delivery_of : IngestionJob → IngestionJob → Bool
unfolding at_stage
is_delivery_of new j =
    at_stage new.tenant_id new.document_version_id new.stage j
    && (j.collection_id == new.collection_id)
    && (j.generation == new.generation)

-- `uq_ingestion_jobs_active_delete`
unfoldable pub is_active_delete_of : IngestionJob → IngestionJob → Bool
unfolding at_stage
is_active_delete_of new j =
    at_stage new.tenant_id new.document_version_id IngestionStage.delete j
    && (j.collection_id == new.collection_id)
    && is_unfinished j.state

-- `INSERT INTO ingestion_jobs`
unfoldable pub insert_job : IngestionJob → Session (Unit {0})
insert_job new = do
  delivered ← gets (λ s. any (is_delivery_of new) s.jobs)
  raise_when delivered (ServiceError.integrity Constraint.job_delivery)
  deleting ←
      gets (λ s. same_stage new.stage IngestionStage.delete && any (is_active_delete_of new) s.jobs)
  raise_when deleting (ServiceError.integrity Constraint.active_delete)
  modify (λ s. record s { jobs = new ∷ s.jobs })

-- The row of `create_ingestion_job`: the columns that are not named have their defaults.
unfoldable pub new_job :
    Principal
    → DocumentVersion
    → IngestionStage
    → (generation max_attempts : ℕ) → Option Uuid
    → Uuid
    → IngestionJob
new_job principal version stage generation max_attempts lifecycle_request_id job_id = record {
  id = job_id;
  tenant_id = principal.tenant_id;
  collection_id = version.collection_id;
  document_version_id = version.id;
  stage = stage;
  state = JobState.pending;
  generation = generation;
  attempt_count = 0;
  max_attempts = max_attempts;
  lease_owner = none;
  lease_expires_at = none;
  retry_at = none;
  terminal_reason_code = none;
  lifecycle_request_id = lifecycle_request_id;
  publication_target = none;
}

unfoldable pub create_ingestion_job :
    Principal
    → DocumentVersion
    → IngestionStage
    → (max_attempts : ℕ) → (lifecycle_request_id : Option Uuid) → (job_id : Uuid) → Session Uuid
create_ingestion_job principal version stage max_attempts lifecycle_request_id job_id = do
  generation ← gets (λ s. next_generation (at_stage principal.tenant_id version.id stage) s.jobs)
  insert_job (new_job principal version stage generation max_attempts lifecycle_request_id job_id)
  pure job_id
