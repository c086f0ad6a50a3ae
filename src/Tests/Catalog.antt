-- ===== src/Tests/Catalog.antt =====
-- A collection with one version that was registered and not uploaded yet, and the completion of its
-- upload.
use atlas_rag.Catalog.Enums.{VersionState, is_in, ◌is◌, same_stage}
use atlas_rag.Common.{
  ◌≡◌, [], ◌∷◌, none, some, false, true, refl, arith, find, Option, any, update_where,
}
use atlas_rag.Database.{
  VersionKey, CollectionRole, TransitionEvent, Store, Principal, Membership, DocumentVersion,
  EventKey, Uuid, Actor,
}
use atlas_rag.Catalog.Operations.{
  Ids, complete_upload, queue_upload, queue_job, start_upload, reject_upload, already_completed,
  latest_job_id, latest_job, insert_artifact, set_detected_mime, is_output_of, same_type,
  original_artifact,
}
use atlas_rag.Catalog.Versions.{
  find_version, update_version, write_version, is_monotonic, get_version, is_member, is_editor,
}
use atlas_rag.Catalog.Transitions.Audit.{trail_of, IsAudited, registered}
use atlas_rag.Catalog.Transitions.Recorded.{IsTransition, transition_catalog_version-IsTransition}
use atlas_rag.Catalog.StateMachine.Accepted.{Accepted}
use atlas_rag.Catalog.Transitions.{
  create_ingestion_job, snapshot_of, transition_catalog_version, change_to, store_transition,
  insert_job, insert_event, moved, api_event, transition_event, key_taken, revision_taken,
  event_key_eq, next_generation, at_stage, is_delivery_of, is_active_delete_of, is_unfinished,
  new_job,
}
use atlas_rag.Common.Result.{Result, ok, err}
use atlas_rag.Database.Session.{ServiceError}
use atlas_rag.Catalog.Operations.Completed.{
  IsCompleted, complete_upload-IsCompleted, complete_upload_repeats,
}
use atlas_rag.Common.Int.{pos}
use atlas_rag.Catalog.StateMachine.{
  transition_version, validate_progress, Operation, validate_operation, allowed,
  validate_terminal_reason, validate_evidence,
}

abbrev pub editor : Principal
editor = record { subject = "editor"; tenant_id = 1 }

abbrev membership : Membership
membership = record {
  tenant_id = 1;
  collection_id = 2;
  principal_subject = "editor";
  role = CollectionRole.editor;
}

abbrev pub version : DocumentVersion
version = record {
  id = 7;
  tenant_id = 1;
  collection_id = 2;
  document_id = 3;
  version_number = 1;
  idempotency_key = VersionKey.client "upload-1";
  content_sha256 = "aa";
  size_bytes = 1000;
  page_count = none;
  detected_mime = none;
  object_key = "documents/7";
  source_uri_policy = "none";
  pipeline_profile = "default";
  state = VersionState.received;
  state_revision = 0;
  progress_completed = pos 0;
  progress_total = pos 0;
  terminal_reason_code = none;
  reprocessed_from_version_id = none;
}

abbrev pub store : Store
store = record {
  tenants = 1 ∷ [];
  collections = [];
  memberships = membership ∷ [];
  documents = [];
  versions = version ∷ [];
  events = [];
  jobs = [];
  attempts = [];
  requests = [];
  artifacts = [];
  chunks = [];
  embeddings = [];
  publications = [];
  cleanups = [];
}

abbrev pub ids : Ids
ids = record { request_id = 30; job_id = 40; version_id = 50; artifact_id = 60 }

unfoldable pub program : Unit {0}
unfolding complete_upload queue_upload queue_job start_upload reject_upload already_completed
    latest_job_id latest_job transition_catalog_version store_transition create_ingestion_job
    insert_job insert_event insert_artifact set_detected_mime update_version write_version
    is_monotonic get_version find_version is_member is_editor any find update_where
    transition_version validate_progress validate_operation allowed is_in ◌is◌
    validate_terminal_reason validate_evidence snapshot_of change_to moved api_event
    transition_event key_taken revision_taken event_key_eq next_generation at_stage is_delivery_of
    is_active_delete_of is_unfinished new_job same_stage is_output_of same_type original_artifact
program = tt

is_version : (k : Uuid) (v : DocumentVersion) → find_version k store.versions ≡ some v → v ≡ version
unfolding find_version find
is_version k v h = ground arith

pub store-IsAudited : IsAudited store
unfolding trail_of
store-IsAudited = record {
  trail = λ k v h. rw (is_version k v h) registered;
  no_orphan = λ k h. refl;
}

abbrev validating : DocumentVersion
validating = record version { state = VersionState.validating; state_revision = 1 }

abbrev begun : TransitionEvent
begun = record {
  tenant_id = 1;
  collection_id = 2;
  document_version_id = 7;
  idempotency_key = EventKey.upload_validating;
  from_state = VersionState.received;
  to_state = VersionState.validating;
  from_revision = 0;
  to_revision = 1;
  operation = Operation.advance;
  actor = Actor.api "editor";
}

abbrev store_after : Store
store_after = record store { versions = validating ∷ []; events = begun ∷ [] }

transition_catalog_version-IsTransition_example :
    IsTransition editor version version validating VersionState.validating Operation.advance
      EventKey.upload_validating store store_after
unfolding program
transition_catalog_version-IsTransition_example =
    transition_catalog_version-IsTransition editor version version validating
      VersionState.validating Operation.advance none EventKey.upload_validating store store_after
      store-IsAudited refl (record { same_state = refl; same_revision = refl }) refl

abbrev pub version_of :
    Result ServiceError ((DocumentVersion × Option Uuid) × Store) → DocumentVersion
version_of (ok ((v, j), s)) = v
version_of (err e) = version

abbrev pub store_of : {A : Type 0} → Result ServiceError (A × Store) → Store
store_of (ok (a, s)) = s
store_of (err e) = store

abbrev pub upload : Result ServiceError ((DocumentVersion × Option Uuid) × Store)
upload = complete_upload editor 7 ids true none "application/pdf" 3 store

complete_upload-IsCompleted_example :
    (v : DocumentVersion) × IsCompleted editor 7 true v
      (version_of upload)
      (some 40)
      store
      (store_of upload)
unfolding program
complete_upload-IsCompleted_example =
    complete_upload-IsCompleted editor 7 ids true none "application/pdf" 3 store (store_of upload)
      (version_of upload) (some 40) store-IsAudited refl

complete_upload_repeats_example :
    complete_upload editor 7
      (record ids { job_id = 41 })
      false
      (some "X")
      "text/plain"
      9
      (store_of upload)
    ≡ ok ((version_of upload, some 40), store_of upload)
unfolding program
complete_upload_repeats_example =
    complete_upload_repeats editor 7 ids (record ids { job_id = 41 }) true false none (some "X")
      "application/pdf" "text/plain" 3 9 store (store_of upload) (version_of upload) 40
      store-IsAudited refl
