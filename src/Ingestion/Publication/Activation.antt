-- ===== src/Ingestion/Publication/Activation.antt =====
-- app/services/ingestion/publication_activation.py, publication_repository.py
-- (lock_index_for_activation, finalize_index) and publication_promotion.py: how a version becomes
-- ready, in one transaction with the end of the version that it replaces. The trigger
-- enforce_ready_publication, which checks evidence of the same kind once more, is left out: it can
-- only refuse.
pub mod Steps
pub mod Revoked
pub mod Promoted
pub mod Activated
pub mod Audited
use text.Mathlib.Text.{◌==◌ as str_eq}
use atlas_rag.Common.{
  ℕ, List, Option, Bool, some, String, suc, true, ◌&&◌, ◌==◌, update_where, if◌then◌else◌, false,
  none, not, ltb, [], ◌∷◌, ◌||◌, filter, any, group_by,
}
use atlas_rag.Catalog.Enums.{VersionState}
use atlas_rag.Ingestion.Publication.{ClaimedPublicationJob}
use atlas_rag.Ingestion.Publication.Index.{
  is_live_of, same_group, revoke, PreparedIndexPublication, count_chunks,
}
use atlas_rag.Database.{
  IndexPublication, DocumentVersion, Store, PublicationKind, SearchTarget, TransitionEvent,
  EventKey, RequestState, Uuid, Actor,
}
use atlas_rag.Ingestion.NativeJobs.{ClaimedNativeJob, worker_transition, is_null}
use atlas_rag.Common.Result.{Result, ok, err}
use atlas_rag.Catalog.Versions.{find_version, write_version}
use atlas_rag.Database.Session.{
  ServiceError, Session, ◌>>=◌, ◌>>◌, gets, pure, modify, raise_when, lift, require,
}
use atlas_rag.Ingestion.NativeJobs.Finish.{
  finish_lifecycle_request, close_success, locked_job_version,
}
use atlas_rag.Ingestion.Publication.Evidence.{same_kind, require_publication_evidence}
use atlas_rag.Ingestion.Search.{SearchTargetPublication, enqueue_cleanups}
use atlas_rag.Ingestion.Publication.Artifacts.{is_original_run}
use atlas_rag.Catalog.StateMachine.{Operation}
use atlas_rag.Catalog.Transitions.{insert_event}

abbrev pub is_ready_state : VersionState → Bool
is_ready_state VersionState.ready = true
is_ready_state VersionState.ready_with_warnings = true
is_ready_state _ = false

-- The version that a reprocessing replaces.
abbrev pub at_source : ClaimedPublicationJob → Option DocumentVersion → Option DocumentVersion
at_source job none = none
at_source job (some v) =
    if (v.tenant_id == job.native.tenant_id) && (v.collection_id == job.native.collection_id)
    then some v
    else none

unfoldable pub source_version : ClaimedPublicationJob → Store → Option DocumentVersion
source_version job s = at_source job (find_version job.source_document_version_id s.versions)

unfoldable pub is_source_row : ClaimedPublicationJob → IndexPublication → Bool
unfolding is_live_of
is_source_row job p =
    is_live_of job.native.tenant_id job.native.collection_id job.source_document_version_id p

unfoldable pub in_group_as : IndexPublication → PublicationKind → IndexPublication → Bool
unfolding same_group
in_group_as g kind p = same_group g p && same_kind p.publication_kind kind

-- The checks on one row of `source_rows`.
unfoldable pub check_source_group :
    List IndexPublication → IndexPublication → Result ServiceError SearchTargetPublication
unfolding in_group_as
check_source_group rows g =
    let record_count = count_chunks (same_group g) rows in
    if ltb record_count 1
      || not (count_chunks (in_group_as g PublicationKind.lexical) rows == record_count)
      || not (count_chunks (in_group_as g PublicationKind.vector) rows == record_count)
    then err ServiceError.source_incomplete
    else if any (λ p. same_group g p && is_null p.activated_at) rows
    then err ServiceError.source_not_activated
    else ok (record { target = g.target; record_count = record_count; publication = g.publication })

abbrev pub first_error :
    {A : Type 0}
    → Result ServiceError A
    → Result ServiceError (List A)
    → Result ServiceError (List A)
first_error (err e) rest = err e
first_error (ok a) (err e) = err e
first_error (ok a) (ok rest) = ok (a ∷ rest)

unfoldable pub check_source_groups :
    List IndexPublication
    → List IndexPublication
    → Result ServiceError (List SearchTargetPublication)
unfolding check_source_group
check_source_groups rows [] = ok []
check_source_groups rows (g ∷ groups) =
    first_error (check_source_group rows g) (check_source_groups rows groups)

-- A target name with two versions.
unfoldable pub conflicts_with : IndexPublication → IndexPublication → Bool
conflicts_with a b =
    str_eq a.target.name b.target.name && not (str_eq a.target.version b.target.version)

abbrev pub unless_conflict :
    Bool
    → Result ServiceError (List SearchTargetPublication)
    → Result ServiceError (List SearchTargetPublication)
unless_conflict conflict (err e) = err e
unless_conflict true (ok targets) = err ServiceError.targets_conflict
unless_conflict false (ok targets) = ok targets

unfoldable pub check_source_rows :
    List IndexPublication → Result ServiceError (List SearchTargetPublication)
unfolding check_source_groups conflicts_with
check_source_rows [] = err ServiceError.source_unpublished
check_source_rows (p ∷ rows) =
    unless_conflict (any (λ a. any (conflicts_with a) (p ∷ rows)) (p ∷ rows))
      (check_source_groups (p ∷ rows) (group_by same_group (p ∷ rows)))

abbrev pub check_source :
    Option DocumentVersion
    → List IndexPublication
    → Result ServiceError (List SearchTargetPublication)
check_source none rows = err ServiceError.no_row
check_source (some source) rows =
    if is_ready_state source.state then check_source_rows rows else err ServiceError.source_inactive

-- `source_targets` of `lock_index_for_activation`
unfoldable pub active_source :
    ClaimedPublicationJob → Store → Result ServiceError (List SearchTargetPublication)
unfolding is_source_row check_source_rows
active_source job s =
    if is_original_run job
    then ok []
    else check_source (source_version job s) (filter (is_source_row job) s.publications)

unfoldable pub lock_index_for_activation :
    ClaimedPublicationJob → (worker_id : String) → SearchTarget → Session PreparedIndexPublication
lock_index_for_activation job worker_id target = do
  checked ← gets (active_source job)
  sources ← lift checked
  locked ← locked_job_version job.native worker_id
  evidence ← require_publication_evidence job.native target
  pure (record { locked_version = locked; evidence = evidence; source_targets = sources })

-- `SET state = 'superseded', state_revision = previous.state_revision + 1`
unfoldable pub superseded_version : DocumentVersion → DocumentVersion
superseded_version v = record v {
  state = VersionState.superseded;
  state_revision = suc v.state_revision;
}

abbrev pub promotable : Option DocumentVersion → Option DocumentVersion
promotable none = none
promotable (some v) = if is_ready_state v.state then some v else none

abbrev pub supersede_row : Option DocumentVersion → Store → Store
supersede_row none s = s
supersede_row (some v) s = write_version v.id (superseded_version v) s

unfoldable pub is_of_source : ClaimedPublicationJob → IndexPublication → Bool
is_of_source job p =
    (p.tenant_id == job.native.tenant_id)
    && (p.collection_id == job.native.collection_id)
    && (p.document_version_id == job.source_document_version_id)

unfoldable pub revoke_source : ClaimedPublicationJob → (now : ℕ) → Store → Store
unfolding is_of_source revoke
revoke_source job now s = record s {
  publications = update_where (is_of_source job) (revoke now) s.publications;
}

unfoldable pub promotion_event :
    ClaimedPublicationJob → (worker_id : String) → DocumentVersion → TransitionEvent
promotion_event job worker_id previous = record {
  tenant_id = job.native.tenant_id;
  collection_id = job.native.collection_id;
  document_version_id = job.source_document_version_id;
  idempotency_key = EventKey.worker_promote job.native.id;
  from_state = previous.state;
  to_state = VersionState.superseded;
  from_revision = previous.state_revision;
  to_revision = suc previous.state_revision;
  operation = Operation.supersede;
  actor = Actor.worker worker_id;
}

unfoldable pub supersede_source_version :
    ClaimedPublicationJob → (worker_id : String) → (now : ℕ) → Session (Unit {0})
unfolding superseded_version revoke_source promotion_event
supersede_source_version job worker_id now = do
  source ← gets (λ s. promotable (source_version job s))
  modify (supersede_row source)
  modify (revoke_source job now)
  previous ← require source ServiceError.source_not_promotable
  insert_event (promotion_event job worker_id previous)

-- `if job.source_document_version_id != job.document_version_id`
unfoldable pub promote :
    ClaimedPublicationJob → (worker_id : String) → (now : ℕ) → Session (Unit {0})
promote job worker_id now =
    if is_original_run job then pure tt else supersede_source_version job worker_id now

-- `_complete_job`, and the end of the request that the job works for.
unfoldable pub close_index : ClaimedNativeJob → (now : ℕ) → Store → Store
close_index job now s =
    finish_lifecycle_request job.id RequestState.succeeded (close_success job now s)

unfoldable pub finalize_index :
    ClaimedPublicationJob
    → (worker_id : String) → PreparedIndexPublication
    → (cleanup_id : ℕ → Uuid) → (now : ℕ) → Session (Unit {0})
finalize_index job worker_id prepared cleanup_id now = do
  modify (
      enqueue_cleanups cleanup_id job.native.tenant_id job.native.collection_id
        job.source_document_version_id prepared.source_targets (some job.native.document_version_id)
        now)
  moved ←
      worker_transition prepared.locked_version VersionState.ready worker_id
        (EventKey.worker_state job.native.id VersionState.ready) none (some prepared.evidence)
  promote job worker_id now
  modify (close_index job.native now)

-- The transaction of `PublicationActivator.activate`.
unfoldable pub activate :
    ClaimedPublicationJob
    → (worker_id : String) → SearchTarget
    → (expected_records : ℕ) → (cleanup_id : ℕ → Uuid) → (now : ℕ)
    → Session (List SearchTargetPublication)
activate job worker_id target expected_records cleanup_id now = do
  prepared ← lock_index_for_activation job worker_id target
  raise_when (not (prepared.evidence.chunk_count == expected_records))
      ServiceError.record_count_changed
  finalize_index job worker_id prepared cleanup_id now
  pure prepared.source_targets
