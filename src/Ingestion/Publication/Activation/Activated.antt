-- ===== src/Ingestion/Publication/Activation/Activated.antt =====
-- app/services/ingestion/publication_activation.py: the transaction that makes a version ready.
use atlas_rag.Common.{
  ℕ, List, String, ◌≡◌, some, none, refl, false, ap, Bool-cases, inl, inr, Option, not, ◌==◌, arith,
  sym,
}
use atlas_rag.Ingestion.Publication.{ClaimedPublicationJob}
use atlas_rag.Ingestion.Publication.Activation.{
  close_index, promote, finalize_index, activate, lock_index_for_activation, active_source,
}
use atlas_rag.Database.{SearchTarget, Store, DocumentVersion, Uuid, EventKey}
use atlas_rag.Ingestion.NativeJobs.Finish.{finish_lifecycle_request, close_success, end_job}
use atlas_rag.Ingestion.Search.{SearchTargetPublication, enqueue_cleanups}
use atlas_rag.Catalog.Transitions.Audit.{IsAudited, find_version-id, some-eq}
use atlas_rag.Ingestion.NativeJobs.{
  update_job, finish_attempt, update_attempts, ClaimedNativeJob, worker_change, worker_transition,
}
use atlas_rag.Catalog.Versions.{find_version}
use atlas_rag.Catalog.StateMachine.{PublicationEvidence}
use atlas_rag.Ingestion.Publication.Evidence.{evidence_of}
use atlas_rag.Ingestion.Publication.Activation.Revoked.{HasForeignKeys}
use atlas_rag.Catalog.Enums.{VersionState, JobState}
use atlas_rag.Ingestion.Publication.Artifacts.{chunk_artifact, is_original_run}
use atlas_rag.Ingestion.NativeJobs.Audited.{worker_transition-IsWorkerMove}
use atlas_rag.Catalog.StateMachine.Accepted.{IsPublished}
use atlas_rag.Ingestion.NativeJobs.Fence.{HasStopped, update_job-HasStopped}
use atlas_rag.Common.Result.{ok}
use atlas_rag.Ingestion.Search.Enqueued.{enqueue_cleanups-ok}
use atlas_rag.Ingestion.Publication.Activation.Steps.{
  IsPrepared, lock_index_for_activation-IsPrepared,
}
use atlas_rag.Catalog.Transitions.Kept.{
  other_tables-IsAudited, other_tables-IsAuditedAt, read-IsAuditedAt,
}
use atlas_rag.Ingestion.Publication.Index.{PreparedIndexPublication}
use atlas_rag.Database.Session.{bind-eq-ok, ◌>>◌, modify, raise_when, Session, pure, ServiceError}
use atlas_rag.Catalog.StateMachine.Edges.{clean}
use atlas_rag.Ingestion.Publication.Activation.Promoted.{
  IsReplaced, promote-Audited, promote-IsReplaced,
}

pub record IsActivated (job : ClaimedPublicationJob) (target : SearchTarget) (expected : ℕ)
    (targets : List SearchTargetPublication) (ids : ℕ → Uuid) (now : ℕ) (s s' : Store)
    : Type 0 where
  pub audited : IsAudited s'
  pub sources : active_source job s ≡ ok targets
  pub version : DocumentVersion
  pub found : find_version job.native.document_version_id s'.versions ≡ some version
  pub ready : version.state ≡ VersionState.ready
  pub complete : IsPublished (evidence_of job.native target s')
  pub counted : (evidence_of job.native target s').chunk_count ≡ expected
  pub replaced : is_original_run job ≡ false → IsReplaced job targets ids now s s'
  pub stopped : HasStopped job.native.id s'

close_index-HasStopped :
    (job : ClaimedNativeJob) (now : ℕ) (s : Store) → HasStopped job.id (close_index job now s)
unfolding close_index finish_lifecycle_request close_success update_job finish_attempt
    update_attempts end_job
close_index-HasStopped job now s =
    update_job-HasStopped job.id (λ j. end_job JobState.succeeded j.terminal_reason_code j) s
      (close_index job now s) (λ _. refl) (λ _. refl) refl

-- The tables that the end of the job leaves alone.
close_index-same :
    (job : ClaimedNativeJob) (now : ℕ) (target : SearchTarget) (s : Store)
    → ((close_index job now s).versions ≡ s.versions)
      × ((close_index job now s).events ≡ s.events)
      × ((close_index job now s).publications ≡ s.publications)
      × ((close_index job now s).cleanups ≡ s.cleanups)
      × (evidence_of job target (close_index job now s) ≡ evidence_of job target s)
unfolding close_index finish_lifecycle_request close_success update_job finish_attempt
    update_attempts evidence_of chunk_artifact
close_index-same job now target s = (refl, refl, refl, refl, refl)

closed-IsReplaced :
    (job : ClaimedPublicationJob) (targets : List SearchTargetPublication) (ids : ℕ → Uuid)
    (now : ℕ) (s s3 s' : Store)
    → s'.versions ≡ s3.versions
    → s'.publications ≡ s3.publications
    → s'.cleanups ≡ s3.cleanups
    → IsReplaced job targets ids now s s3
    → IsReplaced job targets ids now s s'
closed-IsReplaced job targets ids now s s3 s' versions publications cleanups r = record {
  old = r.old;
  new = r.new;
  before = r.before;
  was_ready = r.was_ready;
  after = rw versions r.after;
  superseded = r.superseded;
  revoked = rw publications r.revoked;
  enqueued = rw cleanups r.enqueued;
  queued = rw cleanups r.queued;
}

-- The end of an activation, from what the checks have prepared.
finalize_index-IsActivated :
    (job : ClaimedPublicationJob) (worker_id : String) (target : SearchTarget) (expected : ℕ)
    (prepared : PreparedIndexPublication) (ids : ℕ → Uuid) (now : ℕ) (s s' : Store)
    → IsAudited s
    → HasForeignKeys s
    → IsPrepared job target prepared s
    → prepared.evidence.chunk_count ≡ expected
    → finalize_index job worker_id prepared ids now s ≡ ok (tt, s')
    → IsActivated job target expected prepared.source_targets ids now s s'
unfolding finalize_index worker_change
finalize_index-IsActivated job worker_id target expected prepared ids now s s' audited keys p count
      h =
    let t : Uuid = job.native.tenant_id in
    let c : Uuid = job.native.collection_id in
    let locked : DocumentVersion = prepared.locked_version in
    let e : PublicationEvidence = prepared.evidence in
    let activation : Option Uuid = some job.native.document_version_id in
    let s1 : Store =
      enqueue_cleanups ids t c job.source_document_version_id prepared.source_targets activation now
        s in
    let (cleanups, enqueued) =
      enqueue_cleanups-ok ids t c job.source_document_version_id prepared.source_targets activation
        now s in
    let key : EventKey = EventKey.worker_state job.native.id VersionState.ready in
    let (w, s2, transitioned, rest) =
      bind-eq-ok (worker_transition locked VersionState.ready worker_id key none (some e))
        (λ _. promote job worker_id now >> modify (close_index job.native now)) s1 h in
    let id : locked.id ≡ job.native.document_version_id =
      find_version-id job.native.document_version_id s.versions locked p.locked in
    let at_version =
      other_tables-IsAuditedAt locked s s1 (rw enqueued refl) (rw enqueued refl)
        (read-IsAuditedAt locked job.native.document_version_id s audited p.locked) in
    let moved =
      worker_transition-IsWorkerMove locked w VersionState.ready worker_id key none (some e) s1 s2
        at_version transitioned in
    let (u, s3, promoted, closing) =
      bind-eq-ok (promote job worker_id now) (λ _. modify (close_index job.native now)) s2 rest in
    let last : close_index job.native now s3 ≡ s' = cc in
    let (versions, events, publications, entries_same, evidence) =
      close_index-same job.native now target s3 in
    let (kept, found, counted) =
      promote-Audited job worker_id now target s s1 s2 s3 locked w e cleanups keys enqueued id moved
        promoted in
    let (given, is_given, published) = moved.accepted.published clean in
    let same : e ≡ given = some-eq is_given in
    rw (← last) (record {
      audited = other_tables-IsAudited s3 (close_index job.native now s3) versions events kept;
      sources = p.sources;
      version = w;
      found = rw versions found;
      ready = moved.state_reached;
      counted = rw (evidence, counted, ← p.evidence) count;
      complete = rw (evidence, counted, ← p.evidence, same) published;
      replaced = λ other.
          closed-IsReplaced job prepared.source_targets ids now s s3 (close_index job.native now s3)
            versions publications entries_same
            (promote-IsReplaced job worker_id now target s s1 s2 s3 locked w e cleanups keys
              enqueued id moved promoted prepared.source_targets ids
              (sym (ap (λ (x : Store). x.cleanups) enqueued)) other);
      stopped = close_index-HasStopped job.native now s3;
    })

passed :
    (a b : ℕ) (s s' : Store)
    → raise_when (not (a == b)) ServiceError.record_count_changed s ≡ ok (tt, s')
    → (a ≡ b) × (s' ≡ s)
passed a b s s' h = elim (Bool-cases (a == b)) [
  | inl same ↦ (ground arith, let done = rw same at h in cc)
  | inr other ↦ let raised = rw other at h in absurd (cc)
]

-- An activation makes the version ready, and does so in one step with the end of the version that
-- it replaces. In the store that it leaves the trail of every version is complete; the version is
-- ready, with at least one chunk, as many chunks as
-- the worker expected, exactly as many embeddings, live lexical and live vector
-- publications of this attempt as chunks, and both manifests; the job no longer runs. If the
-- version replaces another one, that one was ready, is superseded now, has no live publication
-- left, and each of the groups of its records that the activation returns has an entry that asks
-- for its deletion. The chunk of a publication is taken to be a chunk of its version, as the
-- foreign key demands.
pub activate-IsActivated :
    (job : ClaimedPublicationJob) (worker_id : String) (target : SearchTarget) (expected : ℕ)
    (ids : ℕ → Uuid) (now : ℕ) (s s' : Store) (targets : List SearchTargetPublication)
    → IsAudited s
    → HasForeignKeys s
    → activate job worker_id target expected ids now s ≡ ok (targets, s')
    → IsActivated job target expected targets ids now s s'
unfolding activate
activate-IsActivated job worker_id target expected ids now s s' targets audited keys h =
    let finish : PreparedIndexPublication → Session (List SearchTargetPublication) =
      λ prepared. finalize_index job worker_id prepared ids now >> pure prepared.source_targets in
    let counted : PreparedIndexPublication → Session (Unit {0}) = λ prepared.
      raise_when (not (prepared.evidence.chunk_count == expected))
        ServiceError.record_count_changed in
    let (prepared, s1, locked, rest) =
      bind-eq-ok (lock_index_for_activation job worker_id target)
        (λ prepared. counted prepared >> finish prepared) s h in
    let (same, is_prepared) =
      lock_index_for_activation-IsPrepared job worker_id target prepared s s1 locked in
    let (u, s2, checked, finishing) =
      bind-eq-ok (counted prepared) (λ _. finish prepared) s1 rest in
    let (count, same') = passed (prepared.evidence.chunk_count) expected s1 s2 checked in
    let (u', s3, finalized, returned) =
      bind-eq-ok (finalize_index job worker_id prepared ids now) (λ _. pure prepared.source_targets)
        s2 finishing in
    let last : s3 ≡ s' = cc in
    let result : prepared.source_targets ≡ targets = cc in
    rw (← last, ← result)
      (finalize_index-IsActivated job worker_id target expected prepared ids now s s3 audited keys
        is_prepared count (rw (same', same) at finalized))
