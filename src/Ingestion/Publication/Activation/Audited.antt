-- ===== src/Ingestion/Publication/Activation/Audited.antt =====
-- app/services/ingestion/publication_repository.py: the index stage among the trails.
use atlas_rag.Common.{
  ◌∷◌, [], ℕ, List, String, Option, Bool-cases, any, refl, inl, arith, [], not, inr, some, ◌==◌,
  none,
}
use atlas_rag.Database.{
  Uuid, IndexPublication, SearchTarget, DocumentVersion, IngestionJob, Artifact, EventKey,
}
use atlas_rag.Ingestion.Publication.Index.{
  fence_target, begin_index_attempt, upsert_publication, upsert_publications, store_index,
  prepare_index, revoke_stale, PublicationRecord, has_place_of, PreparedIndexPublication,
  with_prior, target_of, retired_groups,
}
use atlas_rag.Ingestion.NativeJobs.{
  ClaimedNativeJob, PublishedArtifact, update_job, finish_attempt, update_attempts, find_job,
}
use atlas_rag.Ingestion.Publication.Activation.{
  promote, finalize_index, activate, close_index, lock_index_for_activation,
  supersede_source_version,
}
use atlas_rag.Ingestion.Publication.{ClaimedPublicationJob}
use atlas_rag.Ingestion.Search.{SearchTargetPublication, enqueue_cleanups}
use atlas_rag.Database.Leads.{
  Keeps, Leads, Leads-bind, Leads-if, Leads-from, Leads-at, Leads-pure, Leads-modify,
}
use atlas_rag.Database.Quiet.{
  IsQuiet, IsQuiet-pure, IsQuiet-modify, IsQuiet-raise_when, IsQuiet-require, IsQuiet-bind,
}
use atlas_rag.Ingestion.NativeJobs.Finish.{finish_lifecycle_request, close_success}
use atlas_rag.Catalog.Transitions.Audit.{IsAudited}
use atlas_rag.Ingestion.Publication.Evidence.{require_publication_evidence}
use atlas_rag.Database.Session.{modify, Session, pure, require, ServiceError, ◌>>=◌, ◌>>◌}
use atlas_rag.Ingestion.Publication.Activation.Steps.{
  require_publication_evidence-ok, lock_index_for_activation-IsPrepared,
  supersede_source_version-ok, superseding-IsAudited,
}
use atlas_rag.Catalog.StateMachine.{PublicationEvidence}
use atlas_rag.Ingestion.NativeJobs.Audited.Ending.{locked_job_version-IsAuditedAt}
use atlas_rag.Ingestion.Publication.Artifacts.{is_original_run, derived_artifact, chunk_artifact}
use atlas_rag.Catalog.Transitions.Kept.{
  IsAuditedAt, IsQuiet-IsAuditedAt, read-IsAuditedAt, IsQuiet-IsAudited, other_tables-IsAudited,
  insert_artifact-IsQuiet,
}
use atlas_rag.Ingestion.Search.Enqueued.{enqueue_cleanups-ok}
use atlas_rag.Ingestion.NativeJobs.Audited.Claiming.{LeavesAudited}
use atlas_rag.Ingestion.NativeJobs.Audited.{worker_transition-IsAuditedAt}
use atlas_rag.Catalog.Enums.{VersionState}
use atlas_rag.Catalog.Operations.{insert_artifact}

enqueue_cleanups-IsQuiet :
    (ids : ℕ → Uuid) (t c v : Uuid) (ps : List SearchTargetPublication) (activation : Option Uuid)
    (now : ℕ)
    → IsQuiet (modify (enqueue_cleanups ids t c v ps activation now))
enqueue_cleanups-IsQuiet ids t c v ps activation now =
    IsQuiet-modify (enqueue_cleanups ids t c v ps activation now) (λ s.
      let (cleanups, e) = enqueue_cleanups-ok ids t c v ps activation now s in
      (rw e refl, rw e refl))

fence_target-IsQuiet :
    (job : ClaimedNativeJob) (target : SearchTarget) (ids : ℕ → Uuid) (now : ℕ)
    (prior : Option IngestionJob)
    → IsQuiet (modify (fence_target job target ids now prior))
unfolding fence_target revoke_stale update_job
fence_target-IsQuiet job target ids now prior =
    IsQuiet-modify (fence_target job target ids now prior) (λ s.
      let (cleanups, e) =
        enqueue_cleanups-ok ids job.tenant_id job.collection_id job.document_version_id
          (with_prior job (target_of prior) (retired_groups job s)) (some job.document_version_id)
          now s in
      (rw e refl, rw e refl))

-- The fence of an index attempt keeps the trail of every version complete.
pub begin_index_attempt-IsAudited :
    (job : ClaimedPublicationJob) (worker_id : String) (target : SearchTarget) (ids : ℕ → Uuid)
    (now : ℕ)
    → Keeps IsAudited (begin_index_attempt job worker_id target ids now)
unfolding begin_index_attempt
begin_index_attempt-IsAudited job worker_id target ids now =
    let rest : Option IngestionJob → Session (Unit {0}) =
      λ prior. modify (fence_target job.native target ids now prior) in
    Leads-bind (locked_job_version-IsAuditedAt job.native worker_id) (λ v.
      Leads-from
        (Leads-at (λ s. find_job job.native.id s.jobs) {rest = rest}
          (λ prior. IsQuiet-IsAudited (fence_target-IsQuiet job.native target ids now prior)))
        (λ s p. p.audited))

upsert_publication-IsQuiet : (new : IndexPublication) → IsQuiet (upsert_publication new)
unfolding upsert_publication
upsert_publication-IsQuiet new = record {
  quiet = λ s s' u h. elim (Bool-cases (any (has_place_of new) s.publications)) [
    | inl present ↦ (ground arith, ground arith)
    | inr fresh ↦ (ground arith, ground arith)
  ];
}

upsert_publications-IsQuiet :
    (job : ClaimedNativeJob) (target : SearchTarget) (now : ℕ)
    (records : List (Uuid × PublicationRecord))
    → IsQuiet (upsert_publications job target now records)
unfolding upsert_publications
upsert_publications-IsQuiet job target now [] = IsQuiet-pure tt
upsert_publications-IsQuiet job target now ((k, r) ∷ records) =
    IsQuiet-bind (upsert_publication _) _ (upsert_publication-IsQuiet _)
      (λ _. upsert_publications-IsQuiet job target now records)

require_publication_evidence-IsQuiet :
    (job : ClaimedNativeJob) (target : SearchTarget)
    → IsQuiet (require_publication_evidence job target)
require_publication_evidence-IsQuiet job target = record {
  quiet = λ s s' e h.
      let (same, evidence) = require_publication_evidence-ok job target s s' e h in
      rw same (refl, refl);
}

store_index-IsAudited :
    (job : ClaimedNativeJob) (artifact : PublishedArtifact) (target : SearchTarget)
    (records : List (Uuid × PublicationRecord)) (k : Uuid) (now : ℕ) (v : DocumentVersion)
    → Keeps IsAudited (store_index job artifact target records k now v)
unfolding store_index
store_index-IsAudited job artifact target records k now v =
    let answer : PublicationEvidence → Session PreparedIndexPublication =
      λ e. pure (record { locked_version = v; evidence = e; source_targets = [] }) in
    let rest : Option Artifact → Session PreparedIndexPublication = λ manifest.
      require manifest ServiceError.no_chunk_artifact >>= λ source.
      insert_artifact (derived_artifact k job artifact (some source.id) (some target))
      >> (upsert_publications job target now records
          >> (require_publication_evidence job target >>= answer)) in
    Leads-at (chunk_artifact job) {rest = rest} (λ manifest.
      Leads-bind (IsQuiet-IsAudited (IsQuiet-require manifest ServiceError.no_chunk_artifact))
        (λ source. Leads-bind (IsQuiet-IsAudited (insert_artifact-IsQuiet _)) (λ _.
          Leads-bind (IsQuiet-IsAudited (upsert_publications-IsQuiet job target now records)) (λ _.
            Leads-bind (IsQuiet-IsAudited (require_publication_evidence-IsQuiet job target))
              (λ e. Leads-pure _ (λ s p. p))))))

-- The publications of an index attempt keep the trail of every version complete.
pub prepare_index-IsAudited :
    (job : ClaimedPublicationJob) (worker_id : String) (artifact : PublishedArtifact)
    (target : SearchTarget) (records : List (Uuid × PublicationRecord)) (k : Uuid) (now : ℕ)
    → Keeps IsAudited (prepare_index job worker_id artifact target records k now)
unfolding prepare_index
prepare_index-IsAudited job worker_id artifact target records k now =
    Leads-bind (locked_job_version-IsAuditedAt job.native worker_id) (λ v.
      Leads-from (store_index-IsAudited job.native artifact target records k now v)
        (λ s p. p.audited))

promote-IsAudited :
    (job : ClaimedPublicationJob) (worker_id : String) (now : ℕ)
    → Keeps IsAudited (promote job worker_id now)
unfolding promote
promote-IsAudited job worker_id now =
    Leads-if (is_original_run job) (pure tt) (supersede_source_version job worker_id now)
      (Leads-pure tt (λ s p. p))
      (record {
        leads = λ s s' u audited h.
            let (old, found, ready, e) = supersede_source_version-ok job worker_id now s s' h in
            rw e (superseding-IsAudited job worker_id now s old audited found ready);
      })

finalize_index-IsAudited :
    (job : ClaimedPublicationJob) (worker_id : String) (prepared : PreparedIndexPublication)
    (ids : ℕ → Uuid) (now : ℕ)
    → LeavesAudited prepared.locked_version (finalize_index job worker_id prepared ids now)
unfolding finalize_index close_index finish_lifecycle_request close_success update_job
    finish_attempt update_attempts
finalize_index-IsAudited job worker_id prepared ids now =
    Leads-bind
      (IsQuiet-IsAuditedAt prepared.locked_version (
        enqueue_cleanups-IsQuiet ids job.native.tenant_id job.native.collection_id
          job.source_document_version_id prepared.source_targets
          (some job.native.document_version_id) now))
      (λ _.
        Leads-bind
          (worker_transition-IsAuditedAt prepared.locked_version VersionState.ready worker_id
            (EventKey.worker_state job.native.id VersionState.ready) none (some prepared.evidence))
          (λ w.
            Leads-bind (Leads-from (promote-IsAudited job worker_id now) (λ s p. p.audited)) (λ _.
              Leads-modify (close_index job.native now)
                (λ s p. other_tables-IsAudited s (close_index job.native now s) refl refl p))))

lock_index-IsAuditedAt :
    (job : ClaimedPublicationJob) (worker_id : String) (target : SearchTarget)
    → Leads IsAudited
        (lock_index_for_activation job worker_id target)
        (λ prepared s. IsAuditedAt prepared.locked_version s)
lock_index-IsAuditedAt job worker_id target = record {
  leads = λ s s' prepared audited h.
      let (same, p) = lock_index_for_activation-IsPrepared job worker_id target prepared s s' h in
      rw same (
        read-IsAuditedAt prepared.locked_version job.native.document_version_id s audited p.locked);
}

-- An activation keeps the trail of every version complete, also of the one that it supersedes.
pub activate-IsAudited :
    (job : ClaimedPublicationJob) (worker_id : String) (target : SearchTarget) (expected : ℕ)
    (ids : ℕ → Uuid) (now : ℕ)
    → Keeps IsAudited (activate job worker_id target expected ids now)
unfolding activate
activate-IsAudited job worker_id target expected ids now =
    Leads-bind (lock_index-IsAuditedAt job worker_id target) (λ prepared.
      Leads-bind
        (IsQuiet-IsAuditedAt prepared.locked_version (
          IsQuiet-raise_when (not (prepared.evidence.chunk_count == expected))
            ServiceError.record_count_changed))
        (λ _.
          Leads-bind (finalize_index-IsAudited job worker_id prepared ids now)
            (λ _. Leads-pure prepared.source_targets (λ s p. p))))
