-- ===== src/Ingestion/Publication/Joined/Replaced.antt =====
-- app/services/ingestion/publication_activation.py, publication_promotion.py: the statements that
-- revoke publications, under the keys of the chunks and of the publications.
use atlas_rag.Common.{ℕ, refl, List, Bool, String, Option, update_where, some, not, ◌==◌, none}
use atlas_rag.Ingestion.Search.Enqueued.{enqueue_cleanups-ok}
use atlas_rag.Ingestion.Publication.Index.{
  revoke, fence_target, revoke_stale, with_prior, target_of, PreparedIndexPublication,
  retired_groups, is_stale, begin_index_attempt,
}
use atlas_rag.Database.{
  Uuid, IndexPublication, Store, SearchTarget, IngestionJob, DocumentVersion, EventKey,
}
use atlas_rag.Ingestion.Publication.Activation.{
  promote, finalize_index, lock_index_for_activation, activate, supersede_source_version,
  close_index, revoke_source, supersede_row, active_source, superseded_version, promotable,
  source_version, is_of_source, promotion_event,
}
use atlas_rag.Ingestion.NativeJobs.{
  update_job, ClaimedNativeJob, finish_attempt, update_attempts, find_job,
}
use atlas_rag.Ingestion.Publication.{ClaimedPublicationJob}
use atlas_rag.Ingestion.Search.{SearchTargetPublication, enqueue_cleanups}
use atlas_rag.Ingestion.NativeJobs.Finish.{
  finish_lifecycle_request, close_success, locked_job_version,
}
use atlas_rag.Catalog.Versions.{write_version}
use atlas_rag.Ingestion.Publication.Joined.{IsJoined, joined-update, other_tables-IsJoined}
use atlas_rag.Database.Leads.{
  Keeps, Leads-at, Leads-bind, Leads-modify, Leads-lift, Leads-raise_when, Leads-if, Leads-pure,
  Leads-require,
}
use atlas_rag.Common.Result.{Result}
use atlas_rag.Ingestion.Publication.Joined.Statements.{
  worker_transition-IsJoined, locked_job_version-IsJoined, insert_event-IsJoined,
}
use atlas_rag.Ingestion.Publication.Artifacts.{is_original_run}
use atlas_rag.Catalog.Enums.{VersionState}
use atlas_rag.Ingestion.Publication.Joined.Stages.{require_evidence-IsJoined}
use atlas_rag.Database.Session.{pure, ServiceError, Session, require, lift, modify, ◌>>=◌, ◌>>◌}
use atlas_rag.Catalog.Transitions.{insert_event}
use atlas_rag.Ingestion.Publication.Evidence.{require_publication_evidence}

-- A row that is revoked keeps its chunk.
revoked-IsJoined :
    (q : IndexPublication → Bool) (now : ℕ) (s : Store)
    → IsJoined s
    → IsJoined (record s { publications = update_where q (revoke now) s.publications })
unfolding revoke
revoked-IsJoined q now s p = record {
  apart = p.apart;
  joined = joined-update q (revoke now) s.chunks s.publications (λ _. refl) p.joined;
}

enqueued-IsJoined :
    (ids : ℕ → Uuid) (t c v : Uuid) (targets : List SearchTargetPublication)
    (activation : Option Uuid) (now : ℕ) (s : Store)
    → IsJoined s
    → IsJoined (enqueue_cleanups ids t c v targets activation now s)
enqueued-IsJoined ids t c v targets activation now s p =
    let (cleanups, e) = enqueue_cleanups-ok ids t c v targets activation now s in
    other_tables-IsJoined s (enqueue_cleanups ids t c v targets activation now s) (rw e refl)
      (rw e refl) p

fence_target-IsJoined :
    (job : ClaimedNativeJob) (target : SearchTarget) (ids : ℕ → Uuid) (now : ℕ)
    (prior : Option IngestionJob) (s : Store)
    → IsJoined s
    → IsJoined (fence_target job target ids now prior s)
unfolding fence_target update_job revoke_stale
fence_target-IsJoined job target ids now prior s p =
    let targets : List SearchTargetPublication =
      with_prior job (target_of prior) (retired_groups job s) in
    let s1 : Store =
      enqueue_cleanups ids job.tenant_id job.collection_id job.document_version_id targets
        (some job.document_version_id) now s in
    let q =
      revoked-IsJoined (is_stale job) now s1 (enqueued-IsJoined ids _ _ _ targets _ now s p) in
    record { apart = q.apart; joined = q.joined }

supersede_row-IsJoined :
    (source : Option DocumentVersion) (s : Store) → IsJoined s → IsJoined (supersede_row source s)
unfolding write_version
supersede_row-IsJoined none s p = p
supersede_row-IsJoined (some v) s p =
    other_tables-IsJoined s (write_version v.id (superseded_version v) s) refl refl p

supersede_source_version-IsJoined :
    (job : ClaimedPublicationJob) (worker_id : String) (now : ℕ)
    → Keeps IsJoined (supersede_source_version job worker_id now)
unfolding supersede_source_version revoke_source
supersede_source_version-IsJoined job worker_id now =
    let record_move : Option DocumentVersion → Session (Unit {0}) = λ source.
      require source ServiceError.source_not_promotable >>= λ previous.
      insert_event (promotion_event job worker_id previous) in
    let rest : Option DocumentVersion → Session (Unit {0}) = λ source.
      modify (supersede_row source) >> (modify (revoke_source job now) >> record_move source) in
    Leads-at (λ s. promotable (source_version job s)) {rest = rest}
      (λ source.
        Leads-bind (Leads-modify (supersede_row source) (supersede_row-IsJoined source)) (λ _.
          Leads-bind
            (Leads-modify (revoke_source job now) (revoked-IsJoined (is_of_source job) now))
            (λ _.
              Leads-bind (Leads-require source ServiceError.source_not_promotable (λ a s e p. p))
                (λ previous. insert_event-IsJoined (promotion_event job worker_id previous)))))

promote-IsJoined :
    (job : ClaimedPublicationJob) (worker_id : String) (now : ℕ)
    → Keeps IsJoined (promote job worker_id now)
unfolding promote
promote-IsJoined job worker_id now =
    Leads-if (is_original_run job) (pure tt) (supersede_source_version job worker_id now)
      (Leads-pure tt (λ s p. p)) (supersede_source_version-IsJoined job worker_id now)

finalize_index-IsJoined :
    (job : ClaimedPublicationJob) (worker_id : String) (prepared : PreparedIndexPublication)
    (ids : ℕ → Uuid) (now : ℕ)
    → Keeps IsJoined (finalize_index job worker_id prepared ids now)
unfolding finalize_index close_index finish_lifecycle_request close_success update_job
    finish_attempt update_attempts
finalize_index-IsJoined job worker_id prepared ids now =
    Leads-bind
      (Leads-modify _ (λ s p.
        enqueued-IsJoined ids job.native.tenant_id job.native.collection_id
          job.source_document_version_id prepared.source_targets
          (some job.native.document_version_id) now s p))
      (λ _.
        Leads-bind
          (worker_transition-IsJoined prepared.locked_version VersionState.ready worker_id
            (EventKey.worker_state job.native.id VersionState.ready) none (some prepared.evidence))
          (λ moved. Leads-bind (promote-IsJoined job worker_id now) (λ _.
            Leads-modify (close_index job.native now)
              (λ s p. other_tables-IsJoined s (close_index job.native now s) refl refl p))))

lock_index-IsJoined :
    (job : ClaimedPublicationJob) (worker_id : String) (target : SearchTarget)
    → Keeps IsJoined (lock_index_for_activation job worker_id target)
unfolding lock_index_for_activation
lock_index-IsJoined job worker_id target =
    let rest : Result ServiceError (List SearchTargetPublication)
        → Session PreparedIndexPublication =
      λ checked. lift checked >>= λ sources. locked_job_version job.native worker_id >>= λ locked.
      require_publication_evidence job.native target >>= λ evidence.
      pure (record { locked_version = locked; evidence = evidence; source_targets = sources }) in
    Leads-at (active_source job) {rest = rest} (λ checked.
      Leads-bind (Leads-lift checked (λ a s p. p)) (λ sources.
        Leads-bind (locked_job_version-IsJoined job.native worker_id) (λ locked.
          Leads-bind (require_evidence-IsJoined job.native target) (λ e. Leads-pure _ (λ s p. p)))))

pub begin_index_attempt-IsJoined :
    (job : ClaimedPublicationJob) (worker_id : String) (target : SearchTarget) (ids : ℕ → Uuid)
    (now : ℕ)
    → Keeps IsJoined (begin_index_attempt job worker_id target ids now)
unfolding begin_index_attempt
begin_index_attempt-IsJoined job worker_id target ids now =
    let rest : Option IngestionJob → Session (Unit {0}) =
      λ prior. modify (fence_target job.native target ids now prior) in
    Leads-bind (locked_job_version-IsJoined job.native worker_id) (λ locked.
      Leads-at (λ s. find_job job.native.id s.jobs) {rest = rest}
        (λ prior.
          Leads-modify (fence_target job.native target ids now prior)
            (fence_target-IsJoined job.native target ids now prior)))

pub activate-IsJoined :
    (job : ClaimedPublicationJob) (worker_id : String) (target : SearchTarget) (expected : ℕ)
    (ids : ℕ → Uuid) (now : ℕ)
    → Keeps IsJoined (activate job worker_id target expected ids now)
unfolding activate
activate-IsJoined job worker_id target expected ids now =
    Leads-bind (lock_index-IsJoined job worker_id target) (λ prepared.
      Leads-bind
        (Leads-raise_when (λ s. not (prepared.evidence.chunk_count == expected))
          ServiceError.record_count_changed (λ s h p. p))
        (λ _.
          Leads-bind (finalize_index-IsJoined job worker_id prepared ids now)
            (λ _. Leads-pure _ (λ s p. p))))
