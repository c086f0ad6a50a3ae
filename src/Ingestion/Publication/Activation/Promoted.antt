-- ===== src/Ingestion/Publication/Activation/Promoted.antt =====
-- app/services/ingestion/publication_promotion.py: the version that is replaced, and the one that
-- replaces it.
use atlas_rag.Common.{
  ℕ, List, String, ◌≡◌, some, true, none, refl, count_if, false, ap, ◌∙◌, ◌≢◌, sym, Bool-cases, inl,
  inr,
}
use atlas_rag.Ingestion.Publication.{ClaimedPublicationJob}
use atlas_rag.Ingestion.Publication.Activation.{
  is_ready_state, promote, is_source_row, revoke_source, superseded_version,
}
use atlas_rag.Database.{SearchTarget, Store, DocumentVersion, SearchCleanup, Uuid}
use atlas_rag.Ingestion.Search.{SearchTargetPublication, enqueue_cleanups}
use atlas_rag.Catalog.Transitions.Audit.{
  IsAudited, find_version-id, find-replace_ne, find-replace_self,
}
use atlas_rag.Catalog.Versions.{find_version}
use atlas_rag.Catalog.StateMachine.{PublicationEvidence}
use atlas_rag.Ingestion.Publication.Evidence.{evidence_of}
use atlas_rag.Ingestion.Publication.Activation.Revoked.{
  HasForeignKeys, evidence_of-revoke_source, source_differs, revoke_source-none,
}
use atlas_rag.Catalog.Enums.{VersionState}
use atlas_rag.Ingestion.Publication.Artifacts.{chunk_artifact, is_original_run}
use atlas_rag.Ingestion.NativeJobs.Audited.{IsWorkerMove}
use atlas_rag.Common.Result.{ok}
use atlas_rag.Ingestion.Search.Enqueued.{AreEnqueued, enqueue_cleanups-AreEnqueued}
use atlas_rag.Ingestion.Publication.Activation.Steps.{
  superseding, supersede_source_version-ok, superseding-IsAudited,
}

-- The store with the entries for the records of the version that is replaced.
abbrev pub queued_by :
    ClaimedPublicationJob
    → (ids : ℕ → Uuid) → (now : ℕ) → List SearchTargetPublication
    → Store
    → Store
queued_by job ids now targets s =
    enqueue_cleanups ids job.native.tenant_id job.native.collection_id
      job.source_document_version_id targets (some job.native.document_version_id) now s

-- What became of the version that a reprocessing replaces.
pub record IsReplaced (job : ClaimedPublicationJob) (targets : List SearchTargetPublication)
    (ids : ℕ → Uuid) (now : ℕ) (s s' : Store) : Type 0 where
  pub old : DocumentVersion
  pub new : DocumentVersion
  pub before : find_version job.source_document_version_id s.versions ≡ some old
  pub was_ready : is_ready_state old.state ≡ true
  pub after : find_version job.source_document_version_id s'.versions ≡ some new
  pub superseded : new.state ≡ VersionState.superseded
  pub revoked : count_if (is_source_row job) s'.publications ≡ 0
  pub enqueued :
      AreEnqueued job.native.tenant_id job.native.collection_id job.source_document_version_id
        (some job.native.document_version_id)
        targets
        s'.cleanups
  pub queued : s'.cleanups ≡ (queued_by job ids now targets s).cleanups

-- The transition of the version, and what `promote` does after it.
module _ (job : ClaimedPublicationJob) (worker_id : String) (now : ℕ) (target : SearchTarget)
    (s s1 s2 s3 : Store) (locked w : DocumentVersion) (e : PublicationEvidence)
    (cleanups : List SearchCleanup) (keys : HasForeignKeys s)
    (enqueued : s1 ≡ record s { cleanups = cleanups })
    (id : locked.id ≡ job.native.document_version_id)
    (moved : IsWorkerMove locked w VersionState.ready none (some e) s1 s2)
    (promoted : promote job worker_id now s2 ≡ ok (tt, s3)) where
  moved_cleanups : s2.cleanups ≡ cleanups
  moved_cleanups =
      ap (λ (x : Store). x.cleanups) moved.stored ∙ ap (λ (x : Store). x.cleanups) enqueued

  moved_keys : HasForeignKeys s2
  moved_keys = rw (moved.stored, enqueued) keys

  moved_evidence : evidence_of job.native target s2 ≡ evidence_of job.native target s
  unfolding evidence_of chunk_artifact
  moved_evidence = rw (moved.stored, enqueued) refl

  replacing :
      is_original_run job ≡ false
      → (old : DocumentVersion) × (find_version job.source_document_version_id s2.versions
          ≡ some old)
        × (is_ready_state old.state ≡ true)
        × (s3 ≡ superseding job worker_id now old s2)
  unfolding promote
  replacing other = supersede_source_version-ok job worker_id now s2 s3 (rw other at promoted)

  promote-same : is_original_run job ≡ true → s3 ≡ s2
  unfolding promote
  promote-same same = let done = rw same at promoted in cc

  -- The row of the source in the store after the transition.
  module _ (other : is_original_run job ≡ false) (old : DocumentVersion)
      (present : find_version job.source_document_version_id s2.versions ≡ some old)
      (was_ready : is_ready_state old.state ≡ true)
      (last : s3 ≡ superseding job worker_id now old s2) where
    old_id : old.id ≡ job.source_document_version_id
    old_id = find_version-id job.source_document_version_id s2.versions old present

    at_old : find_version old.id s2.versions ≡ some old
    at_old = ap (λ i. find_version i s2.versions) old_id ∙ present

    locked_id : w.id ≡ job.native.document_version_id
    locked_id = moved.same_id ∙ id

    replaced-IsAudited : IsAudited s3
    replaced-IsAudited =
        rw last (
          superseding-IsAudited job worker_id now s2 old moved.at_version.audited present was_ready)

    superseding-found : find_version job.native.document_version_id s3.versions ≡ some w
    unfolding revoke_source superseded_version
    superseding-found =
        let differs : job.native.document_version_id ≢ old.id =
          λ e. source_differs job other (sym old_id ∙ sym e) in
        let same =
          find-replace_ne job.native.document_version_id old.id (superseded_version old) s2.versions
            refl differs in
        rw last (same ∙ ap (λ i. find_version i s2.versions) (sym id) ∙ moved.found)

    superseding-evidence : evidence_of job.native target s3 ≡ evidence_of job.native target s
    unfolding revoke_source evidence_of chunk_artifact
    superseding-evidence =
        let unchanged : evidence_of job.native target (superseding job worker_id now old s2)
            ≡ evidence_of job.native target (revoke_source job now s2) =
          refl in
        ap (evidence_of job.native target) last
        ∙ unchanged
        ∙ evidence_of-revoke_source job target now s2 other moved_keys
        ∙ moved_evidence

    superseding-IsReplaced :
        (targets : List SearchTargetPublication) (ids : ℕ → Uuid)
        → cleanups ≡ (queued_by job ids now targets s).cleanups
        → IsReplaced job targets ids now s s3
    unfolding revoke_source superseded_version
    superseding-IsReplaced targets ids queued =
        let apart : job.source_document_version_id ≢ locked.id =
          λ e. source_differs job other (e ∙ id) in
        let unmoved =
          find-replace_ne job.source_document_version_id locked.id w s1.versions moved.same_id
            apart in
        record {
          old = old;
          new = superseded_version old;
          before =
              ap (λ (x : Store). find_version job.source_document_version_id x.versions)
                (sym enqueued)
              ∙ sym unmoved
              ∙ ap (λ (x : Store). find_version job.source_document_version_id x.versions)
                  (sym moved.stored)
              ∙ present;
          was_ready = was_ready;
          after = rw last (
              ap (λ i. find_version i (superseding job worker_id now old s2).versions) (sym old_id)
              ∙ find-replace_self old.id (superseded_version old) s2.versions old refl at_old);
          superseded = refl;
          revoked = rw last (revoke_source-none job now s2.publications);
          enqueued =
              rw (last, moved_cleanups, queued)
                (enqueue_cleanups-AreEnqueued ids job.native.tenant_id job.native.collection_id
                  job.source_document_version_id targets (some job.native.document_version_id) now
                  s);
          queued = rw (last, moved_cleanups) queued;
        }

  pub promote-Audited :
      IsAudited s3
      × (find_version job.native.document_version_id s3.versions ≡ some w)
      × (evidence_of job.native target s3 ≡ evidence_of job.native target s)
  promote-Audited = elim (Bool-cases (is_original_run job)) [
    | inl same ↦ rw (promote-same same) (
      moved.at_version.audited,
      ap (λ i. find_version i s2.versions) (sym id) ∙ moved.found,
      moved_evidence,
    )
    | inr other ↦
        let (old, present, was_ready, last) = replacing other in
        (
          replaced-IsAudited other old present was_ready last,
          superseding-found other old present was_ready last,
          superseding-evidence other old present was_ready last,
        )
  ]

  pub promote-IsReplaced :
      (targets : List SearchTargetPublication) (ids : ℕ → Uuid)
      → cleanups ≡ (queued_by job ids now targets s).cleanups
      → is_original_run job ≡ false
      → IsReplaced job targets ids now s s3
  promote-IsReplaced targets ids queued other =
      let (old, present, was_ready, last) = replacing other in
      superseding-IsReplaced other old present was_ready last targets ids queued
