-- ===== src/Ingestion/Publication/Activation/Steps.antt =====
-- app/services/ingestion/publication_repository.py and publication_promotion.py: what each part of
-- an activation leaves in the tables.
use atlas_rag.Common.{
  ℕ, String, List, ◌≡◌, some, Option-cases, arith, true, inl, inr, sym, ◌∙◌, ap, refl,
}
use atlas_rag.Ingestion.Search.{SearchTargetPublication}
use atlas_rag.Ingestion.NativeJobs.Finish.{locked_job_version, locked_row}
use atlas_rag.Ingestion.Publication.Evidence.{require_publication_evidence, evidence_of}
use atlas_rag.Ingestion.Publication.{ClaimedPublicationJob}
use atlas_rag.Ingestion.Publication.Activation.{
  lock_index_for_activation, supersede_source_version, superseded_version, source_version,
  promotion_event, revoke_source, is_ready_state, promotable, active_source,
}
use atlas_rag.Database.{SearchTarget, Store, DocumentVersion}
use atlas_rag.Ingestion.NativeJobs.{ClaimedNativeJob, find_job}
use atlas_rag.Ingestion.Publication.Index.{PreparedIndexPublication}
use atlas_rag.Catalog.Versions.{write_version, find_version}
use atlas_rag.Catalog.StateMachine.{PublicationEvidence}
use atlas_rag.Common.Result.{ok}
use atlas_rag.Catalog.Transitions.Audit.{
  recorded_move, IsMove, find_version-id, IsAudited, recorded_move-IsAudited,
}
use atlas_rag.Database.Session.{Session, pure, ◌>>=◌, bind-eq-ok, lift}
use atlas_rag.Catalog.Transitions.Recorded.{lift-ok, insert_event-ok}
use atlas_rag.Catalog.StateMachine.Edges.{supersedes, IsReady, clean, with_warnings}
use atlas_rag.Catalog.Enums.{VersionState}
use atlas_rag.Catalog.Transitions.Kept.{other_tables-IsAudited}

-- The fence answers the row of the version as it stands, and changes nothing.
pub locked_job_version-ok :
    (job : ClaimedNativeJob) (worker_id : String) (s s' : Store) (v : DocumentVersion)
    → locked_job_version job worker_id s ≡ ok (v, s')
    → (s' ≡ s) × (find_version job.document_version_id s.versions ≡ some v)
unfolding locked_job_version locked_row
locked_job_version-ok job worker_id s s' v h = elim (Option-cases (find_job job.id s.jobs)) [
  | inl nothing ↦ absurd (ground arith)
  | inr (j, found) ↦ elim (Option-cases (find_version job.document_version_id s.versions)) [
    | inl no_version ↦ absurd (ground arith)
    | inr (x, present) ↦ (ground arith, present ∙ ground arith)
  ]
]

pub require_publication_evidence-ok :
    (job : ClaimedNativeJob) (target : SearchTarget) (s s' : Store) (e : PublicationEvidence)
    → require_publication_evidence job target s ≡ ok (e, s')
    → (s' ≡ s) × (e ≡ evidence_of job target s)
unfolding require_publication_evidence
require_publication_evidence-ok job target s s' e h = (ground arith, ground arith)

-- What `lock_index_for_activation` answers, of a store that it leaves as it was.
pub record IsPrepared (job : ClaimedPublicationJob) (target : SearchTarget)
    (prepared : PreparedIndexPublication) (s : Store) : Type 0 where
  pub sources : active_source job s ≡ ok prepared.source_targets
  pub locked : find_version job.native.document_version_id s.versions ≡ some prepared.locked_version
  pub evidence : prepared.evidence ≡ evidence_of job.native target s

pub lock_index_for_activation-IsPrepared :
    (job : ClaimedPublicationJob) (worker_id : String) (target : SearchTarget)
    (prepared : PreparedIndexPublication) (s s' : Store)
    → lock_index_for_activation job worker_id target s ≡ ok (prepared, s')
    → (s' ≡ s) × IsPrepared job target prepared s
unfolding lock_index_for_activation
lock_index_for_activation-IsPrepared job worker_id target prepared s s' h =
    let answer : List SearchTargetPublication
        → DocumentVersion
        → PublicationEvidence
        → Session PreparedIndexPublication =
      λ sources locked e.
        pure (record { locked_version = locked; evidence = e; source_targets = sources }) in
    let checked : List SearchTargetPublication
        → DocumentVersion
        → Session PreparedIndexPublication =
      λ sources locked. require_publication_evidence job.native target >>= answer sources locked in
    let (sources, s1, found, locking) =
      bind-eq-ok (lift (active_source job s))
        (λ sources. locked_job_version job.native worker_id >>= checked sources) s h in
    let (sources_ok, same) = lift-ok _ s s1 sources found in
    let (v, s2, held, checking) =
      bind-eq-ok (locked_job_version job.native worker_id) (checked sources) s1 locking in
    let (same', locked) = locked_job_version-ok job.native worker_id s1 s2 v held in
    let (e, s3, counted, answered) =
      bind-eq-ok (require_publication_evidence job.native target) (answer sources v) s2 checking in
    let (same'', evidence) = require_publication_evidence-ok job.native target s2 s3 e counted in
    let last : s3 ≡ s' = cc in
    let given : record { locked_version = v; evidence = e; source_targets = sources } ≡ prepared =
      cc in
    (
      sym last ∙ same'' ∙ same' ∙ same,
      rw (← given) (record {
        sources = sources_ok;
        locked = rw (← same) locked;
        evidence = evidence ∙ ap (evidence_of job.native target) (same' ∙ same);
      }),
    )

-- The move of the version that was replaced, with the revocation of its publications.
abbrev pub superseding :
    ClaimedPublicationJob → (worker_id : String) → (now : ℕ) → DocumentVersion → Store → Store
superseding job worker_id now old s =
    revoke_source job now
      (recorded_move old.id (superseded_version old) (promotion_event job worker_id old) s)

promotable-found :
    (job : ClaimedPublicationJob) (s : Store) (old : DocumentVersion)
    → promotable (source_version job s) ≡ some old
    → (find_version job.source_document_version_id s.versions ≡ some old)
      × (is_ready_state old.state ≡ true)
unfolding source_version
promotable-found job s old h =
    elim (Option-cases (find_version job.source_document_version_id s.versions)) [
      | inl nothing ↦ absurd (ground arith)
      | inr (v, found) ↦ (found ∙ ground arith, ground arith)
    ]

pub supersede_source_version-ok :
    (job : ClaimedPublicationJob) (worker_id : String) (now : ℕ) (s s' : Store)
    → supersede_source_version job worker_id now s ≡ ok (tt, s')
    → (old : DocumentVersion) × (find_version job.source_document_version_id s.versions ≡ some old)
      × (is_ready_state old.state ≡ true)
      × (s' ≡ superseding job worker_id now old s)
unfolding supersede_source_version write_version revoke_source
supersede_source_version-ok job worker_id now s s' h =
    elim (Option-cases (promotable (source_version job s))) [
      | inl nothing ↦ let never = rw nothing at h in absurd (cc)
      | inr (old, found) ↦
          let (present, ready) = promotable-found job s old found in
          let recorded = rw found at h in (old, present, ready, insert_event-ok _ _ s' tt recorded)
    ]

is_ready_state-IsReady : (t : VersionState) → is_ready_state t ≡ true → IsReady t
is_ready_state-IsReady VersionState.ready h = clean
is_ready_state-IsReady VersionState.ready_with_warnings h = with_warnings
is_ready_state-IsReady _ h = absurd (cc)

promotion_event-IsMove :
    (job : ClaimedPublicationJob) (worker_id : String) (s : Store) (old : DocumentVersion)
    → find_version job.source_document_version_id s.versions ≡ some old
    → is_ready_state old.state ≡ true
    → IsMove old.id old (superseded_version old) (promotion_event job worker_id old)
unfolding superseded_version promotion_event
promotion_event-IsMove job worker_id s old found ready = record {
  same_id = refl;
  next_revision = refl;
  about = sym (find_version-id job.source_document_version_id s.versions old found);
  from_state = refl;
  from_revision = refl;
  to_state = refl;
  to_revision = refl;
  legal = supersedes (is_ready_state-IsReady old.state ready);
}

-- The end of the version that was replaced is one more legal step of its trail.
pub superseding-IsAudited :
    (job : ClaimedPublicationJob) (worker_id : String) (now : ℕ) (s : Store) (old : DocumentVersion)
    → IsAudited s
    → find_version job.source_document_version_id s.versions ≡ some old
    → is_ready_state old.state ≡ true
    → IsAudited (superseding job worker_id now old s)
unfolding revoke_source
superseding-IsAudited job worker_id now s old audited found ready =
    let id = find_version-id job.source_document_version_id s.versions old found in
    let kept =
      recorded_move-IsAudited s old.id old (superseded_version old)
        (promotion_event job worker_id old) audited (ap (λ i. find_version i s.versions) id ∙ found)
        (promotion_event-IsMove job worker_id s old found ready) in
    other_tables-IsAudited _ (superseding job worker_id now old s) refl refl kept
