-- ===== src/Ingestion/Publication/Audited.antt =====
-- app/services/ingestion/publication_claim.py: the claims among the trails of the versions.
use atlas_rag.Database.Leads.{Keeps, Leads-bind, Leads-after, Leads-if, Leads-pure}
use atlas_rag.Catalog.Transitions.Kept.{IsQuiet-IsAuditedAt, read-IsAuditedAt}
use atlas_rag.Ingestion.NativeJobs.Audited.Claiming.{
  LeavesAudited, cancel_job-IsAudited, exhaust_job-IsAudited, insert_attempt-IsQuiet,
  hold-IsAuditedAt, hold,
}
use atlas_rag.Ingestion.Publication.{
  claim_publication, publication_row, take_publication_job, claim_publication_row, PublicationRow,
  join_normalized, complete_row, claimed_publication, normalized_source, is_expected,
  expected_state, needs_chunks, is_some, needs_embeddings,
}
use atlas_rag.Database.{IngestionJob, DocumentVersion, Uuid, Store, Artifact}
use atlas_rag.Database.Session.{ServiceError, pure, ◌>>◌, raise}
use atlas_rag.Common.{
  String, Option, ◌≡◌, ℕ, some, ◌+◌, none, Option-cases, inl, ap, arith, sym, inr, ◌∙◌, not, ◌&&◌,
  leb,
}
use atlas_rag.Catalog.Transitions.Audit.{IsAudited, some-eq}
use atlas_rag.Catalog.Versions.{find_version}
use atlas_rag.Ingestion.NativeJobs.Claim.{
  insert_attempt, cancel_job, new_attempt, is_finished, lease_is_live,
}
use atlas_rag.Ingestion.NativeJobs.{find_job}
use atlas_rag.Catalog.Enums.{is_in}
use atlas_rag.Ingestion.Ocr.{ocr_stopped_states}

complete_row-version :
    (j : IngestionJob) (v : DocumentVersion) (k : Uuid) (s : Store) (o n : Option Artifact)
    (row : PublicationRow)
    → complete_row j v k s o n ≡ some row
    → row.native.version ≡ v
complete_row-version j v k s (some o) (some n) row h =
    let same = some-eq h in ap (λ (r : PublicationRow). r.native.version) (sym same)
complete_row-version j v k s none n row h = absurd (cc)
complete_row-version j v k s (some o) none row h = absurd (cc)

join_normalized-version :
    (j : IngestionJob) (v : DocumentVersion) (s : Store) (k : Option Uuid) (row : PublicationRow)
    → join_normalized j v s k ≡ some row
    → row.native.version ≡ v
join_normalized-version j v s none row h = absurd (cc)
join_normalized-version j v s (some k) row h = complete_row-version j v k s _ _ row h

-- The row that a claim locks has the version as it stands.
pub publication_row-found :
    (t v k : Uuid) (s : Store) (row : PublicationRow)
    → publication_row t v k s ≡ some row
    → (i : Uuid) × (find_version i s.versions ≡ some row.native.version)
unfolding publication_row
publication_row-found t v k s row h = elim (Option-cases (find_job k s.jobs)) [
  | inl nothing ↦ absurd (ground arith)
  | inr (j, found) ↦ elim (Option-cases (find_version j.document_version_id s.versions)) [
    | inl no_version ↦ absurd (ground arith)
    | inr (x, present) ↦
        let joined : join_normalized j x s (normalized_source x s) ≡ some row = ground arith in
        (
          j.document_version_id,
          present
              ∙ ap some (sym (join_normalized-version j x s (normalized_source x s) row joined)),
        )
  ]
]

take_publication_job-IsAudited :
    (row : PublicationRow) (worker_id : String) (now d : ℕ)
    → LeavesAudited row.native.version (take_publication_job row worker_id now d)
unfolding take_publication_job hold
take_publication_job-IsAudited row worker_id now d =
    let v : DocumentVersion = row.native.version in
    let n : ℕ = row.native.job.attempt_count + 1 in
    Leads-after (hold row.native.job worker_id now d)
      (insert_attempt (new_attempt row.native.job worker_id n)
        >> pure (some (claimed_publication row n)))
      (hold-IsAuditedAt v row.native.job worker_id now d)
      (Leads-bind (IsQuiet-IsAuditedAt v (insert_attempt-IsQuiet _))
        (λ _. Leads-pure _ (λ s p. p.audited)))

raise-IsAudited :
    {A : Type 0} (v : DocumentVersion) (e : ServiceError) → LeavesAudited v (raise {A = A} e)
raise-IsAudited v e = record { leads = λ s s' a p h. absurd (cc) }

claim_publication_row-IsAudited :
    (row : PublicationRow) (worker_id : String) (now d : ℕ)
    → LeavesAudited row.native.version (claim_publication_row row worker_id now d)
unfolding claim_publication_row
claim_publication_row-IsAudited row worker_id now d =
    let j : IngestionJob = row.native.job in
    let v : DocumentVersion = row.native.version in
    Leads-if (is_finished j.state) _ _ (Leads-pure none (λ s p. p.audited)) (
      Leads-if (is_in v.state ocr_stopped_states) _ _
        (Leads-after (cancel_job now j) (pure none) (λ s p. cancel_job-IsAudited now j s p.audited)
          (Leads-pure none (λ s p. p)))
        (Leads-if (not (is_expected (expected_state j.stage) v.state)) _ _
          (raise-IsAudited v ServiceError.not_awaiting_stage)
          (Leads-if (needs_chunks j.stage && not (is_some row.chunk)) _ _
            (raise-IsAudited v ServiceError.no_chunk_manifest)
            (Leads-if (needs_embeddings j.stage && not (is_some row.embedding)) _ _
              (raise-IsAudited v ServiceError.no_embedding_manifest)
              (Leads-if (lease_is_live now j) _ _ (Leads-pure none (λ s p. p.audited)) (
                Leads-if (leb j.max_attempts j.attempt_count) _ _
                  (Leads-bind (exhaust_job-IsAudited row.native worker_id)
                    (λ _. Leads-pure none (λ s p. p)))
                  (take_publication_job-IsAudited row worker_id now d)))))))

-- A claim of a publication keeps the trail of every version complete.
pub claim_publication-IsAudited :
    (t v k : Uuid) (worker_id : String) (now d : ℕ)
    → Keeps IsAudited (claim_publication t v k worker_id now d)
unfolding claim_publication
claim_publication-IsAudited t v k worker_id now d = record {
  leads = λ s s' c audited h. elim (Option-cases (publication_row t v k s)) [
    | inl nothing ↦ absurd (ground arith)
    | inr (row, found) ↦
        let (i, present) = publication_row-found t v k s row found in
        (claim_publication_row-IsAudited row worker_id now d).leads s s' c
          (read-IsAuditedAt row.native.version i s audited present) (rw found at h)
  ];
}
