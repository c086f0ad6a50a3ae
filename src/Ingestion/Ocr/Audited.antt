-- ===== src/Ingestion/Ocr/Audited.antt =====
-- app/services/ingestion/ocr_repository.py: the OCR jobs among the trails of the versions.
use atlas_rag.Database.Leads.{Keeps, Leads-bind, Leads-after, Leads-if, Leads-pure}
use atlas_rag.Catalog.Transitions.Kept.{
  IsAuditedAt, IsQuiet-IsAuditedAt, other_tables-IsAudited, read-IsAuditedAt,
}
use atlas_rag.Ingestion.NativeJobs.Audited.{worker_transition-IsAuditedAt}
use atlas_rag.Ingestion.NativeJobs.Audited.Claiming.{
  LeavesAudited, cancel_job-IsAudited, exhaust_job-IsAudited, insert_attempt-IsQuiet,
  hold-IsAuditedAt, hold,
}
use atlas_rag.Ingestion.NativeJobs.Audited.Ending.{
  insert_artifacts-IsAuditedAt, locked_job_version-IsAuditedAt, create_next_job-IsQuiet,
}
use atlas_rag.Ingestion.Ocr.{
  claim_ocr, join_extracted, ocr_rows, take_ocr_job, claim_ocr_row, store_ocr, succeed_ocr, OcrRow,
  advance_ocr, ClaimedOcrJob, one_row, ocr_claimed, ocr_stopped_states, is_extracted_of,
}
use atlas_rag.Database.{DocumentVersion, Uuid, Store, Artifact}
use atlas_rag.Ingestion.NativeJobs.Claim.{
  NativeRow, is_finished, insert_attempt, new_attempt, cancel_job, lease_is_live, is_original_of,
}
use atlas_rag.Common.{
  String, List, ℕ, Option, ◌+◌, ◌≡◌, none, some, Option-cases, ◌∷◌, Bool-cases, inl, inr, arith,
  not, refl, [], find, leb,
}
use atlas_rag.Catalog.Transitions.Audit.{IsAudited}
use atlas_rag.Ingestion.NativeJobs.Finish.{close_success}
use atlas_rag.Database.Session.{bind-eq-ok, ◌>>◌, pure}
use atlas_rag.Ingestion.NativeJobs.{
  update_job, PublishedArtifact, finish_attempt, update_attempts, find_job,
}
use atlas_rag.Common.Result.{ok}
use atlas_rag.Catalog.Enums.{is_in, VersionState, IngestionStage, ◌is◌}
use atlas_rag.Catalog.Versions.{find_version}

join_extracted-one :
    (row : NativeRow) (artifacts : List Artifact) (found : OcrRow) (s s' : Store)
    → one_row (join_extracted row artifacts) s ≡ ok (found, s')
    → (found.native ≡ row) × (s' ≡ s)
unfolding join_extracted
join_extracted-one row [] found s s' h = absurd (cc)
join_extracted-one row (a ∷ artifacts) found s s' h =
    elim (Bool-cases (is_extracted_of row.version a)) [
      | inl fits ↦ one_of (join_extracted row artifacts) (rw fits at h)
      | inr other ↦ join_extracted-one row artifacts found s s' (rw other at h)
    ]
  where
    one_of :
        (rest : List OcrRow)
        → one_row ((record { native = row; extracted = a }) ∷ rest) s ≡ ok (found, s')
        → (found.native ≡ row) × (s' ≡ s)
    one_of [] q = (cc, cc)
    one_of (x ∷ rest) q = absurd (cc)

-- The row that a claim locks has the version as it stands.
locked_row-IsAuditedAt :
    (t v k : Uuid) (s s' : Store) (row : OcrRow)
    → IsAudited s
    → one_row (ocr_rows t v k s) s ≡ ok (row, s')
    → IsAuditedAt row.native.version s'
unfolding ocr_rows
locked_row-IsAuditedAt t v k s s' row audited h = elim (Option-cases (find_job k s.jobs)) [
  | inl nothing ↦ absurd (ground arith)
  | inr (j, found) ↦ elim (Option-cases (find_version j.document_version_id s.versions)) [
    | inl no_version ↦ absurd (ground arith)
    | inr (x, present) ↦ elim (Option-cases (find (is_original_of x) s.artifacts)) [
      | inl no_original ↦ absurd (ground arith)
      | inr (a, original) ↦
          let base : NativeRow = record { job = j; version = x; original = a } in
          let (same, after) = join_extracted-one base s.artifacts row s s' (ground arith) in
          rw (after, same) (read-IsAuditedAt x j.document_version_id s audited present)
    ]
  ]
]

ocr_claimed-IsAudited :
    (v : DocumentVersion) (row : OcrRow) (n : ℕ) (page_count : Option ℕ)
    → LeavesAudited v (ocr_claimed row n page_count)
ocr_claimed-IsAudited v row n none = record { leads = λ s s' a p h. absurd (cc) }
ocr_claimed-IsAudited v row n (some page_count) = Leads-pure _ (λ s p. p.audited)

take_ocr_job-IsAudited :
    (row : OcrRow) (worker_id : String) (now d : ℕ)
    → LeavesAudited row.native.version (take_ocr_job row worker_id now d)
unfolding take_ocr_job hold
take_ocr_job-IsAudited row worker_id now d =
    let v : DocumentVersion = row.native.version in
    let n : ℕ = row.native.job.attempt_count + 1 in
    Leads-after (hold row.native.job worker_id now d)
      (insert_attempt (new_attempt row.native.job worker_id n) >> ocr_claimed row n v.page_count)
      (hold-IsAuditedAt v row.native.job worker_id now d)
      (Leads-bind (IsQuiet-IsAuditedAt v (insert_attempt-IsQuiet _))
        (λ _. ocr_claimed-IsAudited v row n v.page_count))

claim_ocr_row-IsAudited :
    (row : OcrRow) (worker_id : String) (now d : ℕ)
    → LeavesAudited row.native.version (claim_ocr_row row worker_id now d)
unfolding claim_ocr_row
claim_ocr_row-IsAudited row worker_id now d =
    Leads-if (is_finished row.native.job.state) _ _ (Leads-pure none (λ s p. p.audited)) (
      Leads-if (is_in row.native.version.state ocr_stopped_states) _ _
        (Leads-after (cancel_job now row.native.job) (pure none)
          (λ s p. cancel_job-IsAudited now row.native.job s p.audited) (Leads-pure none (λ s p. p)))
        (Leads-if (not (row.native.version.state is VersionState.ocr)) _ _
          (record { leads = λ s s' a p h. absurd (cc) })
          (Leads-if (lease_is_live now row.native.job) _ _ (Leads-pure none (λ s p. p.audited)) (
            Leads-if (leb row.native.job.max_attempts row.native.job.attempt_count) _ _
              (Leads-bind (exhaust_job-IsAudited row.native worker_id)
                (λ _. Leads-pure none (λ s p. p)))
              (take_ocr_job-IsAudited row worker_id now d)))))

-- A claim of an OCR job keeps the trail of every version complete.
pub claim_ocr-IsAudited :
    (t v k : Uuid) (worker_id : String) (now d : ℕ)
    → Keeps IsAudited (claim_ocr t v k worker_id now d)
unfolding claim_ocr
claim_ocr-IsAudited t v k worker_id now d = record {
  leads = λ s s' c audited h.
      let (row, s1, found, rest) =
        bind-eq-ok (one_row (ocr_rows t v k s)) (λ row. claim_ocr_row row worker_id now d) s h in
      (claim_ocr_row-IsAudited row worker_id now d).leads s1 s' c
        (locked_row-IsAuditedAt t v k s s1 row audited found) rest;
}

store_ocr-IsAudited :
    (v : DocumentVersion) (job : ClaimedOcrJob) (worker_id : String)
    (artifacts : List (Uuid × PublishedArtifact)) (n : ℕ) (next : Uuid) (now : ℕ)
    → LeavesAudited v (store_ocr job worker_id artifacts n next now v)
unfolding store_ocr advance_ocr close_success update_job finish_attempt update_attempts
store_ocr-IsAudited v job worker_id artifacts n next now =
    Leads-bind (insert_artifacts-IsAuditedAt v job.native artifacts) (λ _.
      Leads-bind
        (Leads-bind (worker_transition-IsAuditedAt v VersionState.normalizing worker_id _ none none)
          (λ w. worker_transition-IsAuditedAt w VersionState.chunking worker_id _ none none))
        (λ w.
          Leads-bind
            (IsQuiet-IsAuditedAt w (create_next_job-IsQuiet job.native IngestionStage.chunk n next))
            (λ created.
              Leads-after (close_success job.native now)
                (pure (record { id = created; stage = IngestionStage.chunk }))
                (λ s p.
                  other_tables-IsAudited s (close_success job.native now s) refl refl p.audited)
                (Leads-pure _ (λ s p. p)))))

-- The success of an OCR job keeps the trail of every version complete.
pub succeed_ocr-IsAudited :
    (job : ClaimedOcrJob) (worker_id : String) (artifacts : List (Uuid × PublishedArtifact)) (n : ℕ)
    (next : Uuid) (now : ℕ)
    → Keeps IsAudited (succeed_ocr job worker_id artifacts n next now)
unfolding succeed_ocr
succeed_ocr-IsAudited job worker_id artifacts n next now =
    Leads-bind (locked_job_version-IsAuditedAt job.native worker_id)
      (λ v. store_ocr-IsAudited v job worker_id artifacts n next now)
