-- ===== src/Ingestion/NativeJobs/Audited/Claiming.antt =====
-- app/services/ingestion/repository.py: `claim` among the trails of the versions.
use atlas_rag.Database.Leads.{
  Leads, Keeps, Leads-bind, Leads-after, Leads-if, Leads-pure, Leads-modify,
}
use atlas_rag.Catalog.Transitions.Kept.{
  IsAuditedAt, IsQuiet-IsAuditedAt, other_tables-IsAudited, read-IsAuditedAt,
  other_tables-IsAuditedAt,
}
use atlas_rag.Ingestion.NativeJobs.Audited.{worker_transition-IsAuditedAt}
use atlas_rag.Database.{DocumentVersion, Uuid, Store, JobAttempt, IngestionJob}
use atlas_rag.Ingestion.NativeJobs.Claim.{
  native_row, cancel_job, NativeRow, exhaust_job, insert_attempt, begin_parsing, take_job,
  claim_row, claim, start_parsing, released, expire_attempt, is_finished, held_by, new_attempt,
  stopped_states, claimed, lease_is_live, is_original_of, is_held,
}
use atlas_rag.Database.Session.{Session, pure, ◌>>◌}
use atlas_rag.Ingestion.NativeJobs.{update_attempts, update_job, find_job}
use atlas_rag.Common.{
  String, ℕ, ◌≡◌, some, arith, ◌+◌, Option-cases, none, inl, refl, inr, find, Bool-cases, leb,
}
use atlas_rag.Catalog.Transitions.Audit.{IsAudited}
use atlas_rag.Catalog.Enums.{VersionState, JobState, ◌is◌, is_in}
use atlas_rag.Database.Quiet.{IsQuiet}
use atlas_rag.Catalog.Versions.{find_version}

-- What a part of a claim says of the trails, whatever it answers.
abbrev pub LeavesAudited : {A : Type 0} → DocumentVersion → Session A → Type 0
LeavesAudited v m = Leads (IsAuditedAt v) m (λ _ s. IsAudited s)

-- The row that a claim locks has the version as it stands.
native_row-IsAuditedAt :
    (t v k : Uuid) (s : Store) (row : NativeRow)
    → IsAudited s
    → native_row t v k s ≡ some row
    → IsAuditedAt row.version s
unfolding native_row
native_row-IsAuditedAt t v k s row audited h = elim (Option-cases (find_job k s.jobs)) [
  | inl nothing ↦ absurd (ground arith)
  | inr (j, found) ↦ elim (Option-cases (find_version j.document_version_id s.versions)) [
    | inl no_version ↦ absurd (ground arith)
    | inr (x, present) ↦ elim (Option-cases (find (is_original_of x) s.artifacts)) [
      | inl no_original ↦ absurd (ground arith)
      | inr (a, original) ↦
          let same : row.version ≡ x = ground arith in
          rw same (read-IsAuditedAt x j.document_version_id s audited present)
    ]
  ]
]

pub cancel_job-IsAudited :
    (now : ℕ) (j : IngestionJob) (s : Store) → IsAudited s → IsAudited (cancel_job now j s)
unfolding cancel_job update_attempts update_job
cancel_job-IsAudited now j s audited =
    other_tables-IsAudited s (cancel_job now j s) refl refl audited

dead_letter : NativeRow → Store → Store
dead_letter row = update_job row.job.id (λ j. record (released JobState.dead_lettered j) {
  terminal_reason_code = some "PROCESSING_RETRY_EXHAUSTED";
})

pub exhaust_job-IsAudited :
    (row : NativeRow) (worker_id : String) → LeavesAudited row.version (exhaust_job row worker_id)
unfolding exhaust_job dead_letter update_job
exhaust_job-IsAudited row worker_id =
    Leads-bind
      (worker_transition-IsAuditedAt row.version VersionState.failed worker_id _
        (some "PROCESSING_RETRY_EXHAUSTED") none)
      (λ w.
        Leads-modify (dead_letter row)
          (λ s p. other_tables-IsAudited s (dead_letter row s) refl refl p.audited))

pub insert_attempt-IsQuiet : (new : JobAttempt) → IsQuiet (insert_attempt new)
unfolding insert_attempt
insert_attempt-IsQuiet new = record { quiet = λ s s' a h. (ground arith, ground arith) }

begin_parsing-IsAudited :
    (row : NativeRow) (worker_id : String) (n : ℕ)
    → LeavesAudited row.version (begin_parsing row worker_id n)
unfolding begin_parsing start_parsing
begin_parsing-IsAudited row worker_id n =
    Leads-if (row.version.state is VersionState.queued) (start_parsing row worker_id n) (pure tt)
      (Leads-bind
        (worker_transition-IsAuditedAt row.version VersionState.parsing worker_id _ none none)
        (λ w. Leads-pure tt (λ s p. p.audited)))
      (Leads-pure tt (λ s p. p.audited))

-- The job is held by the worker, and an attempt that was left open is closed.
unfoldable pub hold : IngestionJob → (worker_id : String) → (now d : ℕ) → Store → Store
hold j worker_id now d s =
    update_job j.id (held_by worker_id (j.attempt_count + 1) (now + d)) (expire_attempt now j s)

pub hold-IsAuditedAt :
    (v : DocumentVersion) (j : IngestionJob) (worker_id : String) (now d : ℕ) (s : Store)
    → IsAuditedAt v s
    → IsAuditedAt v (hold j worker_id now d s)
unfolding hold update_job expire_attempt update_attempts
hold-IsAuditedAt v j worker_id now d s p = elim (Bool-cases (is_held j.state)) [
  | inl held ↦
      other_tables-IsAuditedAt v s (hold j worker_id now d s) (rw held refl) (rw held refl) p
  | inr free ↦
      other_tables-IsAuditedAt v s (hold j worker_id now d s) (rw free refl) (rw free refl) p
]

take_job-IsAudited :
    (row : NativeRow) (worker_id : String) (now d : ℕ)
    → LeavesAudited row.version (take_job row worker_id now d)
unfolding take_job hold
take_job-IsAudited row worker_id now d =
    let n : ℕ = row.job.attempt_count + 1 in
    Leads-after (hold row.job worker_id now d)
      (insert_attempt (new_attempt row.job worker_id n)
        >> (begin_parsing row worker_id n >> pure (some (claimed row n))))
      (hold-IsAuditedAt row.version row.job worker_id now d)
      (Leads-bind (IsQuiet-IsAuditedAt row.version (insert_attempt-IsQuiet _))
        (λ _. Leads-bind (begin_parsing-IsAudited row worker_id n) (λ _. Leads-pure _ (λ s p. p))))

claim_row-IsAudited :
    (row : NativeRow) (worker_id : String) (now d : ℕ)
    → LeavesAudited row.version (claim_row row worker_id now d)
unfolding claim_row
claim_row-IsAudited row worker_id now d =
    Leads-if (is_finished row.job.state) _ _ (Leads-pure none (λ s p. p.audited)) (
      Leads-if (is_in row.version.state stopped_states) _ _
        (Leads-after (cancel_job now row.job) (pure none)
          (λ s p. cancel_job-IsAudited now row.job s p.audited) (Leads-pure none (λ s p. p)))
        (Leads-if (lease_is_live now row.job) _ _ (Leads-pure none (λ s p. p.audited)) (
          Leads-if (leb row.job.max_attempts row.job.attempt_count) _ _
            (Leads-bind (exhaust_job-IsAudited row worker_id) (λ _. Leads-pure none (λ s p. p)))
            (take_job-IsAudited row worker_id now d))))

-- A claim keeps the trail of every version complete: one that is granted, one that finds nothing
-- to do, and one that cancels or exhausts the job.
pub claim-IsAudited :
    (t v k : Uuid) (worker_id : String) (now d : ℕ) → Keeps IsAudited (claim t v k worker_id now d)
unfolding claim
claim-IsAudited t v k worker_id now d = record {
  leads = λ s s' c audited h. elim (Option-cases (native_row t v k s)) [
    | inl nothing ↦ absurd (ground arith)
    | inr (row, found) ↦
        (claim_row-IsAudited row worker_id now d).leads s s' c
          (native_row-IsAuditedAt t v k s row audited found) (rw found at h)
  ];
}
