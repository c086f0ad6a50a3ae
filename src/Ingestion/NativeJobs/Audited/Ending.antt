-- ===== src/Ingestion/NativeJobs/Audited/Ending.antt =====
-- app/services/ingestion/repository.py: the ends of an attempt among the trails of the versions.
use atlas_rag.Database.Leads.{Leads, Keeps, Leads-bind, Leads-after, Leads-pure, Leads-modify}
use atlas_rag.Catalog.Transitions.Kept.{
  IsAuditedAt, IsQuiet-IsAuditedAt, other_tables-IsAudited, read-IsAuditedAt,
  update_where-IsAuditedAt, insert_artifact-IsQuiet,
}
use atlas_rag.Ingestion.NativeJobs.Audited.{worker_transition-IsAuditedAt}
use atlas_rag.Ingestion.NativeJobs.Finish.{
  insert_artifacts, locked_job_version, advance_route, create_next_job, locked_row, next_job,
  set_page_count, store_success, store_failure, close_success, close_failure, succeed,
  insert_or_reuse, finish_lifecycle_request, fail_permanently, schedule_retry, close_retry,
  next_stage,
}
use atlas_rag.Database.{DocumentVersion, Uuid, IngestionJob, Store}
use atlas_rag.Ingestion.NativeJobs.{
  ClaimedNativeJob, DocumentRoute, PublishedArtifact, find_job, update_job, finish_attempt,
  update_attempts,
}
use atlas_rag.Common.{
  List, String, ℕ, Option-cases, none, inl, arith, inr, ◌≡◌, Option, ◌∷◌, some, refl, [],
}
use atlas_rag.Catalog.Enums.{IngestionStage, VersionState}
use atlas_rag.Catalog.Transitions.Audit.{IsAudited}
use atlas_rag.Database.Quiet.{IsQuiet}
use atlas_rag.Catalog.Versions.{find_version}
use atlas_rag.Ingestion.NativeJobs.Fence.{end_attempt, Ending}
use atlas_rag.Database.Session.{◌>>=◌, modify, ◌>>◌, pure}

pub insert_artifacts-IsAuditedAt :
    (v : DocumentVersion) (job : ClaimedNativeJob) (artifacts : List (Uuid × PublishedArtifact))
    → Keeps (IsAuditedAt v) (insert_artifacts job artifacts)
unfolding insert_artifacts
insert_artifacts-IsAuditedAt v job [] = Leads-pure tt (λ s p. p)
insert_artifacts-IsAuditedAt v job ((k, a) ∷ artifacts) =
    Leads-bind (IsQuiet-IsAuditedAt v (insert_artifact-IsQuiet _))
      (λ _. insert_artifacts-IsAuditedAt v job artifacts)

-- The fence gives the row of the version as it stands.
pub locked_job_version-IsAuditedAt :
    (job : ClaimedNativeJob) (worker_id : String)
    → Leads IsAudited (locked_job_version job worker_id) IsAuditedAt
unfolding locked_job_version locked_row
locked_job_version-IsAuditedAt job worker_id = record {
  leads = λ s s' v audited h. elim (Option-cases (find_job job.id s.jobs)) [
    | inl nothing ↦ absurd (ground arith)
    | inr (j, found) ↦ elim (Option-cases (find_version job.document_version_id s.versions)) [
      | inl no_version ↦ absurd (ground arith)
      | inr (x, present) ↦
          let same_store : s' ≡ s = ground arith in
          let same : v ≡ x = ground arith in
          rw (same_store, same) (read-IsAuditedAt x job.document_version_id s audited present)
    ]
  ];
}

advance_route-IsAuditedAt :
    (job : ClaimedNativeJob) (worker_id : String) (route : DocumentRoute) (v : DocumentVersion)
    → Leads (IsAuditedAt v) (advance_route job worker_id route v) IsAuditedAt
unfolding advance_route
advance_route-IsAuditedAt job worker_id DocumentRoute.native v =
    Leads-bind (worker_transition-IsAuditedAt v VersionState.normalizing worker_id _ none none)
      (λ w. worker_transition-IsAuditedAt w VersionState.chunking worker_id _ none none)
advance_route-IsAuditedAt job worker_id DocumentRoute.ocr v =
    worker_transition-IsAuditedAt v VersionState.ocr worker_id _ none none
advance_route-IsAuditedAt job worker_id DocumentRoute.mixed v =
    worker_transition-IsAuditedAt v VersionState.ocr worker_id _ none none

insert_or_reuse-IsQuiet :
    (new : IngestionJob) (present : Option IngestionJob) → IsQuiet (insert_or_reuse new present)
insert_or_reuse-IsQuiet new none = record {
  quiet = λ s s' a h.
      let after : record s { jobs = new ∷ s.jobs } ≡ s' = cc in rw (← after) (refl, refl);
}
insert_or_reuse-IsQuiet new (some j) = record {
  quiet = λ s s' a h. let after : s ≡ s' = cc in rw (← after) (refl, refl);
}

pub create_next_job-IsQuiet :
    (job : ClaimedNativeJob) (stage : IngestionStage) (n : ℕ) (k : Uuid)
    → IsQuiet (create_next_job job stage n k)
unfolding create_next_job next_job
create_next_job-IsQuiet job stage n k = record {
  quiet = λ s s' a h. (insert_or_reuse-IsQuiet _ _).quiet s s' a h;
}

set_page_count-IsAuditedAt :
    (v : DocumentVersion) (job : ClaimedNativeJob) (page_count : ℕ) (s : Store)
    → IsAuditedAt v s
    → IsAuditedAt v (set_page_count job page_count s)
unfolding set_page_count
set_page_count-IsAuditedAt v job page_count s p =
    update_where-IsAuditedAt _ (λ v. record v { page_count = some page_count }) (λ _. refl)
      (λ _. refl) (λ _. refl) v s p

store_success-IsAudited :
    (v : DocumentVersion) (job : ClaimedNativeJob) (worker_id : String) (route : DocumentRoute)
    (page_count : ℕ) (artifacts : List (Uuid × PublishedArtifact)) (n : ℕ) (next : Uuid) (now : ℕ)
    → Leads
        (IsAuditedAt v)
        (store_success job worker_id route page_count artifacts n next now v)
        (λ _ s. IsAudited s)
unfolding store_success close_success update_job finish_attempt update_attempts
store_success-IsAudited v job worker_id route page_count artifacts n next now =
    Leads-bind (insert_artifacts-IsAuditedAt v job artifacts) (λ _.
      Leads-after (set_page_count job page_count)
        (advance_route job worker_id route v >>= λ moved.
          create_next_job job (next_stage route) n next >>= λ created.
          modify (close_success job now)
          >> pure (record { id = created; stage = next_stage route }))
        (set_page_count-IsAuditedAt v job page_count)
        (Leads-bind (advance_route-IsAuditedAt job worker_id route v) (λ w.
          Leads-bind (IsQuiet-IsAuditedAt w (create_next_job-IsQuiet job (next_stage route) n next))
            (λ created.
              Leads-after (close_success job now)
                (pure (record { id = created; stage = next_stage route }))
                (λ s p. other_tables-IsAudited s (close_success job now s) refl refl p.audited)
                (Leads-pure _ (λ s p. p))))))

store_failure-IsAudited :
    (v : DocumentVersion) (job : ClaimedNativeJob) (worker_id : String) (state : VersionState)
    (reason : String) (artifacts : List (Uuid × PublishedArtifact)) (now : ℕ)
    → Leads
        (IsAuditedAt v)
        (store_failure job worker_id state reason artifacts now v)
        (λ _ s. IsAudited s)
unfolding store_failure close_failure finish_lifecycle_request update_job finish_attempt
    update_attempts
store_failure-IsAudited v job worker_id state reason artifacts now =
    Leads-bind (insert_artifacts-IsAuditedAt v job artifacts) (λ _.
      Leads-bind (worker_transition-IsAuditedAt v state worker_id _ (some reason) none) (λ w.
        Leads-modify (close_failure job state reason now) (λ s p.
          other_tables-IsAudited s (close_failure job state reason now s) refl refl p.audited)))

-- The end of an attempt, whatever it is, keeps the trail of every version complete.
pub end_attempt-IsAudited :
    (e : Ending) (job : ClaimedNativeJob) (worker_id : String) (now : ℕ)
    → Keeps IsAudited (end_attempt e job worker_id now)
unfolding end_attempt succeed fail_permanently schedule_retry close_retry update_job finish_attempt
    update_attempts
end_attempt-IsAudited (Ending.success route pages artifacts n next) job worker_id now =
    Leads-bind
      (Leads-bind (locked_job_version-IsAuditedAt job worker_id)
        (λ v. store_success-IsAudited v job worker_id route pages artifacts n next now))
      (λ _. Leads-pure tt (λ s p. p))
end_attempt-IsAudited (Ending.failure state reason artifacts) job worker_id now =
    Leads-bind (locked_job_version-IsAuditedAt job worker_id)
      (λ v. store_failure-IsAudited v job worker_id state reason artifacts now)
end_attempt-IsAudited (Ending.retry reason delay) job worker_id now =
    Leads-bind (locked_job_version-IsAuditedAt job worker_id) (λ v.
      Leads-modify (close_retry job reason delay now)
        (λ s p. other_tables-IsAudited s (close_retry job reason delay now s) refl refl p.audited))
