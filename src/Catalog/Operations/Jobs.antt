-- ===== src/Catalog/Operations/Jobs.antt =====
-- app/services/catalog/operation_transitions.py: the job that is created, among those of its
-- stage.
use native.Mathlib.Nat.{le_refl}
use atlas_rag.Common.{
  ℕ, any, Bool, List, ◌≤◌, ◌≡◌, false, some, true, Option, ◌<◌, ◌∷◌, arith, Option-cases, ==_self,
  inl, inr, refl, [],
}
use atlas_rag.Catalog.Transitions.{
  next_generation, at_stage, create_ingestion_job, new_job, insert_job, is_delivery_of,
}
use atlas_rag.Catalog.Operations.{latest_job, latest_job_id}
use atlas_rag.Database.{IngestionJob, Principal, DocumentVersion, Uuid, Store}
use atlas_rag.Catalog.Enums.{IngestionStage, same_stage_self, same_stage, JobState}
use atlas_rag.Common.Result.{ok}

next_generation-fresh :
    (new : IngestionJob) (jobs : List IngestionJob)
    → next_generation (at_stage new.tenant_id new.document_version_id new.stage) jobs
      ≤ new.generation
    → any (is_delivery_of new) jobs ≡ false
unfolding next_generation any is_delivery_of
next_generation-fresh new [] h = refl
next_generation-fresh new (j ∷ jobs) h = ground (arith, next_generation-fresh new jobs)

-- No job has a generation as high as the next one.
latest_job-below :
    (p : IngestionJob → Bool) (jobs : List IngestionJob) (j : IngestionJob)
    → latest_job p jobs ≡ some j
    → j.generation < next_generation p jobs
unfolding next_generation latest_job
latest_job-below p [] j h = cc
latest_job-below p (x ∷ jobs) j h = elim (Option-cases (latest_job p jobs)) [
  | inl none_yet ↦ ground arith
  | inr (best, found) ↦ ground (arith, latest_job-below p jobs best found)
]

-- The job that was added with the next generation is the latest one.
pub latest_job-new :
    (p : IngestionJob → Bool) (new : IngestionJob) (jobs : List IngestionJob)
    → p new ≡ true
    → new.generation ≡ next_generation p jobs
    → latest_job p (new ∷ jobs) ≡ some new
unfolding latest_job
latest_job-new p new jobs h e = elim (Option-cases (latest_job p jobs)) [
  | inl none_yet ↦ ground arith
  | inr (best, found) ↦ ground (arith, latest_job-below p jobs best found)
]

new_job-at_stage :
    (p : Principal) (v : DocumentVersion) (stage : IngestionStage) (g m : ℕ) (r : Option Uuid)
    (k : Uuid)
    → at_stage p.tenant_id v.id stage (new_job p v stage g m r k) ≡ true
unfolding at_stage new_job
new_job-at_stage p v stage g m r k = rw (==_self p.tenant_id, ==_self v.id) (same_stage_self stage)

pub create_ingestion_job_succeeds :
    (p : Principal) (v : DocumentVersion) (stage : IngestionStage) (max_attempts : ℕ)
    (request_id : Option Uuid) (job_id : Uuid) (s : Store)
    → same_stage stage IngestionStage.delete ≡ false
    → (j : IngestionJob) × (create_ingestion_job p v stage max_attempts request_id job_id s
        ≡ ok (job_id, record s { jobs = j ∷ s.jobs }))
      × (latest_job_id p.tenant_id v.id stage (record s { jobs = j ∷ s.jobs }) ≡ some job_id)
      × (j.state ≡ JobState.pending)
unfolding create_ingestion_job insert_job latest_job_id new_job
create_ingestion_job_succeeds p v stage max_attempts request_id job_id s other =
    let g : ℕ = next_generation (at_stage p.tenant_id v.id stage) s.jobs in
    let new : IngestionJob = new_job p v stage g max_attempts request_id job_id in
    let free : any (is_delivery_of new) s.jobs ≡ false =
      next_generation-fresh new s.jobs (le_refl g) in
    let newest : latest_job (at_stage p.tenant_id v.id stage) (new ∷ s.jobs) ≡ some new =
      latest_job-new (at_stage p.tenant_id v.id stage) new s.jobs
        (new_job-at_stage p v stage g max_attempts request_id job_id) refl in
    (new, ground arith, rw newest refl, refl)
