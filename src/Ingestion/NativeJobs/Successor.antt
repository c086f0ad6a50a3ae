-- ===== src/Ingestion/NativeJobs/Successor.antt =====
-- app/services/ingestion/repository_support.py: the job that follows one that succeeded, and a job
-- whose dispatch failed. Jobs are stored newest first, as `insert_job` and `create_next_job` put
-- them, so the oldest is the last one.
use atlas_rag.Ingestion.NativeJobs.{NextStageJob, find_job}
use atlas_rag.Common.{
  Bool, Option, List, true, ℕ, ◌||◌, none, false, ◌==◌, some, update_where, ◌&&◌, ◌∷◌,
  if◌then◌else◌, ◌+◌, [],
}
use atlas_rag.Catalog.Enums.{JobState, IngestionStage, same_stage}
use atlas_rag.Database.{Uuid, IngestionJob}
use atlas_rag.Database.Session.{Session, modify, gets}

unfoldable pub find_last : {A : Type 0} → (A → Bool) → List A → Option A
find_last p [] = none
find_last p (x ∷ xs) = elim (find_last p xs) [
  | some y ↦ some y
  | none ↦ if p x then some x else none
]

abbrev pub awaits_dispatch : JobState → Bool
awaits_dispatch JobState.pending = true
awaits_dispatch JobState.retry_scheduled = true
awaits_dispatch _ = false

-- `defer_job_dispatch`: the sanitized context, which no statement reads, is left out.
unfoldable pub defer_job_dispatch :
    (tenant_id document_version_id job_id : Uuid) (retry_delay now : ℕ) → Session (Unit {0})
defer_job_dispatch tenant_id document_version_id job_id retry_delay now = modify (λ s. record s {
  jobs =
      update_where
        (λ j.
          (j.id == job_id)
          && (j.tenant_id == tenant_id)
          && (j.document_version_id == document_version_id)
          && awaits_dispatch j.state)
        (λ j. record j { state = JobState.retry_scheduled; retry_at = some (now + retry_delay) })
        s.jobs;
})

-- `IS NOT DISTINCT FROM`
abbrev pub same_request_id : Option Uuid → Option Uuid → Bool
same_request_id none none = true
same_request_id (some a) (some b) = a == b
same_request_id _ _ = false

abbrev pub follows : IngestionStage → IngestionStage → Bool
follows IngestionStage.preflight next =
    same_stage next IngestionStage.ocr || same_stage next IngestionStage.chunk
follows IngestionStage.native_parse next =
    same_stage next IngestionStage.ocr || same_stage next IngestionStage.chunk
follows IngestionStage.ocr next = same_stage next IngestionStage.chunk
follows IngestionStage.chunk next = same_stage next IngestionStage.embed
follows IngestionStage.embed next = same_stage next IngestionStage.index
follows _ next = false

abbrev pub has_succeeded : JobState → Bool
has_succeeded JobState.succeeded = true
has_succeeded _ = false

-- The join of a job with its successors.
unfoldable pub is_successor_of : IngestionJob → IngestionJob → Bool
unfolding same_stage
is_successor_of predecessor j =
    (j.tenant_id == predecessor.tenant_id)
    && (j.collection_id == predecessor.collection_id)
    && (j.document_version_id == predecessor.document_version_id)
    && same_request_id j.lifecycle_request_id predecessor.lifecycle_request_id
    && awaits_dispatch j.state
    && follows predecessor.stage j.stage

abbrev pub next_of : Option IngestionJob → Option NextStageJob
next_of none = none
next_of (some j) = some (record { id = j.id; stage = j.stage })

abbrev pub successor_of :
    (tenant_id document_version_id : Uuid)
    → List IngestionJob
    → Option IngestionJob
    → Option NextStageJob
successor_of tenant_id document_version_id jobs none = none
successor_of tenant_id document_version_id jobs (some predecessor) =
    if (predecessor.tenant_id == tenant_id)
      && (predecessor.document_version_id == document_version_id)
      && has_succeeded predecessor.state
    then next_of (find_last (is_successor_of predecessor) jobs)
    else none

unfoldable pub pending_successor :
    (tenant_id document_version_id predecessor_job_id : Uuid) → Session (Option NextStageJob)
pending_successor tenant_id document_version_id predecessor_job_id =
    gets
      (λ s. successor_of tenant_id document_version_id s.jobs (find_job predecessor_job_id s.jobs))
