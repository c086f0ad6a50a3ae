-- ===== src/Tests/Ingestion.antt =====
-- The preflight job of the uploaded version: a worker claims it, and schedules a retry.
use atlas_rag.Common.{◌≡◌, some, true, refl, arith, ◌≢◌, ℕ, ◌≤◌, min, Option, suc, ◌*◌}
use atlas_rag.Tests.Catalog.{program, upload, store_of}
use atlas_rag.Ingestion.NativeJobs.Claim.{
  claim, claim_row, native_row, is_original_of, is_finished, lease_is_live, is_held, take_job,
  expire_attempt, held_by, insert_attempt, begin_parsing, start_parsing, claimed,
}
use atlas_rag.Ingestion.NativeJobs.Fence.{
  Ending, end_attempt, claim_fences, claim_excludes, end_attempt_once, claim_counts,
}
use atlas_rag.Database.{Store, IngestionJob}
use atlas_rag.Common.Result.{Result, ok}
use atlas_rag.Ingestion.Retry.{WorkerSettings, retry_delay, power_of_two, retry_delay-bounds}
use atlas_rag.Database.Session.{ServiceError}
use atlas_rag.Ingestion.NativeJobs.{
  ClaimedNativeJob, find_job, update_attempts, update_job, worker_transition,
  store_worker_transition, worker_snapshot, worker_change, worker_moved, finish_attempt,
}
use atlas_rag.Ingestion.NativeJobs.Finish.{
  owns_attempt, schedule_retry, locked_job_version, locked_row, close_retry, end_job,
}
use atlas_rag.Ingestion.NativeJobs.Lease.{
  LeaseStep, LeaseAction, lease_of, WorkerStep-LeaseStep, WorkerStep,
}

unfoldable pub worker : Unit {0}
unfolding program claim claim_row native_row find_job is_original_of is_finished lease_is_live
    is_held take_job expire_attempt update_attempts update_job held_by insert_attempt begin_parsing
    start_parsing worker_transition store_worker_transition worker_snapshot worker_change
    worker_moved claimed end_attempt schedule_retry locked_job_version locked_row owns_attempt
    close_retry finish_attempt end_job
worker = tt

abbrev uploaded : Store
uploaded = store_of upload

abbrev first_claim : Result ServiceError (Option ClaimedNativeJob × Store)
first_claim = claim 1 7 40 "worker-1" 100 30 uploaded

abbrev running : Store
running = store_of first_claim

abbrev pub attempt : ℕ → ClaimedNativeJob
attempt n = record {
  id = 40;
  tenant_id = 1;
  collection_id = 2;
  document_version_id = 7;
  attempt_number = n;
  max_attempts = 3;
  object_key = "documents/7";
  content_sha256 = "aa";
  size_bytes = 1000;
  pipeline_profile = "default";
  original_artifact_id = 60;
}

first_claim_granted : first_claim ≡ ok (some (attempt 1), running)
unfolding worker
first_claim_granted = refl

abbrev retried : Result ServiceError (Unit {0} × Store)
retried =
    end_attempt (Ending.retry "INGESTION_DEPENDENCY_UNAVAILABLE" 30) (attempt 1) "worker-1" 110
      running

claim_fences_example :
    end_attempt (Ending.retry "LATE" 30) (attempt 0) "worker-0" 110 running ≢ ok (tt, running)
unfolding worker
claim_fences_example =
    claim_fences 1 7 40 "worker-1" 100 30 uploaded running (attempt 1) (Ending.retry "LATE" 30)
      (attempt 0) "worker-0" 110 running refl refl (omega arith)

claim_excludes_example : claim 1 7 40 "worker-2" 110 30 running ≢ ok (some (attempt 2), running)
unfolding worker
claim_excludes_example =
    claim_excludes 1 7 40 "worker-1" 100 30 uploaded running (attempt 1) 1 7 "worker-2" 110 30
      running (attempt 2) refl (omega arith)

end_attempt_once_example :
    end_attempt (Ending.retry "AGAIN" 30) (attempt 1) "worker-1" 120 (store_of retried)
    ≢ ok (tt, running)
unfolding worker
end_attempt_once_example =
    end_attempt_once (Ending.retry "INGESTION_DEPENDENCY_UNAVAILABLE" 30) (Ending.retry "AGAIN" 30)
      (attempt 1) (attempt 1) "worker-1" "worker-1" 110 120 running (store_of retried) running refl
      refl

claim_counts_example :
    (before after : IngestionJob) × (find_job 40 uploaded.jobs ≡ some before)
    × (find_job 40 running.jobs ≡ some after)
    × (1 ≡ suc before.attempt_count)
    × (after.attempt_count ≡ 1)
    × (1 ≤ 3)
    × (owns_attempt (attempt 1) "worker-1" after ≡ true)
unfolding worker
claim_counts_example = claim_counts 1 7 40 "worker-1" 100 30 uploaded running (attempt 1) refl

abbrev pub settings : WorkerSettings
settings = record { retry_base_seconds = 30; retry_max_seconds = 900 }

retry_delay-bounds_example :
    (1 ≤ retry_delay settings (attempt 3))
    × (retry_delay settings (attempt 3) ≤ 900)
    × (min (30 * power_of_two 2) 900 ≤ retry_delay settings (attempt 3))
retry_delay-bounds_example = retry_delay-bounds settings (attempt 3) (omega arith) (omega arith)

third_delay : retry_delay settings (attempt 3) ≡ 130
unfolding retry_delay power_of_two
third_delay = refl

WorkerStep-LeaseStep_example :
    LeaseStep (LeaseAction.claims "worker-1" 100 30 1) (lease_of 40 uploaded) (lease_of 40 running)
WorkerStep-LeaseStep_example =
    WorkerStep-LeaseStep
      (WorkerStep.claimed_by 1 7 "worker-1" 100 30 uploaded running (attempt 1) first_claim_granted)
