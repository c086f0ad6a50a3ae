-- ===== src/Ingestion/Retry.antt =====
-- app/services/ingestion/service.py: the delay before a job is tried again, and the end of an
-- attempt that failed for a dependency. `job.id.int` is the number of the job's id. An attempt
-- number is at least 1.
use native.Mathlib.Nat.{one-le-mul}
use atlas_rag.Catalog.Enums.{VersionState}
use atlas_rag.Common.{
  ℕ, zero, suc, ◌≤◌, ◌+◌, ◌-◌, min, max, Bool, true, false, if◌then◌else◌, leb, String, [], ◌*◌,
  ◌/◌, ◌%◌, arith,
}
use atlas_rag.Ingestion.NativeJobs.{ClaimedNativeJob}
use atlas_rag.Database.Session.{Session, ◌>>◌, pure}
use atlas_rag.Ingestion.NativeJobs.Finish.{fail_permanently, schedule_retry}

pub record WorkerSettings : Type 0 where
  pub retry_base_seconds : ℕ
  pub retry_max_seconds : ℕ

unfoldable pub power_of_two : ℕ → ℕ
power_of_two zero = 1
power_of_two (suc n) = 2 * power_of_two n

unfoldable pub retry_delay : WorkerSettings → ClaimedNativeJob → ℕ
retry_delay settings job =
    let exponential_delay = settings.retry_base_seconds * power_of_two (job.attempt_number - 1) in
    let bounded_delay = min exponential_delay settings.retry_max_seconds in
    let jitter_ceiling = max (bounded_delay / 4) 1 in
    let deterministic_jitter = job.id % jitter_ceiling in
    min (bounded_delay + deterministic_jitter) settings.retry_max_seconds

-- `_retry_or_fail`: whether a retry was scheduled.
unfoldable pub retry_or_fail :
    WorkerSettings → ClaimedNativeJob → (worker_id reason_code : String) → (now : ℕ) → Session Bool
retry_or_fail settings job worker_id reason_code now =
    if leb job.max_attempts job.attempt_number
    then (fail_permanently job worker_id VersionState.failed "PROCESSING_RETRY_EXHAUSTED" [] now
        >> pure false)
    else (schedule_retry job worker_id reason_code (retry_delay settings job) now >> pure true)

pub power_of_two_positive : (n : ℕ) → 1 ≤ power_of_two n
unfolding power_of_two
power_of_two_positive zero = omega arith
power_of_two_positive (suc n) = omega (arith, power_of_two_positive n)

-- With settings that the configuration accepts, the delay of a retry is at least one second and at
-- most the maximum, and it is not shorter than the exponential delay, cut at the maximum.
pub retry_delay-bounds :
    (settings : WorkerSettings) (job : ClaimedNativeJob)
    → 1 ≤ settings.retry_base_seconds
    → settings.retry_base_seconds ≤ settings.retry_max_seconds
    → (1 ≤ retry_delay settings job)
      × (retry_delay settings job ≤ settings.retry_max_seconds)
      × (min
            (settings.retry_base_seconds * power_of_two (job.attempt_number - 1))
            settings.retry_max_seconds
          ≤ retry_delay settings job)
unfolding retry_delay
retry_delay-bounds settings job positive below =
    let p : ℕ = power_of_two (job.attempt_number - 1) in
    let at_least : 1 ≤ settings.retry_base_seconds * p =
      one-le-mul positive (power_of_two_positive (job.attempt_number - 1)) in
    let jitter : ℕ =
      job.id % max (min (settings.retry_base_seconds * p) settings.retry_max_seconds / 4) 1 in
    (omega arith, omega arith, omega arith)
