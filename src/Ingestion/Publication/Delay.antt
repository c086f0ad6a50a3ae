-- ===== src/Ingestion/Publication/Delay.antt =====
-- app/services/ingestion/publication_retry.py: when a publication is repeated.
use native.Mathlib.Nat.{one-le-mul, mul-le-mul_left}
use atlas_rag.Ingestion.Retry.{WorkerSettings, power_of_two, power_of_two_positive}
use atlas_rag.Ingestion.Publication.{ClaimedPublicationJob}
use atlas_rag.Common.{
  zero, suc, ℕ, String, ◌*◌, ◌-◌, Bool, min, if◌then◌else◌, leb, [], false, true, ◌≤◌, arith,
}
use atlas_rag.Database.Session.{Session, ◌>>◌, pure}
use atlas_rag.Ingestion.NativeJobs.Finish.{fail_permanently, schedule_retry}
use atlas_rag.Catalog.Enums.{VersionState}

-- `retry_delay`
unfoldable pub publication_retry_delay : WorkerSettings → ClaimedPublicationJob → ℕ
publication_retry_delay settings job =
    let delay = settings.retry_base_seconds * power_of_two (job.native.attempt_number - 1) in
    min delay settings.retry_max_seconds

-- `retry_or_fail`: whether a retry was scheduled.
unfoldable pub publication_retry_or_fail :
    WorkerSettings → ClaimedPublicationJob → (worker_id : String) → (now : ℕ) → Session Bool
publication_retry_or_fail settings job worker_id now =
    if leb job.native.max_attempts job.native.attempt_number
    then (fail_permanently job.native worker_id VersionState.failed "PROCESSING_RETRY_EXHAUSTED" []
          now
        >> pure false)
    else (schedule_retry job.native worker_id "PUBLICATION_DEPENDENCY_UNAVAILABLE"
          (publication_retry_delay settings job) now
        >> pure true)

power_of_two_monotone : (m n : ℕ) → m ≤ n → power_of_two m ≤ power_of_two n
unfolding power_of_two
power_of_two_monotone zero zero h = omega arith
power_of_two_monotone zero (suc n) h = omega (arith, power_of_two_monotone zero n (omega arith))
power_of_two_monotone (suc m) zero h = absurd (omega arith)
power_of_two_monotone (suc m) (suc n) h = omega (arith, power_of_two_monotone m n (omega arith))

-- With settings that the configuration accepts, the delay of a publication is at least a second and
-- at most the maximum, and no later attempt waits less.
pub publication_retry_delay-bounds :
    (settings : WorkerSettings) (job later : ClaimedPublicationJob)
    → 1 ≤ settings.retry_base_seconds
    → settings.retry_base_seconds ≤ settings.retry_max_seconds
    → job.native.attempt_number ≤ later.native.attempt_number
    → (1 ≤ publication_retry_delay settings job)
      × (publication_retry_delay settings job ≤ settings.retry_max_seconds)
      × (publication_retry_delay settings job ≤ publication_retry_delay settings later)
unfolding publication_retry_delay
publication_retry_delay-bounds settings job later positive below after =
    let m : ℕ = job.native.attempt_number - 1 in
    let n : ℕ = later.native.attempt_number - 1 in
    let least : 1 ≤ settings.retry_base_seconds * power_of_two m =
      one-le-mul positive (power_of_two_positive m) in
    let grows : settings.retry_base_seconds * power_of_two m
        ≤ settings.retry_base_seconds * power_of_two n =
      mul-le-mul_left settings.retry_base_seconds (power_of_two_monotone m n (omega arith)) in
    (omega arith, omega arith, omega arith)
