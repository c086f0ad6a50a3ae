-- ===== src/Ingestion/NativeJobs/Fence.antt =====
-- app/services/ingestion/repository.py: the fence, which decides who may end an attempt.
use text.Mathlib.TextEquality.{eq_iff}
use atlas_rag.Common.{
  ◌≡◌, none, some, false, true, refl, ◌≢◌, ℕ, String, List, Option-cases, inl, arith, inr,
  update_where, ◌==◌, ◌+◌, ◌<◌, suc, lt→ltb, ◌≤◌, ◌∙◌, ==_self,
}
use atlas_rag.Ingestion.NativeJobs.{
  DocumentRoute, ClaimedNativeJob, PublishedArtifact, find_job, finish_attempt, update_attempts,
  update_job, worker_transition, NextStageJob,
}
use atlas_rag.Ingestion.NativeJobs.Finish.{
  locked_job_version, succeed, locked_row, fail_permanently, schedule_retry, owns_attempt,
  store_success, store_failure, close_retry, is_running, close_success, close_failure, end_job,
  finish_lifecycle_request, insert_artifacts, next_stage, create_next_job, set_page_count,
  advance_route,
}
use atlas_rag.Database.Session.{Session, ◌>>=◌, ◌>>◌, pure, bind-eq-ok, modify}
use atlas_rag.Database.{Store, Uuid, IngestionJob, DocumentVersion, EventKey}
use atlas_rag.Common.Result.{ok}
use atlas_rag.Catalog.Enums.{VersionState, JobState}
use atlas_rag.Catalog.Versions.{find_version}
use atlas_rag.Ingestion.NativeJobs.Claimed.{find_job-update, update_where-found, claim-IsGranted}
use atlas_rag.Ingestion.NativeJobs.Claim.{claim, held_by, claimed, lease_is_live, is_held}

-- The three ways in which an attempt ends.
pub data Ending : Type 0 where
  success :
      DocumentRoute
      → (page_count : ℕ) → List (Uuid × PublishedArtifact)
      → (max_attempts : ℕ) → (next_job_id : Uuid) → Ending
  failure : VersionState → (reason_code : String) → List (Uuid × PublishedArtifact) → Ending
  retry : (reason_code : String) → (delay_seconds : ℕ) → Ending

-- `succeed`, `fail_permanently` or `schedule_retry`
unfoldable pub end_attempt :
    Ending → ClaimedNativeJob → (worker_id : String) → (now : ℕ) → Session (Unit {0})
end_attempt (Ending.success route page_count artifacts max_attempts next_job_id) job worker_id now =
    do next ← succeed job worker_id route page_count artifacts max_attempts next_job_id now; pure tt
end_attempt (Ending.failure state reason_code artifacts) job worker_id now =
    fail_permanently job worker_id state reason_code artifacts now
end_attempt (Ending.retry reason_code delay_seconds) job worker_id now =
    schedule_retry job worker_id reason_code delay_seconds now

-- What the fence lets pass.
unfoldable pub Holds : ClaimedNativeJob → String → Store → Type 0
Holds job worker_id s =
    (j : IngestionJob) × (find_job job.id s.jobs ≡ some j) × (owns_attempt job worker_id j ≡ true)

locked_job_version-Holds :
    (job : ClaimedNativeJob) (worker_id : String) (s s' : Store) (v : DocumentVersion)
    → locked_job_version job worker_id s ≡ ok (v, s')
    → Holds job worker_id s × (s' ≡ s)
unfolding locked_job_version locked_row Holds
locked_job_version-Holds job worker_id s s' v h = elim (Option-cases (find_job job.id s.jobs)) [
  | inl nothing ↦ absurd (ground arith)
  | inr (j, found) ↦ elim (Option-cases (find_version job.document_version_id s.versions)) [
    | inl no_version ↦ absurd (ground arith)
    | inr (x, present) ↦ ((j, found, ground arith), ground arith)
  ]
]

-- An attempt is ended only by a worker that holds it: the job runs, in the worker's name, at the
-- number of the claim.
pub end_attempt-Holds :
    (e : Ending) (job : ClaimedNativeJob) (worker_id : String) (now : ℕ) (s s' : Store)
    → end_attempt e job worker_id now s ≡ ok (tt, s')
    → Holds job worker_id s
unfolding end_attempt succeed fail_permanently schedule_retry
end_attempt-Holds (Ending.success route pages artifacts n next) job worker_id now s s' h =
    let (r, s1, ended, rest) =
      bind-eq-ok (succeed job worker_id route pages artifacts n next now) (λ _. pure tt) s h in
    let (v, s2, locked, stored) =
      bind-eq-ok (locked_job_version job worker_id)
        (store_success job worker_id route pages artifacts n next now) s ended in
    (locked_job_version-Holds job worker_id s s2 v locked).0
end_attempt-Holds (Ending.failure state reason artifacts) job worker_id now s s' h =
    let (v, s2, locked, stored) =
      bind-eq-ok (locked_job_version job worker_id)
        (store_failure job worker_id state reason artifacts now) s h in
    (locked_job_version-Holds job worker_id s s2 v locked).0
end_attempt-Holds (Ending.retry reason delay) job worker_id now s s' h =
    let (v, s2, locked, stored) =
      bind-eq-ok (locked_job_version job worker_id) (λ _. modify (close_retry job reason delay now))
        s h in
    (locked_job_version-Holds job worker_id s s2 v locked).0

-- The job of an attempt that was ended does not run.
unfoldable pub HasStopped : Uuid → Store → Type 0
HasStopped k s = (j : IngestionJob) → find_job k s.jobs ≡ some j → is_running j.state ≡ false

pub update_job-HasStopped :
    (k : Uuid) (f : IngestionJob → IngestionJob) (s s' : Store)
    → ((j : IngestionJob) → (f j).id ≡ j.id)
    → ((j : IngestionJob) → is_running (f j).state ≡ false)
    → s'.jobs ≡ update_where (λ j. j.id == k) f s.jobs
    → HasStopped k s'
unfolding HasStopped
update_job-HasStopped k f s s' same stopped e j h = elim (Option-cases (find_job k s.jobs)) [
  | inl nothing ↦
      let none_after : find_job k s'.jobs ≡ none =
        rw (e, find_job-update k f s.jobs same, nothing) refl in
      absurd (cc)
  | inr (x, found) ↦
      let is_image : j ≡ f x = cc (update_where-found s.jobs s'.jobs k k f x same e refl found) in
      rw is_image (stopped x)
]

jobs_of : {A : Type 0} (a b : A) (s s' : Store) → pure a s ≡ ok (b, s') → s'.jobs ≡ s.jobs
jobs_of a b s s' h = cc

pub end_attempt-HasStopped :
    (e : Ending) (job : ClaimedNativeJob) (worker_id : String) (now : ℕ) (s s' : Store)
    → end_attempt e job worker_id now s ≡ ok (tt, s')
    → HasStopped job.id s'
unfolding end_attempt succeed store_success fail_permanently store_failure schedule_retry
    close_success close_failure close_retry finish_attempt update_attempts update_job end_job
    finish_lifecycle_request
end_attempt-HasStopped (Ending.success route pages artifacts n next) job worker_id now s s' h =
    let done : NextStageJob → Session (Unit {0}) = λ _. pure tt in
    let (r, s1, ended, last) =
      bind-eq-ok (succeed job worker_id route pages artifacts n next now) done s h in
    let (v, s2, locked, stored) =
      bind-eq-ok (locked_job_version job worker_id)
        (store_success job worker_id route pages artifacts n next now) s ended in
    let close : Uuid → Session NextStageJob = λ created.
      modify (close_success job now) >> pure (record { id = created; stage = next_stage route }) in
    let create : DocumentVersion → Session NextStageJob =
      λ _. create_next_job job (next_stage route) n next >>= close in
    let (u, s3, inserted, advancing) =
      bind-eq-ok (insert_artifacts job artifacts)
        (λ _. modify (set_page_count job pages) >> (advance_route job worker_id route v >>= create))
        s2 stored in
    let (w, s4, moved, creating) =
      bind-eq-ok (advance_route job worker_id route v) create (set_page_count job pages s3)
        advancing in
    let (k, s5, created, closing) =
      bind-eq-ok (create_next_job job (next_stage route) n next) close s4 creating in
    update_job-HasStopped job.id (λ j. end_job JobState.succeeded j.terminal_reason_code j) s5 s'
      (λ _. refl) (λ _. refl)
      (jobs_of tt tt s1 s' last
        ∙ jobs_of (record { id = k; stage = next_stage route }) r (close_success job now s5) s1
            closing)
end_attempt-HasStopped (Ending.failure state reason artifacts) job worker_id now s s' h =
    let (v, s1, locked, stored) =
      bind-eq-ok (locked_job_version job worker_id)
        (store_failure job worker_id state reason artifacts now) s h in
    let (u, s2, inserted, rest) =
      bind-eq-ok (insert_artifacts job artifacts)
        (λ _.
          worker_transition v state worker_id (EventKey.worker_terminal job.id reason) (some reason)
            none
          >>= λ _. modify (close_failure job state reason now))
        s1 stored in
    let (w, s3, moved, last) =
      bind-eq-ok
        (worker_transition v state worker_id (EventKey.worker_terminal job.id reason) (some reason)
          none)
        (λ _. modify (close_failure job state reason now)) s2 rest in
    update_job-HasStopped job.id (end_job JobState.failed (some reason)) s3 s' (λ _. refl)
      (λ _. refl) (jobs_of tt tt (close_failure job state reason now s3) s' last)
end_attempt-HasStopped (Ending.retry reason delay) job worker_id now s s' h =
    let (v, s1, locked, stored) =
      bind-eq-ok (locked_job_version job worker_id) (λ _. modify (close_retry job reason delay now))
        s h in
    update_job-HasStopped job.id
      (λ j. record (end_job JobState.retry_scheduled (some reason) j) {
        retry_at = some (now + delay);
      })
      s1 s' (λ _. refl) (λ _. refl) (jobs_of tt tt (close_retry job reason delay now s1) s' stored)

stopped_is_not_held :
    (job : ClaimedNativeJob) (worker_id : String) (s : Store)
    → HasStopped job.id s
    → ¬ Holds job worker_id s
unfolding HasStopped Holds owns_attempt
stopped_is_not_held job worker_id s stopped (j, found, owns) =
    let at_rest : is_running j.state ≡ false = stopped j found in ground arith

-- An attempt is ended at most once: in the store that a success, a permanent failure or a scheduled
-- retry leaves, no claim of that job, by whatever worker, stores another end.
pub end_attempt_once :
    (e e' : Ending) (job job' : ClaimedNativeJob) (worker_id worker_id' : String) (now now' : ℕ)
    (s s' s'' : Store)
    → job'.id ≡ job.id
    → end_attempt e job worker_id now s ≡ ok (tt, s')
    → end_attempt e' job' worker_id' now' s' ≢ ok (tt, s'')
end_attempt_once e e' job job' worker_id worker_id' now now' s s' s'' same ended again =
    stopped_is_not_held job' worker_id' s'
      (rw same (end_attempt-HasStopped e job worker_id now s s' ended))
      (end_attempt-Holds e' job' worker_id' now' s' s'' again)

-- A granted claim fences the job: in the store that it leaves no claim of another attempt of the
-- job, by whatever worker and at whatever time, stores an end.
pub claim_fences :
    (t v k : Uuid) (worker_id : String) (now d : ℕ) (s s' : Store) (c : ClaimedNativeJob)
    (e : Ending) (job : ClaimedNativeJob) (worker_id' : String) (now' : ℕ) (s'' : Store)
    → claim t v k worker_id now d s ≡ ok (some c, s')
    → job.id ≡ k
    → job.attempt_number ≢ c.attempt_number
    → end_attempt e job worker_id' now' s' ≢ ok (tt, s'')
unfolding Holds owns_attempt held_by claimed
claim_fences t v k worker_id now d s s' c e job worker_id' now' s'' claimed_job same other ended =
    let (row, before, granted, after) = claim-IsGranted t v k worker_id now d s s' c claimed_job in
    let (j, found, owns) = end_attempt-Holds e job worker_id' now' s' s'' ended in
    let found' : find_job k s'.jobs ≡ some j = rw same at found in
    let is_j : j ≡ held_by worker_id (row.job.attempt_count + 1) (now + d) row.job = cc in
    let count : j.attempt_count ≡ row.job.attempt_count + 1 = rw is_j refl in
    let number : c.attempt_number ≡ row.job.attempt_count + 1 = rw granted.is_claim refl in
    ground arith

-- A lease is exclusive: in the store that a granted claim leaves, no claim of the job is granted
-- before the lease runs out.
pub claim_excludes :
    (t v k : Uuid) (worker_id : String) (now d : ℕ) (s s' : Store) (c : ClaimedNativeJob)
    (t' v' : Uuid) (worker_id' : String) (now' d' : ℕ) (s'' : Store) (c' : ClaimedNativeJob)
    → claim t v k worker_id now d s ≡ ok (some c, s')
    → now' < now + d
    → claim t' v' k worker_id' now' d' s' ≢ ok (some c', s'')
unfolding held_by lease_is_live is_held
claim_excludes t v k worker_id now d s s' c t' v' worker_id' now' d' s'' c' first early second =
    let (row, before, granted, after) = claim-IsGranted t v k worker_id now d s s' c first in
    let (row', before', granted', after') =
      claim-IsGranted t' v' k worker_id' now' d' s' s'' c' second in
    let is_held_row : row'.job ≡ held_by worker_id (row.job.attempt_count + 1) (now + d) row.job =
      cc in
    let live : lease_is_live now' row'.job ≡ true = rw is_held_row (lt→ltb now' (now + d) early) in
    let over : lease_is_live now' row'.job ≡ false = granted'.lease_over in cc

-- A granted claim is the next attempt of the job and never one too many: its number is one above
-- the count that was stored, it is the count that is stored now, and it is at most the maximum.
pub claim_counts :
    (t v k : Uuid) (worker_id : String) (now d : ℕ) (s s' : Store) (c : ClaimedNativeJob)
    → claim t v k worker_id now d s ≡ ok (some c, s')
    → (before after : IngestionJob) × (find_job k s.jobs ≡ some before)
      × (find_job k s'.jobs ≡ some after)
      × (c.attempt_number ≡ suc before.attempt_count)
      × (after.attempt_count ≡ c.attempt_number)
      × (c.attempt_number ≤ c.max_attempts)
      × (owns_attempt c worker_id after ≡ true)
unfolding held_by claimed owns_attempt
claim_counts t v k worker_id now d s s' c h =
    let (row, before, granted, after) = claim-IsGranted t v k worker_id now d s s' c h in
    let number : c.attempt_number ≡ row.job.attempt_count + 1 = rw granted.is_claim refl in
    let most : c.max_attempts ≡ row.job.max_attempts = rw granted.is_claim refl in
    let left = granted.attempts_left in
    (
      row.job,
      held_by worker_id (row.job.attempt_count + 1) (now + d) row.job,
      before,
      after,
      omega arith,
      omega arith,
      omega arith,
      rw ((eq_iff worker_id worker_id).1 refl, number) (==_self (row.job.attempt_count + 1)),
    )
