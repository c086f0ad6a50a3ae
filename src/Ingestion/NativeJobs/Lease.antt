-- ===== src/Ingestion/NativeJobs/Lease.antt =====
-- app/services/ingestion/repository.py: what the claims and the ends of attempts promise of a job,
-- as an automaton with a lease, and that the code implements it.
use text.Mathlib.TextEquality.{eq_iff}
use atlas_rag.Ingestion.NativeJobs.Fence.{
  Ending, end_attempt, end_attempt-Holds, Holds, HasStopped, end_attempt-HasStopped,
}
use atlas_rag.Common.{
  Option, String, ℕ, if◌then◌else◌, some, ◌≡◌, ◌+◌, false, true, none, Bool-cases, ap, refl, inl,
  arith, inr, ==_iff,
}
use atlas_rag.Database.{IngestionJob, Uuid, Store}
use atlas_rag.Ingestion.NativeJobs.Claim.{lease_is_live, held_by, is_held, claimed, is_after, claim}
use atlas_rag.Ingestion.NativeJobs.Finish.{is_owner, is_running, owns_attempt}
use atlas_rag.Ingestion.NativeJobs.{find_job, ClaimedNativeJob}
use atlas_rag.Common.Result.{ok}
use atlas_rag.Ingestion.NativeJobs.Claimed.{claim-IsGranted}

-- Who may work at a job: nobody, or one worker, at an attempt, for a time.
pub data Lease : Type 0 where
  free : Lease
  held : (owner : Option String) (attempt : ℕ) (until : Option ℕ) → Lease

pub data LeaseAction : Type 0 where
  claims : (worker_id : String) (now lease_duration attempt : ℕ) → LeaseAction
  ends : (worker_id : String) (attempt : ℕ) → LeaseAction

-- A free job is given to the worker that claims it. One that is held is taken over only when the
-- time has run out, at the next attempt. Only its holder ends it, at the attempt that it holds.
pub data LeaseStep : LeaseAction → Lease → Lease → Type 0 where
  grants :
      (w : String) (now d n : ℕ)
      → LeaseStep (claims w now d n) free (held (some w) n (some (now + d)))
  takes_over :
      (w : String) (now d n : ℕ) (owner : Option String) (until : Option ℕ)
      → is_after until now ≡ false
      → LeaseStep
          (claims w now d (n + 1))
          (held owner n until)
          (held (some w) (n + 1) (some (now + d)))
  releases :
      (w : String) (n : ℕ) (until : Option ℕ) → LeaseStep (ends w n) (held (some w) n until) free

-- The lease that a row stands for.
abbrev pub lease_of_job : IngestionJob → Lease
lease_of_job j =
    if is_running j.state then held j.lease_owner j.attempt_count j.lease_expires_at else free

abbrev pub lease_of_row : Option IngestionJob → Lease
lease_of_row none = free
lease_of_row (some j) = lease_of_job j

unfoldable pub lease_of : Uuid → Store → Lease
lease_of k s = lease_of_row (find_job k s.jobs)

-- What a worker does to a job, in the code.
pub data WorkerStep (k : Uuid) : LeaseAction → Store → Store → Type 0 where
  claimed_by :
      (t v : Uuid) (w : String) (now d : ℕ) (s s' : Store) (c : ClaimedNativeJob)
      → claim t v k w now d s ≡ ok (some c, s')
      → WorkerStep k (claims w now d c.attempt_number) s s'
  ended_by :
      (e : Ending) (job : ClaimedNativeJob) (w : String) (now : ℕ) (s s' : Store)
      → job.id ≡ k
      → end_attempt e job w now s ≡ ok (tt, s')
      → WorkerStep k (ends w job.attempt_number) s s'

take-LeaseStep :
    (j : IngestionJob) (w : String) (now d : ℕ)
    → lease_is_live now j ≡ false
    → LeaseStep
        (claims w now d (j.attempt_count + 1))
        (lease_of_job j)
        (held (some w) (j.attempt_count + 1) (some (now + d)))
unfolding lease_is_live is_held
take-LeaseStep j w now d over = elim (Bool-cases (is_running j.state)) [
  | inl running ↦
      let past : is_after j.lease_expires_at now ≡ false = ground arith in
      rw running (takes_over w now d j.attempt_count j.lease_owner j.lease_expires_at past)
  | inr resting ↦ rw resting (grants w now d (j.attempt_count + 1))
]

owner-eq : (w : String) (owner : Option String) → is_owner w owner ≡ true → owner ≡ some w
owner-eq w none h = absurd (cc)
owner-eq w (some owner) h = ap some ((eq_iff owner w).0 h)

stopped-free :
    (o : Option IngestionJob)
    → ((j : IngestionJob) → o ≡ some j → is_running j.state ≡ false)
    → lease_of_row o ≡ free
stopped-free none h = refl
stopped-free (some j) h = rw (h j refl) refl

-- The code implements the automaton: whatever a claim that is granted or the end of an attempt does
-- to the tables, the lease of the job makes the step that the automaton allows.
pub WorkerStep-LeaseStep :
    {k : Uuid} {a : LeaseAction} {s s' : Store}
    → WorkerStep k a s s'
    → LeaseStep a (lease_of k s) (lease_of k s')
unfolding lease_of held_by claimed Holds HasStopped owns_attempt
WorkerStep-LeaseStep {k} (claimed_by t v w now d s s' c h) =
    let (row, before, granted, after) = claim-IsGranted t v k w now d s s' c h in
    let number : c.attempt_number ≡ row.job.attempt_count + 1 = rw granted.is_claim refl in
    rw (before, after, number) (take-LeaseStep row.job w now d granted.lease_over)
WorkerStep-LeaseStep {k} (ended_by e job w now s s' same h) =
    let (j, found, owns) = end_attempt-Holds e job w now s s' h in
    let stopped = end_attempt-HasStopped e job w now s s' h in
    let running : is_running j.state ≡ true = ground arith in
    let owner : j.lease_owner ≡ some w = owner-eq w j.lease_owner (ground arith) in
    let count : j.attempt_count ≡ job.attempt_number = (==_iff _ _).0 (ground arith) in
    rw (← same, found, stopped-free (find_job job.id s'.jobs) stopped, running, owner, count)
      (releases w job.attempt_number j.lease_expires_at)
