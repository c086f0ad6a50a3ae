-- ===== src/Ingestion/NativeJobs/Claimed.antt =====
-- app/services/ingestion/repository.py: what a claim that is granted says of the job.
use atlas_rag.Database.{TransitionEvent, JobAttempt, Actor}
use atlas_rag.Common.{
  Bool-cases, ◌≡◌, [], ◌∷◌, none, some, false, refl, Option, find, update_where, ℕ, List, String,
  ◌==◌, Option-cases, inl, arith, inr, Bool-cases, ◌+◌, ap, ◌∙◌, ◌<◌, leb, ◌≢◌,
}
use atlas_rag.Catalog.Versions.{update_version, write_version, matching, find_version, is_monotonic}
use atlas_rag.Ingestion.NativeJobs.{
  worker_transition, find_job, store_worker_transition, worker_snapshot, worker_change,
  update_attempts, update_job, ClaimedNativeJob, worker_moved,
}
use atlas_rag.Database.{IngestionJob, Uuid, DocumentVersion, Store, EventKey, TransitionEvent}
use atlas_rag.Catalog.Enums.{VersionState, ◌is◌, is_in}
use atlas_rag.Database.Session.{ServiceError, bind-eq-ok, lift, pure, ◌>>◌}
use atlas_rag.Common.Result.{ok, map_err}
use atlas_rag.Catalog.StateMachine.{PublicationEvidence, transition_version, Operation}
use atlas_rag.Catalog.Transitions.{transition_event, insert_event}
use atlas_rag.Ingestion.NativeJobs.Claim.{
  insert_attempt, begin_parsing, expire_attempt, take_job, NativeRow, claim_row, start_parsing,
  claimed, is_finished, held_by, stopped_states, lease_is_live, exhaust_job, native_row, claim,
  is_original_of,
}
use atlas_rag.Catalog.Transitions.Recorded.{insert_event-ok, lift-ok}

update_version-jobs :
    (tenant_id k : Uuid) (revision : ℕ) (change : DocumentVersion → DocumentVersion)
    (missing : ServiceError) (s s' : Store) (w : DocumentVersion)
    → update_version tenant_id k revision change missing s ≡ ok (w, s')
    → s'.jobs ≡ s.jobs
unfolding update_version write_version
update_version-jobs tenant_id k revision change missing s s' w h =
    elim (Option-cases (matching tenant_id revision (find_version k s.versions))) [
      | inl nothing ↦ ground arith
      | inr (row, found) ↦ elim (Bool-cases (is_monotonic row (change row))) [
        | inl up ↦ ground arith
        | inr down ↦ ground arith
      ]
    ]

-- No transition of a worker touches a job.
pub worker_transition-jobs :
    (row : DocumentVersion) (target : VersionState) (worker_id : String) (key : EventKey)
    (reason : Option String) (evidence : Option PublicationEvidence) (s s' : Store)
    (w : DocumentVersion)
    → worker_transition row target worker_id key reason evidence s ≡ ok (w, s')
    → s'.jobs ≡ s.jobs
unfolding worker_transition store_worker_transition
worker_transition-jobs row target worker_id key reason evidence s s' w h =
    let (t, s1, moved, stored) =
      bind-eq-ok
        (lift (
          map_err ServiceError.transition
            (transition_version (worker_snapshot row) (worker_change row target reason evidence))))
        (store_worker_transition row target worker_id key reason) s h in
    let e : TransitionEvent =
      transition_event row.tenant_id row (record t { state = target }) Operation.advance key
        (Actor.worker worker_id) in
    let (u, s2, updated, rest) =
      bind-eq-ok
        (update_version row.tenant_id row.id row.state_revision (worker_moved t reason)
          ServiceError.no_row)
        (λ u. insert_event e >> pure u) s1 stored in
    let (x, s3, inserted, returned) = bind-eq-ok (insert_event e) (λ _. pure u) s2 rest in
    let last : s' ≡ s3 = cc in
    ap (λ (a : Store). a.jobs) last
    ∙ ap (λ (a : Store). a.jobs) (insert_event-ok e s2 s3 x inserted)
    ∙ update_version-jobs row.tenant_id row.id row.state_revision _ ServiceError.no_row s1 s2 u
        updated
    ∙ ap (λ (a : Store). a.jobs) (lift-ok _ s s1 t moved).1

-- A job seen through an update of its row.
abbrev pub updated_job : (IngestionJob → IngestionJob) → Option IngestionJob → Option IngestionJob
updated_job f none = none
updated_job f (some j) = some (f j)

pub find_job-update :
    (k : Uuid) (f : IngestionJob → IngestionJob) (jobs : List IngestionJob)
    → ((j : IngestionJob) → (f j).id ≡ j.id)
    → find_job k (update_where (λ j. j.id == k) f jobs) ≡ updated_job f (find_job k jobs)
unfolding find_job find update_where
find_job-update k f [] same = refl
find_job-update k f (j ∷ jobs) same = ground (arith, same j, find_job-update k f jobs same)

insert_attempt-jobs :
    (new : JobAttempt) (s s' : Store) (u : Unit {0})
    → insert_attempt new s ≡ ok (u, s')
    → s'.jobs ≡ s.jobs
unfolding insert_attempt
insert_attempt-jobs new s s' u h = ground arith

begin_parsing-jobs :
    (row : NativeRow) (worker_id : String) (n : ℕ) (s s' : Store) (u : Unit {0})
    → begin_parsing row worker_id n s ≡ ok (u, s')
    → s'.jobs ≡ s.jobs
unfolding begin_parsing start_parsing
begin_parsing-jobs row worker_id n s s' u h =
    elim (Bool-cases (row.version.state is VersionState.queued)) [
      | inl waiting ↦
          let (w, s1, moved, rest) =
            bind-eq-ok
              (worker_transition row.version VersionState.parsing worker_id
                (EventKey.worker_parsing row.job.id n) none none)
              (λ _. pure tt) s (rw waiting at h) in
          let last : s' ≡ s1 = cc in
          ap (λ (a : Store). a.jobs) last
          ∙ worker_transition-jobs row.version VersionState.parsing worker_id _ none none s s1 w
              moved
      | inr later ↦ ground arith
    ]

expire_attempt-jobs :
    (now : ℕ) (j : IngestionJob) (s : Store) → (expire_attempt now j s).jobs ≡ s.jobs
unfolding expire_attempt update_attempts
expire_attempt-jobs now j s = ground arith

-- The job after it was taken.
take_job-jobs :
    (row : NativeRow) (worker_id : String) (now d : ℕ) (s s' : Store) (c : ClaimedNativeJob)
    → take_job row worker_id now d s ≡ ok (some c, s')
    → (c ≡ claimed row (row.job.attempt_count + 1))
      × (s'.jobs
          ≡ update_where
              (λ j. j.id == row.job.id)
              (held_by worker_id (row.job.attempt_count + 1) (now + d))
              s.jobs)
unfolding take_job update_job
take_job-jobs row worker_id now d s s' c h =
    let n : ℕ = row.job.attempt_count + 1 in
    let f : IngestionJob → IngestionJob = held_by worker_id n (now + d) in
    let s1 : Store = update_job row.job.id f (expire_attempt now row.job s) in
    let (u, s2, inserted, rest) =
      bind-eq-ok (insert_attempt _)
        (λ _. begin_parsing row worker_id n >> pure (some (claimed row n))) s1 h in
    let (x, s3, begun, returned) =
      bind-eq-ok (begin_parsing row worker_id n) (λ _. pure (some (claimed row n))) s2 rest in
    let last : s' ≡ s3 = cc in
    let same : c ≡ claimed row n = cc in
    (
      same,
      ap (λ (a : Store). a.jobs) last
          ∙ begin_parsing-jobs row worker_id n s2 s3 x begun
          ∙ insert_attempt-jobs _ s1 s2 u inserted
          ∙ ap (update_where (λ j. j.id == row.job.id) f) (expire_attempt-jobs now row.job s),
    )

-- What a granted claim says of the row that it read.
pub record IsGranted (row : NativeRow) (worker_id : String) (now d : ℕ) (c : ClaimedNativeJob)
    (s s' : Store) : Type 0 where
  pub unfinished : is_finished row.job.state ≡ false
  pub going_on : is_in row.version.state stopped_states ≡ false
  pub lease_over : lease_is_live now row.job ≡ false
  pub attempts_left : row.job.attempt_count < row.job.max_attempts
  pub is_claim : c ≡ claimed row (row.job.attempt_count + 1)
  pub jobs :
      s'.jobs
      ≡ update_where
          (λ j. j.id == row.job.id)
          (held_by worker_id (row.job.attempt_count + 1) (now + d))
          s.jobs

exhausted-none :
    (row : NativeRow) (worker_id : String) (s s' : Store) (c : ClaimedNativeJob)
    → (exhaust_job row worker_id >> pure {A = Option ClaimedNativeJob} none) s ≢ ok (some c, s')
exhausted-none row worker_id s s' c h =
    let (u, s1, exhausted, returned) =
      bind-eq-ok (exhaust_job row worker_id) (λ _. pure {A = Option ClaimedNativeJob} none) s h in
    cc

pub claim_row-IsGranted :
    (row : NativeRow) (worker_id : String) (now d : ℕ) (s s' : Store) (c : ClaimedNativeJob)
    → claim_row row worker_id now d s ≡ ok (some c, s')
    → IsGranted row worker_id now d c s s'
unfolding claim_row
claim_row-IsGranted row worker_id now d s s' c h = elim (Bool-cases (is_finished row.job.state)) [
  | inl finished ↦ absurd (ground arith)
  | inr unfinished ↦ elim (Bool-cases (is_in row.version.state stopped_states)) [
    | inl stopped ↦ absurd (ground arith)
    | inr going_on ↦ elim (Bool-cases (lease_is_live now row.job)) [
      | inl live ↦ absurd (ground arith)
      | inr over ↦ elim (Bool-cases (leb row.job.max_attempts row.job.attempt_count)) [
        | inl spent ↦
            absurd
              (exhausted-none row worker_id s s' c (rw (unfinished, going_on, over, spent) at h))
        | inr left ↦
            let (same, jobs) =
              take_job-jobs row worker_id now d s s' c
                (rw (unfinished, going_on, over, left) at h) in
            record {
              unfinished = unfinished;
              going_on = going_on;
              lease_over = over;
              attempts_left = ground arith;
              is_claim = same;
              jobs = jobs;
            }
      ]
    ]
  ]
]

native_row-job :
    (t v k : Uuid) (s : Store) (row : NativeRow)
    → native_row t v k s ≡ some row
    → (find_job k s.jobs ≡ some row.job) × (row.job.tenant_id ≡ t)
unfolding native_row
native_row-job t v k s row h = elim (Option-cases (find_job k s.jobs)) [
  | inl nothing ↦ absurd (ground arith)
  | inr (j, found) ↦ elim (Option-cases (find_version j.document_version_id s.versions)) [
    | inl no_version ↦ absurd (ground arith)
    | inr (x, present) ↦ elim (Option-cases (find (is_original_of x) s.artifacts)) [
      | inl no_original ↦ absurd (ground arith)
      | inr (a, original) ↦ ground arith
    ]
  ]
]

pub find_job-id :
    (k : Uuid) (jobs : List IngestionJob) (j : IngestionJob) → find_job k jobs ≡ some j → j.id ≡ k
unfolding find_job find
find_job-id k [] j h = cc
find_job-id k (x ∷ jobs) j h = ground (arith, find_job-id k jobs j)

pub update_where-found :
    (jobs jobs' : List IngestionJob) (k i : Uuid) (f : IngestionJob → IngestionJob)
    (j : IngestionJob)
    → ((x : IngestionJob) → (f x).id ≡ x.id)
    → jobs' ≡ update_where (λ x. x.id == i) f jobs
    → i ≡ k
    → find_job k jobs ≡ some j
    → find_job k jobs' ≡ some (f j)
update_where-found jobs jobs' k i f j same e id found =
    rw (e, id, find_job-update k f jobs same, found) refl

held_by-id :
    (worker_id : String) (n expires : ℕ) (j : IngestionJob)
    → (held_by worker_id n expires j).id ≡ j.id
unfolding held_by
held_by-id worker_id n expires j = refl

-- A claim that is granted, with the job before and after.
pub claim-IsGranted :
    (t v k : Uuid) (worker_id : String) (now d : ℕ) (s s' : Store) (c : ClaimedNativeJob)
    → claim t v k worker_id now d s ≡ ok (some c, s')
    → (row : NativeRow) × (find_job k s.jobs ≡ some row.job)
      × IsGranted row worker_id now d c s s'
      × (find_job k s'.jobs
          ≡ some (held_by worker_id (row.job.attempt_count + 1) (now + d) row.job))
unfolding claim
claim-IsGranted t v k worker_id now d s s' c h = elim (Option-cases (native_row t v k s)) [
  | inl nothing ↦ absurd (ground arith)
  | inr (row, found) ↦
      let granted = claim_row-IsGranted row worker_id now d s s' c (rw found at h) in
      let (job, owner) = native_row-job t v k s row found in
      let id : row.job.id ≡ k = find_job-id k s.jobs row.job job in
      let n : ℕ = row.job.attempt_count + 1 in
      (
        row,
        job,
        granted,
        update_where-found s.jobs s'.jobs k row.job.id (held_by worker_id n (now + d)) row.job
            (held_by-id worker_id n (now + d)) granted.jobs id job,
      )
]
