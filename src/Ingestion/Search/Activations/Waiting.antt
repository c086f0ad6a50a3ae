-- ===== src/Ingestion/Search/Activations/Waiting.antt =====
-- app/services/ingestion/search_recovery.py with publication_repository.py: a new version waits for
-- the deletion of the records that it replaces.
use atlas_rag.Common.{
  ℕ, group_by, Bool, any, List, Option, String, ◌∷◌, ◌≡◌, All, Bool-cases, false, same_option, suc,
  some, true, inl, Option-cases, inr, arith, map, filter, [], any-take, refl, any-filter_of,
  any-implies, any-group_by, any-filter,
}
use atlas_rag.Common.Result.{Result, ok, err}
use atlas_rag.Ingestion.Publication.Activation.{
  check_source_rows, active_source, check_source_groups, first_error, unless_conflict,
  check_source_group, source_version, activate, is_ready_state,
}
use atlas_rag.Database.{Uuid, IndexPublication, Store, SearchCleanup, SearchTarget}
use atlas_rag.Ingestion.Search.{
  insert_cleanup, enqueue_cleanups, new_cleanup, is_cleanup_of, SearchTargetPublication,
  is_deleted_cleanup, same_id,
}
use atlas_rag.Ingestion.Search.Enqueued.{is_entry_of}
use atlas_rag.Ingestion.NativeJobs.{ClaimedNativeJob}
use atlas_rag.Ingestion.Search.Activations.{
  is_pending_row, insert_ordered, ordered, pending_activations, pending_activation,
  blocks_activation, is_before, is_published_whole, same_activation,
}
use atlas_rag.Ingestion.Publication.{ClaimedPublicationJob}
use atlas_rag.Database.Session.{ServiceError}
use atlas_rag.Ingestion.Publication.Artifacts.{is_of_job, is_original_run}
use atlas_rag.Catalog.Transitions.Audit.{IsAudited}
use atlas_rag.Ingestion.Publication.Index.{same_group}
use atlas_rag.Ingestion.Publication.Activation.Revoked.{HasForeignKeys}
use atlas_rag.Ingestion.Publication.Activation.Activated.{activate-IsActivated}

group_by-nonempty :
    (same : IndexPublication → IndexPublication → Bool) (p : IndexPublication)
    (rows : List IndexPublication)
    → (g : IndexPublication) × (gs : List IndexPublication) × (group_by same (p ∷ rows) ≡ g ∷ gs)
unfolding group_by any
group_by-nonempty same p [] = (p, [], refl)
group_by-nonempty same p (q ∷ rows) =
    let (g, gs, e) = group_by-nonempty same q rows in
    elim (Bool-cases (any (same p) (group_by same (q ∷ rows)))) [
      | inl listed ↦ (g, gs, rw listed e)
      | inr new ↦ (p, group_by same (q ∷ rows), rw new refl)
    ]

first_error-some :
    {A : Type 0} (r : Result ServiceError A) (rest : Result ServiceError (List A)) (all : List A)
    → first_error r rest ≡ ok all
    → (a : A) × (others : List A) × (all ≡ a ∷ others)
first_error-some (err e) rest all h = absurd (cc)
first_error-some (ok a) (err e) all h = absurd (cc)
first_error-some (ok a) (ok others) all h = (a, others, cc)

unless_conflict-ok :
    (b : Bool) (r : Result ServiceError (List SearchTargetPublication))
    (targets : List SearchTargetPublication)
    → unless_conflict b r ≡ ok targets
    → r ≡ ok targets
unless_conflict-ok b (err e) targets h = absurd (cc)
unless_conflict-ok true (ok x) targets h = absurd (cc)
unless_conflict-ok false (ok x) targets h = h

check_source_rows-some :
    (rows : List IndexPublication) (targets : List SearchTargetPublication)
    → check_source_rows rows ≡ ok targets
    → (p : SearchTargetPublication) × (ps : List SearchTargetPublication) × (targets ≡ p ∷ ps)
unfolding check_source_rows check_source_groups
check_source_rows-some [] targets h = absurd (cc)
check_source_rows-some (p ∷ rows) targets h =
    let (g, gs, e) = group_by-nonempty same_group p rows in
    let checked = unless_conflict-ok _ _ targets h in
    first_error-some (check_source_group (p ∷ rows) g) (check_source_groups (p ∷ rows) gs) targets
      (rw e at checked)

-- A version that is replaced has records at one target at least.
active_source-some :
    (job : ClaimedPublicationJob) (s : Store) (targets : List SearchTargetPublication)
    → is_original_run job ≡ false
    → active_source job s ≡ ok targets
    → (p : SearchTargetPublication) × (ps : List SearchTargetPublication) × (targets ≡ p ∷ ps)
unfolding active_source
active_source-some job s targets other h = elim (Option-cases (source_version job s)) [
  | inl nothing ↦ let none_left = rw (other, nothing) at h in absurd (cc)
  | inr (source, found) ↦ elim (Bool-cases (is_ready_state source.state)) [
    | inl ready ↦ check_source_rows-some _ targets (rw (other, found, ready) at h)
    | inr ended ↦ let inactive = rw (other, found, ended) at h in absurd (cc)
  ]
]

-- No entry of an activation has been worked off.
abbrev pub HasNoneDeleted : (activation_version_id : Uuid) → List SearchCleanup → Type 0
HasNoneDeleted v = All (λ e.
    same_option same_id e.activation_version_id (some v) ≡ true
    → is_deleted_cleanup e.state ≡ false)

insert_cleanup-HasNoneDeleted :
    (v : Uuid) (new : SearchCleanup) (s : Store)
    → is_deleted_cleanup new.state ≡ false
    → HasNoneDeleted v s.cleanups
    → HasNoneDeleted v (insert_cleanup new s).cleanups
unfolding insert_cleanup
insert_cleanup-HasNoneDeleted v new s fresh h =
    elim (Bool-cases (any (is_cleanup_of new) s.cleanups)) [
      | inl present ↦ rw present h
      | inr added ↦ rw added ((λ _. fresh), h)
    ]

enqueue_cleanups-HasNoneDeleted :
    (v : Uuid) (ids : ℕ → Uuid) (t c k : Uuid) (ps : List SearchTargetPublication)
    (activation : Option Uuid) (now : ℕ) (s : Store)
    → HasNoneDeleted v s.cleanups
    → HasNoneDeleted v (enqueue_cleanups ids t c k ps activation now s).cleanups
unfolding enqueue_cleanups new_cleanup
enqueue_cleanups-HasNoneDeleted v ids t c k [] activation now s h = h
enqueue_cleanups-HasNoneDeleted v ids t c k (p ∷ ps) activation now s h =
    enqueue_cleanups-HasNoneDeleted v (λ n. ids (suc n)) t c k ps activation now _
      (insert_cleanup-HasNoneDeleted v (new_cleanup (ids 0) t c k p activation now) s refl h)

-- An entry that is not deleted stands in the way.
entry_blocks :
    (t c v k : Uuid) (p : SearchTargetPublication) (e : SearchCleanup)
    → (same_option same_id e.activation_version_id (some v) ≡ true
        → is_deleted_cleanup e.state ≡ false)
    → is_entry_of t c k (some v) p e ≡ true
    → blocks_activation t c v e ≡ true
unfolding is_entry_of is_cleanup_of new_cleanup blocks_activation
entry_blocks t c v k p e standing entry =
    let same : same_option same_id e.activation_version_id (some v) ≡ true = ground arith in
    let left = standing same in ground arith

entries_block :
    (t c v k : Uuid) (p : SearchTargetPublication) (entries : List SearchCleanup)
    → HasNoneDeleted v entries
    → All (λ e. is_entry_of t c k (some v) p e ≡ true → blocks_activation t c v e ≡ true) entries
entries_block t c v k p [] h = tt
entries_block t c v k p (e ∷ entries) h =
    (λ entry. entry_blocks t c v k p e h.0 entry, entries_block t c v k p entries h.1)

-- An activation of the version of a job.
unfoldable pub is_activation_of :
    ClaimedNativeJob → (tenant_id collection_id document_version_id : Uuid) → Bool
is_activation_of job t c v = is_of_job job t c v

abbrev row_of : ClaimedNativeJob → IndexPublication → Bool
row_of job p = is_activation_of job p.tenant_id p.collection_id p.document_version_id

blocked_row :
    (job : ClaimedNativeJob) (activation version : Option Uuid) (s : Store) (p : IndexPublication)
    → any (blocks_activation job.tenant_id job.collection_id job.document_version_id) s.cleanups
      ≡ true
    → is_pending_row activation version s p ≡ true
    → row_of job p ≡ false
unfolding is_pending_row is_activation_of
blocked_row job activation version s p blocked pending = elim (Bool-cases (row_of job p)) [
  | inr other ↦ other
  | inl own ↦
      let t : p.tenant_id ≡ job.tenant_id = ground arith in
      let c : p.collection_id ≡ job.collection_id = ground arith in
      let v : p.document_version_id ≡ job.document_version_id = ground arith in
      let blocked' : any (blocks_activation p.tenant_id p.collection_id p.document_version_id)
            s.cleanups
          ≡ true =
        rw (t, c, v) blocked in
      absurd (ground arith)
]

any-insert_ordered :
    (q : IndexPublication → Bool) (rows : List IndexPublication) (g : IndexPublication)
    (xs : List IndexPublication)
    → q g ≡ false
    → any q xs ≡ false
    → any q (insert_ordered rows g xs) ≡ false
unfolding insert_ordered any
any-insert_ordered q rows g [] first h = rw first refl
any-insert_ordered q rows g (x ∷ xs) first h =
    let this : q x ≡ false = ground arith in
    let rest : any q xs ≡ false = ground arith in
    elim (Bool-cases (is_before rows g x)) [
      | inl before ↦ rw (before, first, this, rest) refl
      | inr later ↦ rw (later, this) (any-insert_ordered q rows g xs first rest)
    ]

any-ordered :
    (q : IndexPublication → Bool) (rows xs : List IndexPublication)
    → any q xs ≡ false
    → any q (ordered rows xs) ≡ false
unfolding ordered any
any-ordered q rows [] h = refl
any-ordered q rows (x ∷ xs) h =
    let this : q x ≡ false = ground arith in
    let rest : any q xs ≡ false = ground arith in
    any-insert_ordered q rows x (ordered rows xs) this (any-ordered q rows xs rest)

any-pending :
    (job : ClaimedNativeJob) (rows xs : List IndexPublication)
    → any (row_of job) xs ≡ false
    → any
        (λ a. is_activation_of job a.tenant_id a.collection_id a.document_version_id)
        (map (pending_activation rows) xs)
      ≡ false
unfolding any pending_activation
any-pending job rows [] h = refl
any-pending job rows (x ∷ xs) h =
    let this : row_of job x ≡ false = ground arith in
    let rest : any (row_of job) xs ≡ false = ground arith in rw this (any-pending job rows xs rest)

-- While an entry of the version is not deleted, none of its activations is pending.
pending_activations-none :
    (job : ClaimedNativeJob) (limit : ℕ) (activation version : Option Uuid) (s : Store)
    → any (blocks_activation job.tenant_id job.collection_id job.document_version_id) s.cleanups
      ≡ true
    → any
        (λ a. is_activation_of job a.tenant_id a.collection_id a.document_version_id)
        (pending_activations limit activation version s)
      ≡ false
unfolding pending_activations
pending_activations-none job limit activation version s blocked =
    let rows : List IndexPublication =
      filter (is_pending_row activation version s) s.publications in
    any-take _ limit _ (
      any-pending job rows _ (
        any-ordered (row_of job) rows _ (
          any-filter_of (row_of job) (is_published_whole s rows) _ (
            any-group_by (row_of job) same_activation rows (
              any-filter (row_of job) (is_pending_row activation version s) s.publications
                (λ p pending. blocked_row job activation version s p blocked pending))))))

-- A version that replaces another one is not made visible in the search index while records of the
-- other are left there: in the store that the activation leaves, whatever the limit and the scope
-- of the query, no activation of the version is pending, provided that no entry for it had been
-- worked off before.
pub activate_waits :
    (job : ClaimedPublicationJob) (worker_id : String) (target : SearchTarget) (expected : ℕ)
    (ids : ℕ → Uuid) (now : ℕ) (s s' : Store) (targets : List SearchTargetPublication) (limit : ℕ)
    (activation version : Option Uuid)
    → IsAudited s
    → HasForeignKeys s
    → HasNoneDeleted job.native.document_version_id s.cleanups
    → is_original_run job ≡ false
    → activate job worker_id target expected ids now s ≡ ok (targets, s')
    → any
        (λ a. is_activation_of job.native a.tenant_id a.collection_id a.document_version_id)
        (pending_activations limit activation version s')
      ≡ false
activate_waits job worker_id target expected ids now s s' targets limit activation version audited
      keys standing other h =
    let t : Uuid = job.native.tenant_id in
    let c : Uuid = job.native.collection_id in
    let v : Uuid = job.native.document_version_id in
    let src : Uuid = job.source_document_version_id in
    let done =
      activate-IsActivated job worker_id target expected ids now s s' targets audited keys h in
    let r = done.replaced other in
    let (p, ps, some_target) = active_source-some job s targets other done.sources in
    let none_deleted : HasNoneDeleted v s'.cleanups =
      rw r.queued (enqueue_cleanups-HasNoneDeleted v ids t c src targets (some v) now s standing) in
    let entry : any (is_entry_of t c src (some v) p) s'.cleanups ≡ true =
      (rw some_target at r.enqueued).0 in
    pending_activations-none job.native limit activation version s' (
      any-implies (is_entry_of t c src (some v) p) (blocks_activation t c v) s'.cleanups
        (entries_block t c v src p s'.cleanups none_deleted) entry)
